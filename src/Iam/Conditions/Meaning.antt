-- ===== src/Iam/Conditions/Meaning.antt =====
-- What the condition operators of crates/activable-iam-engine/src/condition_evaluator.rs mean.
use mathlib.Core.Path.{subst}
use activable_cloud.Prelude.{
  ◌≡◌, refl, ◌↔◌, inl, inr, Bool, true, false, not, List, [], ◌∷◌, some, arith, Text, codes,
  text_eq, text_eq_iff, to_lowercase, any, all, any_iff, Any, Any-absurd, Option-cases, ↔_trans,
  any-false,
}
use activable_cloud.Iam.Matchers.{
  action_matches_iff, resource_matches_iff, ActionMatch, ResourceMatch,
}
use activable_cloud.Iam.Conditions.{
  Net, evaluate_condition, ip_address, not_ip_address, in_block, outside_block,
}

-- The operators that come with a negated form.
pub data Family : Type 0 where
  strings patterns arns addresses : Family

abbrev pub positive : Family → Text
positive strings = codes "StringEquals"
positive patterns = codes "StringLike"
positive arns = codes "ArnLike"
positive addresses = codes "IpAddress"

abbrev pub negative : Family → Text
negative strings = codes "StringNotEquals"
negative patterns = codes "StringNotLike"
negative arns = codes "ArnNotLike"
negative addresses = codes "NotIpAddress"

all-not :
    {A : Type 0} (p q : A → Bool) (xs : List A)
    → ((x : A) → q x ≡ not (p x))
    → all q xs ≡ not (any p xs)
all-not p q [] e = refl
all-not p q (x ∷ xs) e = ground (arith, e x, all-not p q xs e)

abbrev pub known_operators : List Text
known_operators =
    codes "StringEquals"
    ∷ codes "StringNotEquals"
    ∷ codes "StringLike"
    ∷ codes "StringNotLike"
    ∷ codes "ArnLike"
    ∷ codes "ArnNotLike"
    ∷ codes "IpAddress"
    ∷ codes "NotIpAddress"
    ∷ codes "Null"
    ∷ codes "Bool"
    ∷ []

module _ (net : Net) where
  open net use {IpAddr, IpNet, parse_ip, parse_net, contains}

  -- One value of the list is met by the value of the request.
  abbrev pub Meets : Family → Text → Text → Type 0
  Meets strings actual_value v = to_lowercase actual_value ≡ to_lowercase v
  Meets patterns actual_value v = ActionMatch actual_value v
  Meets arns actual_value v = ResourceMatch actual_value v
  Meets addresses actual_value v =
      (ip : IpAddr) × (parse_ip actual_value ≡ some ip)
      × ((cidr : IpNet) × (parse_net v ≡ some cidr) × (contains cidr ip ≡ true))

  outside_block-in_block :
      (ip : IpAddr) (v : Text) → outside_block net ip v ≡ not (in_block net ip v)
  outside_block-in_block ip v = elim (Option-cases (parse_net v)) [
    | inl e ↦ rw (e, outside_block, in_block)
    | inr (cidr, e) ↦ rw (e, outside_block, in_block)
  ]

  -- A negated operator holds exactly where its positive form does not, whatever the values, also
  -- where an address or a block does not parse.
  pub evaluate_condition-negative :
      (f : Family) (key : Text) (values : List Text) (actual_value : Text)
      → evaluate_condition net (negative f) key values actual_value
        ≡ not (evaluate_condition net (positive f) key values actual_value)
  unfolding evaluate_condition
  evaluate_condition-negative strings key values actual_value = all-not _ _ values (λ v. refl)
  evaluate_condition-negative patterns key values actual_value = all-not _ _ values (λ v. refl)
  evaluate_condition-negative arns key values actual_value = all-not _ _ values (λ v. refl)
  evaluate_condition-negative addresses key values actual_value =
      elim (Option-cases (parse_ip actual_value)) [
        | inl e ↦ rw (e, ip_address, not_ip_address)
        | inr (ip, e) ↦
            rw (e, ip_address, not_ip_address)
              (all-not (in_block net ip) (outside_block net ip) values (outside_block-in_block ip))
      ]

  in_block_iff :
      (ip : IpAddr) (v : Text)
      → (in_block net ip v ≡ true)
        ↔ ((cidr : IpNet) × (parse_net v ≡ some cidr) × (contains cidr ip ≡ true))
  in_block_iff ip v = elim (Option-cases (parse_net v)) [
    | inl e ↦ (λ h. ground arith, λ (cidr, q, c). ground arith)
    | inr (cidr, e) ↦ (λ h. (cidr, e, ground arith), λ (cidr', q, c). ground arith)
  ]

  abbrev InBlock : Text → IpAddr → Type 0
  InBlock v ip = (cidr : IpNet) × (parse_net v ≡ some cidr) × (contains cidr ip ≡ true)

  ip_address_iff :
      (values : List Text) (actual_value : Text)
      → (ip_address net values actual_value ≡ true) ↔ Any (Meets addresses actual_value) values
  unfolding ip_address
  ip_address_iff values actual_value = elim (Option-cases (parse_ip actual_value)) [
    | inl e ↦
        rw (e, ip_address)
          (
            λ h. cc,
            λ a. absurd (Any-absurd (Meets addresses actual_value) (λ v m. cc (e, m.1)) values a),
          )
    | inr (ip, e) ↦
        rw (e, ip_address)
          (any_iff (Meets addresses actual_value) (in_block net ip)
            (λ v. ↔_trans (in_block_iff ip v) (
              λ h. (ip, e, h),
              λ (ip', e', h). let same : ip' ≡ ip = cc in subst (InBlock v) same h,
            ))
            values)
  ]

  -- A positive operator holds exactly if the value of the request meets one of the listed values:
  -- the same text up to case, a wildcard pattern, or an address in a block.
  pub evaluate_condition-positive :
      (f : Family) (key : Text) (values : List Text) (actual_value : Text)
      → (evaluate_condition net (positive f) key values actual_value ≡ true)
        ↔ Any (Meets f actual_value) values
  unfolding evaluate_condition
  evaluate_condition-positive strings key values actual_value =
      any_iff (Meets strings actual_value) _
        (λ v. text_eq_iff (to_lowercase actual_value) (to_lowercase v)) values
  evaluate_condition-positive patterns key values actual_value =
      any_iff (Meets patterns actual_value) _ (λ v. action_matches_iff v actual_value) values
  evaluate_condition-positive arns key values actual_value =
      any_iff (Meets arns actual_value) _ (λ v. resource_matches_iff v actual_value) values
  evaluate_condition-positive addresses key values actual_value = ip_address_iff values actual_value

  -- An operator that is none of the ten known ones holds of every value.
  pub evaluate_condition_unknown :
      (operator key : Text) (values : List Text) (actual_value : Text)
      → any (text_eq operator) known_operators ≡ false
      → evaluate_condition net operator key values actual_value ≡ true
  unfolding evaluate_condition
  evaluate_condition_unknown operator key values actual_value h =
      let (e1, (e2, (e3, (e4, (e5, (e6, (e7, (e8, (e9, (e10, _)))))))))) =
        any-false (text_eq operator) known_operators h in
      rw (e1, e2, e3, e4, e5, e6, e7, e8, e9, e10)

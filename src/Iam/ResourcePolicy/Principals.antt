-- ===== src/Iam/ResourcePolicy/Principals.antt =====
-- `extract_account_from_arn` and `principal_matches` of
-- crates/activable-iam-engine/src/resource_policy_evaluator.rs.
use activable_cloud.Prelude.{
  ℕ, ◌≡◌, refl, sym, ap, ◌↔◌, inl, inr, true, false, List, ◌∷◌, ◌++◌, Option, none, some, arith,
  Text, codes, text_eq, text_eq_iff, contains_char, is_empty, Bool-cases, if◌then◌else◌,
}
use activable_cloud.Prelude.Split.{split, split-append, ends_with}
use activable_cloud.Iam.ResourcePolicy.{
  account_of, extract_account_from_arn, accounts_match, principal_matches,
}

abbrev colon : ℕ
colon = b':'

-- Parts joined by colons.
abbrev pub arn_text : Text → Text → Text → Text → Text → Text → Text
arn_text prefix partition service region account resource =
    prefix
    ++ colon
      ∷ (partition
          ++ colon ∷ (service ++ colon ∷ (region ++ colon ∷ (account ++ colon ∷ resource))))

fifth :
    (prefix partition service region account : Text) (parts : List Text)
    → account_of (prefix ∷ partition ∷ service ∷ region ∷ account ∷ parts)
      ≡ (if is_empty account then none else some account)
fifth prefix partition service region account parts = elim (Bool-cases (is_empty account)) [
  | inl e ↦ ground arith
  | inr n ↦ ground arith
]

-- The account of an ARN is its fifth part, if that is not empty; the resource may hold more colons.
pub extract_account_from_arn_lem :
    (prefix partition service region account resource : Text)
    → contains_char colon prefix ≡ false
    → contains_char colon partition ≡ false
    → contains_char colon service ≡ false
    → contains_char colon region ≡ false
    → contains_char colon account ≡ false
    → extract_account_from_arn (arn_text prefix partition service region account resource)
      ≡ (if is_empty account then none else some account)
unfolding extract_account_from_arn
extract_account_from_arn_lem prefix partition service region account resource h0 h1 h2 h3 h4 =
    rw (split-append colon prefix _ h0) (
      rw (split-append colon partition _ h1) (
        rw (split-append colon service _ h2) (
          rw (split-append colon region _ h3) (
            rw (split-append colon account resource h4)
              (fifth prefix partition service region account (split colon resource))))))

accounts_match_iff :
    (o p : Option Text)
    → (accounts_match o p ≡ true) ↔ ((account : Text) × (o ≡ some account) × (p ≡ some account))
accounts_match_iff (some a) (some b) =
    let (f, g) = text_eq_iff a b in
    (λ h. (a, refl, ap some (sym (f h))), λ (x, e, e'). g (cc (e, e')))
accounts_match_iff (some a) none = (λ h. cc, λ (x, e, e'). cc e')
accounts_match_iff none p = (λ h. cc, λ (x, e, e'). cc e)

star_not_root : (p : Text) → p ≡ codes "*" → ¬ (ends_with p (codes ":root") ≡ true)
unfolding ends_with
star_not_root p e h = let h' : ends_with (codes "*") (codes ":root") ≡ true = rw e at h in cc h'

-- A principal that ends in ":root" matches exactly the principals of its account: both have one, and
-- it is the same.
pub principal_matches_root :
    (policy_principal principal_arn : Text)
    → ends_with policy_principal (codes ":root") ≡ true
    → (principal_matches policy_principal principal_arn ≡ true) ↔ (
        (account : Text) × (extract_account_from_arn policy_principal ≡ some account)
        × (extract_account_from_arn principal_arn ≡ some account))
unfolding principal_matches
principal_matches_root policy_principal principal_arn h =
    elim (Bool-cases (text_eq policy_principal (codes "*"))) [
      | inl e ↦
          absurd (star_not_root policy_principal ((text_eq_iff policy_principal (codes "*")).0 e) h)
      | inr n ↦
          rw (n, h)
            (accounts_match_iff (extract_account_from_arn policy_principal)
              (extract_account_from_arn principal_arn))
    ]

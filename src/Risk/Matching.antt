-- ===== src/Risk/Matching.antt =====
-- Which requirements are met and which rules match (crates/activable-risk/src/rule_engine.rs).
use activable_cloud.Prelude.{
  ◌≡◌, refl, ◌↔◌, ◌⊎◌, inl, inr, true, not, ◌||◌, List, [], ◌∷◌, ◌++◌, Option, none, some, arith,
  Text, codes, text_eq, text_eq_iff, is_empty, Any, Bool-cases,
}
use activable_cloud.Iam.Matchers.{action_matches, action_matches_iff, ActionMatch}
use activable_cloud.Risk.Rules.{
  RuleRequirement, single, all_of, any_of, Requirements, nil, cons, EffectivePermission,
  matched_single, evaluate_requirement, evaluate_all, evaluate_any, EscalationRule, MatchedRule,
  report, match_permissions, match_rule, CascadeTrigger,
}

-- An effective permission whose action is a star, or matches the required one.
abbrev pub Covers : Text → EffectivePermission → Type 0
Covers permission e = (e.action ≡ codes "*") ⊎ ActionMatch permission e.action

-- What a requirement says.
unfoldable mutual
  pub Holds : RuleRequirement → List EffectivePermission → Type 0
  Holds (single rp) perms = Any (Covers rp.permission) perms
  Holds (all_of reqs) perms = HoldsAll reqs perms
  Holds (any_of reqs) perms = HoldsAny reqs perms

  pub HoldsAll : Requirements → List EffectivePermission → Type 0
  HoldsAll nil perms = Unit
  HoldsAll (cons req reqs) perms = Holds req perms × HoldsAll reqs perms

  pub HoldsAny : Requirements → List EffectivePermission → Type 0
  HoldsAny nil perms = ⊥
  HoldsAny (cons req reqs) perms = Holds req perms ⊎ HoldsAny reqs perms

Covers-iff :
    (permission : Text) (e : EffectivePermission)
    → ((text_eq e.action (codes "*") || action_matches e.action permission) ≡ true)
      ↔ Covers permission e
Covers-iff permission e =
    let (star, of_star) = text_eq_iff e.action (codes "*") in
    let (found, of_found) = action_matches_iff e.action permission in
    (
      λ h. elim (Bool-cases (text_eq e.action (codes "*"))) [
        | inl y ↦ inl (star y)
        | inr n ↦ inr (found (ground arith))
      ],
      elim [
        | inl e ↦ let y = of_star e in ground arith
        | inr m ↦ let y = of_found m in ground arith
      ],
    )

matched_single_iff :
    (permission : Text) (perms : List EffectivePermission)
    → (not (is_empty (matched_single permission perms)) ≡ true) ↔ Any (Covers permission) perms
matched_single_iff permission [] = (λ h. cc, λ h. absurd h)
matched_single_iff permission (e ∷ perms) =
    let (forth, back) = Covers-iff permission e in
    let (later, of_later) = matched_single_iff permission perms in
    elim (Bool-cases (text_eq e.action (codes "*") || action_matches e.action permission)) [
      | inl y ↦ rw y (λ h. inl (forth y), λ h. refl)
      | inr n ↦
          rw n
            (λ h. inr (later h), elim [ inl c ↦ let y = back c in cc (y, n) | inr a ↦ of_later a ])
    ]

mutual
  unfolding evaluate_requirement Holds

  requirement_iff :
      (req : RuleRequirement) (perms : List EffectivePermission)
      → ((evaluate_requirement req perms).0 ≡ true) ↔ Holds req perms
  requirement_iff (single rp) perms = matched_single_iff rp.permission perms
  requirement_iff (all_of reqs) perms = requirements_iff reqs perms []
  requirement_iff (any_of reqs) perms = any_requirement_iff reqs perms

  requirements_iff :
      (reqs : Requirements) (perms : List EffectivePermission) (collected : List Text)
      → ((evaluate_all reqs perms collected).0 ≡ true) ↔ HoldsAll reqs perms
  requirements_iff nil perms collected = (λ h. tt, λ h. refl)
  requirements_iff (cons req reqs) perms collected =
      let (forth, back) = requirement_iff req perms in
      let (later, of_later) =
        requirements_iff reqs perms (collected ++ (evaluate_requirement req perms).1) in
      elim (Bool-cases ((evaluate_requirement req perms).0)) [
        | inl y ↦ rw y (λ h. (forth y, later h), λ h. of_later h.1)
        | inr n ↦ rw n (λ h. cc, λ h. let y = back h.0 in cc (y, n))
      ]

  any_requirement_iff :
      (reqs : Requirements) (perms : List EffectivePermission)
      → ((evaluate_any reqs perms).0 ≡ true) ↔ HoldsAny reqs perms
  any_requirement_iff nil perms = (λ h. cc, λ h. absurd h)
  any_requirement_iff (cons req reqs) perms =
      let (forth, back) = requirement_iff req perms in
      let (later, of_later) = any_requirement_iff reqs perms in
      elim (Bool-cases ((evaluate_requirement req perms).0)) [
        | inl y ↦ rw y (λ h. inl (forth y), λ h. refl)
        | inr n ↦
            rw n (
              λ h. inr (later h),
              elim [ inl c ↦ let y = back c in cc (y, n) | inr a ↦ of_later a ],
            )
      ]

match_permissions_iff :
    (F64 : Type 0) (rule : EscalationRule F64) (trigger : Option CascadeTrigger)
    (permissions : Option RuleRequirement) (perms : List EffectivePermission)
    → ((m : MatchedRule F64) × (match_permissions rule trigger permissions perms ≡ some m))
      ↔ ((trigger ≡ none) × (req : RuleRequirement) × (permissions ≡ some req) × Holds req perms)
match_permissions_iff F64 rule (some t) permissions perms = (λ (m, e). cc, λ (without, _, _, _). cc)
match_permissions_iff F64 rule none none perms = (λ (m, e). cc, λ (_, req, without, _). cc)
match_permissions_iff F64 rule none (some req) perms =
    let (forth, back) = requirement_iff req perms in
    elim (Bool-cases ((evaluate_requirement req perms).0)) [
      | inl y ↦ rw y (λ _. (refl, req, refl, forth y), λ _. (report rule _, refl))
      | inr n ↦ rw n (
        λ (m, e). cc,
        λ (_, other, same, h).
            let y = (requirement_iff other perms).1 h in let is : req ≡ other = cc in cc (y, n, is),
      )
    ]

-- A rule is reported exactly if it has no trigger and has a requirement, and the requirement holds of the effective permissions: all of its parts, or one of them, down to single actions that one of the permissions covers.
pub match_rule_iff :
    (F64 : Type 0) (rule : EscalationRule F64) (perms : List EffectivePermission)
    → ((m : MatchedRule F64) × (match_rule rule perms ≡ some m)) ↔ (
        (rule.trigger ≡ none)
        × (req : RuleRequirement) × (rule.permissions ≡ some req)
        × Holds req perms)
unfolding match_rule
match_rule_iff F64 rule perms = match_permissions_iff F64 rule rule.trigger rule.permissions perms

-- ===== src/Iam/Federation/Weak.antt =====
-- Which trusts are extracted and which of them are weak
-- (crates/activable-iam-engine/src/federation.rs).
use activable_cloud.Prelude.{
  ◌≡◌, refl, sym, ◌∙◌, subst, ◌↔◌, ◌⊎◌, inl, inr, true, false, not, ◌&&◌, List, [], ◌∷◌, arith,
  Text, Any, All, Any-append, Any-keep, Any-iff, Any-×, any-false, any_of_false, any, ↔_trans,
  Bool-cases, keep,
}
use activable_cloud.Prelude.Errors.{Result, ok, >>=-eq-ok, ok_injective}
use activable_cloud.Json.{Value}
use activable_cloud.Iam.Federation.{
  FederationProviderType, FederationCondition, FederationTrust, names_audience, names_subject,
  detect_weakness, extract_federation_trusts, is_some, is_weak, find_weak_federation_trusts,
}
use activable_cloud.Iam.Federation.Extracted.{IsExtracted, extract_federation_trusts-All}

-- A trust is kept exactly if it is there and weak.
kept-weak :
    (t : FederationTrust) (ts : List FederationTrust)
    → Any (λ u. t ≡ u) (keep is_weak ts) ↔ ((is_weak t ≡ true) × Any (λ u. t ≡ u) ts)
kept-weak t ts = ↔_trans (Any-keep (λ u. t ≡ u) is_weak ts) (
    ↔_trans
      (Any-iff (λ u. (is_weak u ≡ true) × (t ≡ u)) (λ u. (t ≡ u) × (is_weak t ≡ true)) ts
        (λ u. (λ (w, e). (e, rw e w), λ (e, w). (rw (← e) w, e))))
      (↔_trans (Any-× (λ u. t ≡ u) (is_weak t ≡ true) ts) (λ (a, w). (w, a), λ (w, a). (a, w))))

judged-of_Any :
    (role_arn : Text) (t : FederationTrust) (ts : List FederationTrust)
    → All (IsExtracted role_arn) ts
    → Any (λ u. t ≡ u) ts
    → t.weakness ≡ detect_weakness t.conditions t.provider_type
judged-of_Any role_arn t [] made a = absurd a
judged-of_Any role_arn t (u ∷ ts) made (inl e) = rw e (made.0).judged
judged-of_Any role_arn t (u ∷ ts) made (inr a) = judged-of_Any role_arn t ts made.1 a

module _ (from_str : Text → Result Text Value) where
  -- A trust that one of the policies gives.
  abbrev pub IsTrustOf : FederationTrust → Text × Text → Type 0
  IsTrustOf t (role_arn, json) =
      (ts : List FederationTrust) × (extract_federation_trusts from_str json role_arn ≡ ok ts)
      × Any (λ u. t ≡ u) ts

  pub find_weak_iff :
      (policies : List (Text × Text)) (weak : List FederationTrust)
      → find_weak_federation_trusts from_str policies ≡ ok weak
      → (t : FederationTrust)
      → Any (λ u. t ≡ u) weak ↔ ((is_weak t ≡ true) × Any (IsTrustOf t) policies)
  unfolding find_weak_federation_trusts
  find_weak_iff [] weak h t = rw (← ok_injective h) (λ a. absurd a, λ a. a.1)
  find_weak_iff ((role_arn, json) ∷ rest) weak h t =
      let (ts, found, with_ts) = >>=-eq-ok (extract_federation_trusts from_str json role_arn) _ h in
      let (later, found_later, e) =
        >>=-eq-ok (find_weak_federation_trusts from_str rest) _ with_ts in
      let (forth, back) = find_weak_iff rest later found_later t in
      subst
        (λ (ws : List FederationTrust).
          Any (λ u. t ≡ u) ws ↔ ((is_weak t ≡ true) × Any (IsTrustOf t) ((role_arn, json) ∷ rest)))
        (ok_injective e)
        (
          λ a. elim ((Any-append (λ u. t ≡ u) (keep is_weak ts) later).0 a) [
            | inl b ↦ let (w, c) = (kept-weak t ts).0 b in (w, inl (ts, found, c))
            | inr b ↦ let (w, c) = forth b in (w, inr c)
          ],
          λ (w, a). (Any-append (λ u. t ≡ u) (keep is_weak ts) later).1 (elim a [
            | inl (us, found_us, c) ↦
                let same : us ≡ ts = ok_injective (sym found_us ∙ found) in
                inl ((kept-weak t ts).1 (w, subst (Any (λ u. t ≡ u)) same c))
            | inr c ↦ inr (back (w, c))
          ]),
        )

  trust-judged :
      (t : FederationTrust) (policies : List (Text × Text))
      → Any (IsTrustOf t) policies
      → t.weakness ≡ detect_weakness t.conditions t.provider_type
  trust-judged t [] from = absurd from
  trust-judged t ((role_arn, json) ∷ rest) (inl (ts, found, a)) =
      let made = extract_federation_trusts-All from_str json role_arn found in
      judged-of_Any role_arn t ts made a
  trust-judged t (policy ∷ rest) (inr from) = trust-judged t rest from

-- No condition names the audience, or none names the subject.
abbrev pub LacksOne : List FederationCondition → Type 0
LacksOne cs = All (λ c. names_audience c ≡ false) cs ⊎ All (λ c. names_subject c ≡ false) cs

some-detect_weakness :
    (cs : List FederationCondition) (type : FederationProviderType)
    → is_some (detect_weakness cs type) ≡ not (any names_audience cs && any names_subject cs)
unfolding detect_weakness
some-detect_weakness [] type = refl
some-detect_weakness (c ∷ cs) type = elim (Bool-cases (any names_audience (c ∷ cs))) [
  | inl a ↦ elim (Bool-cases (any names_subject (c ∷ cs))) [
    | inl b ↦ rw (a, b) refl
    | inr b ↦ rw (a, b) refl
  ]
  | inr a ↦ elim (Bool-cases (any names_subject (c ∷ cs))) [
    | inl b ↦ rw (a, b) refl
    | inr b ↦ rw (a, b) refl
  ]
]

weakness_iff :
    (cs : List FederationCondition) (type : FederationProviderType)
    → (is_some (detect_weakness cs type) ≡ true) ↔ LacksOne cs
weakness_iff cs type =
    let judged = some-detect_weakness cs type in
    (
      λ w. elim (Bool-cases (any names_audience cs)) [
        | inl a ↦ inr (any-false names_subject cs (ground arith))
        | inr a ↦ inl (any-false names_audience cs a)
      ],
      elim [
        | inl l ↦ let none_of = any_of_false names_audience cs l in ground arith
        | inr l ↦ let none_of = any_of_false names_subject cs l in ground arith
      ],
    )

-- Where the analysis of roles succeeds, it reports exactly those trusts of their policies whose conditions name no audience or no subject.
pub find_weak_federation_trusts_iff :
    (from_str : Text → Result Text Value) (policies : List (Text × Text))
    (weak : List FederationTrust)
    → find_weak_federation_trusts from_str policies ≡ ok weak
    → (t : FederationTrust)
    → Any (λ u. t ≡ u) weak ↔ (LacksOne t.conditions × Any (IsTrustOf from_str t) policies)
find_weak_federation_trusts_iff from_str policies weak h t =
    let (forth, back) = find_weak_iff from_str policies weak h t in
    (
      λ a.
          let (w, from) = forth a in
          let judged = trust-judged from_str t policies from in
          ((weakness_iff t.conditions t.provider_type).0 (rw (← judged) w), from),
      λ (l, from).
          let judged = trust-judged from_str t policies from in
          back (rw judged ((weakness_iff t.conditions t.provider_type).1 l), from),
    )

-- ===== src/Iam/ResourcePolicy/Patterns.antt =====
-- How `matches_pattern` of crates/activable-iam-engine/src/resource_policy_evaluator.rs, which compares
-- up to the first star, relates to the wildcard matching of src/resource_matcher.rs.
use mathlib.Core.Path.{subst}
use activable_cloud.Prelude.{
  ◌≡◌, refl, sym, ap₂, ◌≢◌, ◌↔◌, inl, inr, true, false, [], ◌∷◌, ◌++◌, arith, Text, codes, text_eq,
  text_eq_iff, starts_with, starts_with_iff, IsPrefix, contains_char, Bool-cases, Bool-eq_of_iff,
}
use activable_cloud.Prelude.Split.{before_char-append, before_char-some}
use activable_cloud.Iam.Wildcard.{
  star, question, Matches, one, Matches-literal, Matches-one_inv, Matches-star_end,
  not-Matches-one_nil,
}
use activable_cloud.Iam.Matchers
use activable_cloud.Iam.Matchers.{ResourceMatch, resource_matches_iff}
use activable_cloud.Iam.ResourcePolicy.{wildcard_match, matches_pattern}

-- Characters that stand for themselves are matched one by one.
Matches-literal_append :
    (pre q t : Text)
    → contains_char star pre ≡ false
    → contains_char question pre ≡ false
    → Matches (pre ++ q) t ↔ ((s : Text) × (t ≡ pre ++ s) × Matches q s)
Matches-literal_append [] q t hs hq = (λ m. (t, refl, m), λ (s, e, m). subst (Matches q) (sym e) m)
Matches-literal_append (c ∷ pre) q [] hs hq =
    (λ m. absurd (not-Matches-one_nil (ground arith) m), λ (s, e, m). cc e)
Matches-literal_append (c ∷ pre) q (d ∷ t) hs hq =
    let n : c ≢ star = ground arith in
    let (forth, back) = Matches-literal_append pre q t (ground arith) (ground arith) in
    (
      λ m.
          let (same, rest) = Matches-one_inv n m in
          let c_d : c ≡ d = ground arith in
          let (s, e, m') = forth rest in (s, ap₂ ◌∷◌ (sym c_d) e, m'),
      λ (s, e, m).
          let f : (d ≡ c) × (t ≡ pre ++ s) = ground arith in
          one n (inr (sym f.0)) (back (s, f.1, m)),
    )

contains_star : (pre suf : Text) → contains_char star (pre ++ star ∷ suf) ≡ true
contains_star [] suf = refl
contains_star (c ∷ pre) suf = ground (arith, contains_star pre suf)

-- The last branch, which is taken unless the pattern is a star alone.
wildcard-star :
    (pre suf value : Text)
    → contains_char star pre ≡ false
    → wildcard_match (pre ++ star ∷ suf) value ≡ starts_with value pre
unfolding wildcard_match
wildcard-star pre suf value h = rw (before_char-append star pre suf h, wildcard_match)

-- With a star behind `pre`, the pattern lets through exactly what starts with `pre`.
matches_pattern-star :
    (pre suf value : Text)
    → contains_char star pre ≡ false
    → (matches_pattern (pre ++ star ∷ suf) value ≡ true) ↔ IsPrefix pre value
unfolding matches_pattern
matches_pattern-star [] suf value h = elim (Bool-cases (text_eq (star ∷ suf) (codes "*"))) [
  | inl e ↦ rw e (λ t. (value, refl), λ p. refl)
  | inr n ↦ rw (n, wildcard-star [] suf value h) (λ t. (value, refl), λ p. refl)
]
matches_pattern-star (c ∷ pre) suf value h =
    let n : text_eq (c ∷ pre ++ star ∷ suf) (codes "*") ≡ false = ground arith in
    rw (n, contains_star (c ∷ pre) suf, wildcard-star (c ∷ pre) suf value h)
      (starts_with_iff value (c ∷ pre))

-- The part of a pattern behind its first star is not looked at: whatever starts as the pattern does
-- is let through.
pub matches_pattern_ignores_rest :
    (pre suf suf' value : Text)
    → contains_char star pre ≡ false
    → matches_pattern (pre ++ star ∷ suf) value ≡ matches_pattern (pre ++ star ∷ suf') value
matches_pattern_ignores_rest pre suf suf' value h =
    let (f, b) = matches_pattern-star pre suf value h in
    let (f', b') = matches_pattern-star pre suf' value h in
    Bool-eq_of_iff _ _ (λ e. b' (f e), λ e. b (f' e))

no_question :
    (pre q : Text) → contains_char question (pre ++ q) ≡ false → contains_char question pre ≡ false
no_question [] q h = refl
no_question (c ∷ pre) q h = ground (arith, no_question pre q)

plain_self :
    (pattern value : Text)
    → contains_char star pattern ≡ false
    → pattern ≡ value
    → matches_pattern pattern value ≡ true
unfolding matches_pattern
plain_self pattern value plain e =
    let n : text_eq pattern value ≡ true = (text_eq_iff pattern value).1 e in
    elim (Bool-cases (text_eq pattern (codes "*"))) [
      | inl lone ↦ rw lone
      | inr other ↦ rw (other, plain) n
    ]

-- `matches_pattern` lets through all that the wildcard matcher does, if the pattern has no `?`.
pub matches_pattern_of_match :
    (pattern value : Text)
    → contains_char question pattern ≡ false
    → ResourceMatch value pattern
    → matches_pattern pattern value ≡ true
unfolding matches_pattern
matches_pattern_of_match pattern value hq m = elim (Bool-cases (contains_char star pattern)) [
  | inr plain ↦
      let e : pattern ≡ value = (Matches-literal pattern value plain hq).0 m in
      plain_self pattern value plain e
  | inl starred ↦
      let (pre, suf, e, first) = before_char-some star pattern starred in
      let (s, p, _) =
        (Matches-literal_append pre (star ∷ suf) value first
            (no_question pre (star ∷ suf) (rw e at hq))).0
          (rw e at m) in
      rw e ((matches_pattern-star pre suf value first).1 (s, p))
]

-- The two agree on patterns that hold no `?`, and no star but one at the end.
pub matches_pattern_trailing_star :
    (pre value : Text)
    → contains_char star pre ≡ false
    → contains_char question pre ≡ false
    → matches_pattern (pre ++ star ∷ []) value ≡ Matchers.resource_matches (pre ++ star ∷ []) value
matches_pattern_trailing_star pre value hs hq =
    let (f, b) = matches_pattern-star pre [] value hs in
    let (rf, rb) = resource_matches_iff (pre ++ star ∷ []) value in
    let (mf, mb) = Matches-literal_append pre (star ∷ []) value hs hq in
    Bool-eq_of_iff _ _ (
      λ e. let (rest, p) = f e in rb (mb (rest, p, Matches-star_end refl rest)),
      λ e. let (s, p, _) = mf (rf e) in b (s, p),
    )

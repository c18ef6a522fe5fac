-- ===== src/Iam/Matchers.antt =====
-- `action_matches` (crates/activable-iam-engine/src/action_matcher.rs) and `resource_matches`
-- (src/resource_matcher.rs): the matcher behind a fast path.
use activable_cloud.Prelude.{
  ◌≡◌, refl, ◌↔◌, inl, inr, Bool, true, not, ◌&&◌, Text, codes, text_eq, text_eq_iff, to_lowercase,
  contains_char, if◌then◌else◌, Bool-cases, ↔_trans, ↔_sym, to_lowercase_idem,
}
use activable_cloud.Iam.Wildcard.{
  star, question, Matches, Matches-literal, Matches-star_end, wildcard_match, wildcard_match_iff,
}

-- The pattern and the text from the fast path on.
abbrev match_text : Text → Text → Bool
match_text pattern text =
    if not (contains_char star pattern) && not (contains_char question pattern)
    then text_eq pattern text
    else wildcard_match pattern text

-- The fast path answers as the matcher would.
match_text_iff : (pattern text : Text) → (match_text pattern text ≡ true) ↔ Matches pattern text
match_text_iff pattern text = elim (Bool-cases (contains_char star pattern)) [
  | inl s ↦ rw s (wildcard_match_iff pattern text)
  | inr s ↦ elim (Bool-cases (contains_char question pattern)) [
    | inl q ↦ rw (s, q) (wildcard_match_iff pattern text)
    | inr q ↦
        rw (s, q) (↔_trans (text_eq_iff pattern text) (↔_sym (Matches-literal pattern text s q)))
  ]
]

unfoldable pub action_matches : Text → Text → Bool
action_matches pattern action =
    let pattern_lower = to_lowercase pattern in
    let action_lower = to_lowercase action in
    if not (contains_char star pattern_lower) && not (contains_char question pattern_lower)
    then text_eq pattern_lower action_lower
    else wildcard_match pattern_lower action_lower

unfoldable pub resource_matches : Text → Text → Bool
resource_matches pattern resource =
    if text_eq pattern (codes "*")
    then true
    else if not (contains_char star pattern) && not (contains_char question pattern)
    then text_eq pattern resource
    else wildcard_match pattern resource

-- What the two promise: a match of the texts, up to the case of letters for actions.
abbrev pub ActionMatch : Text → Text → Type 0
ActionMatch action pattern = Matches (to_lowercase pattern) (to_lowercase action)

abbrev pub ResourceMatch : Text → Text → Type 0
ResourceMatch resource pattern = Matches pattern resource

-- `action_matches` is true exactly if the lowercased pattern matches the lowercased action: the
-- comparison of whole texts, taken when there is no wildcard, gives the same answer as the matcher.
pub action_matches_iff :
    (pattern action : Text) → (action_matches pattern action ≡ true) ↔ ActionMatch action pattern
unfolding action_matches
action_matches_iff pattern action = match_text_iff (to_lowercase pattern) (to_lowercase action)

-- `resource_matches` is true exactly if the pattern matches the resource, on each of its three paths.
pub resource_matches_iff :
    (pattern resource : Text)
    → (resource_matches pattern resource ≡ true) ↔ ResourceMatch resource pattern
unfolding resource_matches
resource_matches_iff pattern resource = elim (Bool-cases (text_eq pattern (codes "*"))) [
  | inl e ↦
      let lone : pattern ≡ codes "*" = (text_eq_iff pattern (codes "*")).0 e in
      rw (e, lone) (λ h. Matches-star_end refl resource, λ m. refl)
  | inr n ↦ rw n (match_text_iff pattern resource)
]

-- The case of letters does not matter on either side.
pub action_matches-to_lowercase :
    (pattern action : Text)
    → action_matches (to_lowercase pattern) (to_lowercase action) ≡ action_matches pattern action
unfolding action_matches
action_matches-to_lowercase pattern action =
    rw (to_lowercase_idem pattern, to_lowercase_idem action)

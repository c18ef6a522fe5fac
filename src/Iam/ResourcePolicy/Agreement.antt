-- ===== src/Iam/ResourcePolicy/Agreement.antt =====
-- Where the statement test of crates/activable-iam-engine/src/resource_policy_evaluator.rs agrees with
-- that of src/deny_engine.rs, scp_evaluator.rs, boundary_evaluator.rs and session_policy.rs.
use activable_cloud.Prelude.{
  ◌≡◌, refl, ap, ap₂, ◌⊎◌, inl, inr, Bool, true, false, not, ◌&&◌, List, [], ◌∷◌, ◌++◌, arith, Text,
  contains_char, is_empty, any, All, if◌then◌else◌,
}
use activable_cloud.Iam.Wildcard.{star, question}
use activable_cloud.Iam.Types.{PolicyStatement}
use activable_cloud.Iam.Matchers
use activable_cloud.Iam.Matchers.{action_matches}
use activable_cloud.Iam.Statements.{action_matches_result, resource_matches_result, covers}
use activable_cloud.Iam.PolicyParser.WellFormed.{OneOf, IsWellFormed}
use activable_cloud.Iam.ResourcePolicy.{
  matches_pattern, resource_matches, stmt_matches_action_and_resource,
}
use activable_cloud.Iam.ResourcePolicy.Patterns.{matches_pattern_trailing_star}

-- A pattern without wildcards, or with none but one star at its end.
abbrev pub IsSimple : Text → Type 0
IsSimple p =
    ((contains_char star p ≡ false) × (contains_char question p ≡ false))
    ⊎ ((pre : Text) × (p ≡ pre ++ star ∷ [])
        × (contains_char star pre ≡ false)
        × (contains_char question pre ≡ false))

plain_agrees :
    (p value : Text)
    → contains_char star p ≡ false
    → contains_char question p ≡ false
    → matches_pattern p value ≡ Matchers.resource_matches p value
unfolding matches_pattern Matchers.resource_matches
plain_agrees p value hs hq = rw (hs, hq)

simple_agrees :
    (p value : Text) → IsSimple p → matches_pattern p value ≡ Matchers.resource_matches p value
simple_agrees p value (inl (hs, hq)) = plain_agrees p value hs hq
simple_agrees p value (inr (pre, e, hs, hq)) = rw e (matches_pattern_trailing_star pre value hs hq)

any_agrees :
    (ps : List Text) (value : Text)
    → All IsSimple ps
    → any (λ p. matches_pattern p value) ps ≡ any (λ p. Matchers.resource_matches p value) ps
any_agrees [] value h = refl
any_agrees (p ∷ ps) value h = ground (arith, simple_agrees p value h.0, any_agrees ps value h.1)

-- The two orders of the tests on a statement's lists.
lists_agree :
    (m m' : Text → Bool) (e : Bool) (ps ns : List Text)
    → OneOf ps ns
    → any m ps ≡ any m' ps
    → any m ns ≡ any m' ns
    → (if not (is_empty ps) then any m ps else if not (is_empty ns) then not (any m ns) else e) ≡ (
        if not (is_empty ns)
        then not (any m' ns)
        else if not (is_empty ps)
        then any m' ps
        else true)
lists_agree m m' e (p ∷ ps) [] o f g = f
lists_agree m m' e (p ∷ ps) (n ∷ ns) o f g = cc
lists_agree m m' e [] (n ∷ ns) o f g = ap not g
lists_agree m m' e [] [] o f g = absurd o

-- On a statement that the parser returns, whose resource patterns hold no wildcard but a star at
-- their ends, the evaluator of resource policies and the other engines agree for every request.
pub stmt_matches_agrees :
    (stmt : PolicyStatement) (action resource : Text)
    → IsWellFormed stmt
    → All IsSimple stmt.resources
    → All IsSimple stmt.not_resources
    → stmt_matches_action_and_resource stmt action resource ≡ covers stmt action resource
unfolding stmt_matches_action_and_resource resource_matches action_matches_result
    resource_matches_result
stmt_matches_agrees stmt action resource w sr sn =
    ap₂ ◌&&◌
      (lists_agree (λ a. action_matches a action) (λ a. action_matches a action) false stmt.actions
        stmt.not_actions w.one_action refl refl)
      (lists_agree (λ r. matches_pattern r resource) (λ r. Matchers.resource_matches r resource)
        true stmt.resources stmt.not_resources w.one_resource
        (any_agrees stmt.resources resource sr) (any_agrees stmt.not_resources resource sn))

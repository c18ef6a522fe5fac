-- ===== src/Iam/Statements.antt =====
-- Which requests a policy statement is about. The tests on `not_actions`, `actions`,
-- `not_resources` and `resources` stand in the same words in
-- crates/activable-iam-engine/src/deny_engine.rs, scp_evaluator.rs, boundary_evaluator.rs and
-- session_policy.rs.
use activable_cloud.Prelude.{
  ◌≡◌, refl, ◌↔◌, Bool, true, not, ◌&&◌, List, [], ◌∷◌, Text, is_empty, any, any_iff, Any,
  if◌then◌else◌, not_iff, &&_iff, ↔_trans,
}
use activable_cloud.Iam.Types.{PolicyStatement}
use activable_cloud.Iam.Matchers.{
  action_matches, resource_matches, ActionMatch, ResourceMatch, action_matches_iff,
  resource_matches_iff,
}

-- `NotAction` comes first, then `Action`; a statement with neither is about everything.
abbrev selects : (Text → Bool) → List Text → List Text → Bool
selects matched not_patterns patterns =
    if not (is_empty not_patterns)
    then not (any matched not_patterns)
    else if not (is_empty patterns)
    then any matched patterns
    else true

unfoldable pub action_matches_result : PolicyStatement → Text → Bool
action_matches_result stmt action =
    if not (is_empty stmt.not_actions)
    then not (any (λ pattern. action_matches pattern action) stmt.not_actions)
    else if not (is_empty stmt.actions)
    then any (λ pattern. action_matches pattern action) stmt.actions
    else true

unfoldable pub resource_matches_result : PolicyStatement → Text → Bool
resource_matches_result stmt resource =
    if not (is_empty stmt.not_resources)
    then not (any (λ pattern. resource_matches pattern resource) stmt.not_resources)
    else if not (is_empty stmt.resources)
    then any (λ pattern. resource_matches pattern resource) stmt.resources
    else true

-- A list of exceptions, or a list of choices, or no restriction.
abbrev pub Selects : (Text → Type 0) → List Text → List Text → Type 0
Selects P (n ∷ ns) patterns = ¬ Any P (n ∷ ns)
Selects P [] (p ∷ ps) = Any P (p ∷ ps)
Selects P [] [] = Unit

selects_iff :
    (P : Text → Type 0) (matched : Text → Bool)
    → ((p : Text) → (matched p ≡ true) ↔ P p)
    → (not_patterns patterns : List Text)
    → (selects matched not_patterns patterns ≡ true) ↔ Selects P not_patterns patterns
selects_iff P matched e (n ∷ ns) patterns =
    let (forth, back) = any_iff P matched e (n ∷ ns) in
    ↔_trans (not_iff (any matched (n ∷ ns))) (λ h a. h (back a), λ h t. h (forth t))
selects_iff P matched e [] (p ∷ ps) = any_iff P matched e (p ∷ ps)
selects_iff P matched e [] [] = (λ h. tt, λ h. refl)

-- The statement is about the action on the resource.
abbrev pub Covers : PolicyStatement → Text → Text → Type 0
Covers stmt action resource =
    Selects (ActionMatch action) stmt.not_actions stmt.actions
    × Selects (ResourceMatch resource) stmt.not_resources stmt.resources

abbrev pub covers : PolicyStatement → Text → Text → Bool
covers stmt action resource =
    action_matches_result stmt action && resource_matches_result stmt resource

pub Covers-iff :
    (stmt : PolicyStatement) (action resource : Text)
    → (covers stmt action resource ≡ true) ↔ Covers stmt action resource
unfolding action_matches_result resource_matches_result
Covers-iff stmt action resource =
    let (fa, ba) =
      selects_iff (ActionMatch action) (λ p. action_matches p action)
        (λ p. action_matches_iff p action) stmt.not_actions stmt.actions in
    let (fr, br) =
      selects_iff (ResourceMatch resource) (λ p. resource_matches p resource)
        (λ p. resource_matches_iff p resource) stmt.not_resources stmt.resources in
    ↔_trans (&&_iff (action_matches_result stmt action) (resource_matches_result stmt resource))
      (λ h. (fa h.0, fr h.1), λ h. (ba h.0, br h.1))

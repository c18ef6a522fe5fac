-- ===== src/Iam/Boundary.antt =====
-- Permission boundaries: crates/activable-iam-engine/src/boundary_evaluator.rs.
use activable_cloud.Prelude.{Bool, true, false, not, List, [], ◌∷◌, Text, is_empty, if◌then◌else◌}
use activable_cloud.Iam.Types.{PolicyStatement, is_allow}
use activable_cloud.Iam.Statements.{action_matches_result, resource_matches_result}

pub data BoundaryResult : Type 0 where
  no_boundary allowed not_in_boundary : BoundaryResult

-- The loop over the statements; a `continue` is its next round.
unfoldable pub scan_allows : List PolicyStatement → Text → Text → Bool
scan_allows [] action resource = false
scan_allows (stmt ∷ statements) action resource =
    let next = scan_allows statements action resource in
    if not (is_allow stmt.effect)
    then next
    else if not (action_matches_result stmt action)
    then next
    else if resource_matches_result stmt resource
    then true
    else next

unfoldable pub boundary_allows : List PolicyStatement → Text → Text → Bool
boundary_allows boundary_statements action resource =
    if is_empty boundary_statements then true else scan_allows boundary_statements action resource

unfoldable pub evaluate_with_boundary : List PolicyStatement → Text → Text → BoundaryResult
evaluate_with_boundary boundary_statements action resource =
    if is_empty boundary_statements
    then no_boundary
    else if boundary_allows boundary_statements action resource
    then allowed
    else not_in_boundary

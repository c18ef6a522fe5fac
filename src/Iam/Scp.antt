-- ===== src/Iam/Scp.antt =====
-- Service control policies: crates/activable-iam-engine/src/scp_evaluator.rs.
use activable_cloud.Prelude.{Bool, true, false, not, List, [], ◌∷◌, Text, is_empty, if◌then◌else◌}
use activable_cloud.Iam.Types.{PolicyStatement, is_allow}
use activable_cloud.Iam.Statements.{action_matches_result, resource_matches_result}

unfoldable pub statement_slice_allows : List PolicyStatement → Text → Text → Bool
statement_slice_allows [] action resource = false
statement_slice_allows (stmt ∷ statements) action resource =
    let next = statement_slice_allows statements action resource in
    if not (is_allow stmt.effect)
    then next
    else if not (action_matches_result stmt action)
    then next
    else if resource_matches_result stmt resource
    then true
    else next

-- The loop over the levels, which returns at the first that does not allow.
unfoldable pub levels_allow : List (List PolicyStatement) → Text → Text → Bool
levels_allow [] action resource = true
levels_allow (level_statements ∷ chain) action resource =
    let next = levels_allow chain action resource in
    if not (statement_slice_allows level_statements action resource) then false else next

unfoldable pub scp_allows : List (List PolicyStatement) → Text → Text → Bool
scp_allows chain action resource =
    if is_empty chain then true else levels_allow chain action resource

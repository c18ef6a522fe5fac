-- ===== src/Iam/Session.antt =====
-- Session policies: crates/activable-iam-engine/src/session_policy.rs.
use activable_cloud.Prelude.{
  Bool, true, false, not, List, [], ◌∷◌, Option, none, some, Text, keep, if◌then◌else◌,
}
use activable_cloud.Iam.Types.{PolicyStatement, ParsedPolicy, EffectivePermission, is_allow}
use activable_cloud.Iam.Statements.{action_matches_result, resource_matches_result}

pub data SessionConstraintResult : Type 0 where
  allowed constrained unconstrained : SessionConstraintResult

-- The loop over the statements of the policy.
unfoldable pub session_scan : List PolicyStatement → Text → Text → SessionConstraintResult
session_scan [] action resource = constrained
session_scan (stmt ∷ statements) action resource =
    let next = session_scan statements action resource in
    if not (is_allow stmt.effect)
    then next
    else if not (action_matches_result stmt action)
    then next
    else if not (resource_matches_result stmt resource)
    then next
    else allowed

unfoldable pub session_allows : Option ParsedPolicy → Text → Text → SessionConstraintResult
session_allows none action resource = unconstrained
session_allows (some policy) action resource = session_scan policy.statements action resource

-- `matches!(result, SessionConstraintResult::Allowed)`.
abbrev pub is_allowed : SessionConstraintResult → Bool
is_allowed allowed = true
is_allowed constrained = false
is_allowed unconstrained = false

unfoldable pub effective_permissions_with_session :
    List EffectivePermission → Option ParsedPolicy → List EffectivePermission
effective_permissions_with_session base_permissions none = base_permissions
effective_permissions_with_session base_permissions (some policy) =
    keep (λ perm. is_allowed (session_allows (some policy) perm.action perm.resource))
      base_permissions

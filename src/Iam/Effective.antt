-- ===== src/Iam/Effective.antt =====
-- Effective permissions: crates/activable-iam-engine/src/effective_permissions.rs.
pub mod Laws
pub mod Order
pub mod WithSession
use activable_cloud.Prelude.{
  Bool, true, false, not, ◌&&◌, List, [], ◌∷◌, map, Option, none, some, Ordering, Text, codes,
  text_eq, is_empty, keep, flat_map, if◌then◌else◌,
}
use activable_cloud.Sorting.{compare_by, sort_by, dedup}
use activable_cloud.Iam.Types.{
  PolicyStatement, ParsedPolicy, EvalContext, EffectivePermission, is_allow,
}
use activable_cloud.Iam.Conditions.{Net}
use activable_cloud.Iam.Deny.{EvalResult, explicit_deny, no_explicit_deny, evaluate_deny}
use activable_cloud.Iam.Scp.{scp_allows}
use activable_cloud.Iam.Boundary.{boundary_allows}

-- The statements of all policies.
abbrev pub all_statements : List ParsedPolicy → List PolicyStatement
all_statements = flat_map (λ policy. policy.statements)

-- `deny_result == EvalResult::ExplicitDeny`.
abbrev pub is_explicit_deny : EvalResult → Bool
is_explicit_deny explicit_deny = true
is_explicit_deny no_explicit_deny = false

unfoldable pub actions_to_check : PolicyStatement → List Text
actions_to_check stmt =
    if not (is_empty stmt.actions)
    then stmt.actions
    else if not (is_empty stmt.not_actions)
    then codes "*" ∷ []
    else []

unfoldable pub resources_to_check : PolicyStatement → List Text
resources_to_check stmt =
    if not (is_empty stmt.resources)
    then stmt.resources
    else if not (is_empty stmt.not_resources)
    then codes "*" ∷ []
    else []

-- `a.action.cmp(&b.action).then_with(|| a.resource.cmp(&b.resource))`.
abbrev pub compare_permissions : EffectivePermission → EffectivePermission → Ordering
compare_permissions = compare_by (λ p. p.action) (λ p. p.resource)

abbrev pub same_permission : EffectivePermission → EffectivePermission → Bool
same_permission p q = text_eq p.action q.action && text_eq p.resource q.resource

-- `if let Some(boundary_policy) = boundary`.
abbrev pub within_boundary : Option ParsedPolicy → Text → Text → Bool
within_boundary none action resource = true
within_boundary (some boundary_policy) action resource =
    boundary_allows boundary_policy.statements action resource

module _ (net : Net) where
  -- Steps 2a to 2d for one pair: what is pushed.
  unfoldable pub check_pair :
      List ParsedPolicy
      → Option ParsedPolicy
      → List (List PolicyStatement)
      → Text
      → Text
      → List EffectivePermission
  check_pair identity_policies boundary scp_chain action resource =
      if is_explicit_deny (evaluate_deny net (all_statements identity_policies) action resource)
      then []
      else if not (scp_allows scp_chain action resource)
      then []
      else if not (within_boundary boundary action resource)
      then []
      else record { action = action; resource = resource } ∷ []

  -- The body of `for stmt in allow_stmts`.
  unfoldable pub check_statement :
      List ParsedPolicy
      → Option ParsedPolicy
      → List (List PolicyStatement)
      → PolicyStatement
      → List EffectivePermission
  check_statement identity_policies boundary scp_chain stmt =
      flat_map
        (λ action.
          flat_map (λ resource. check_pair identity_policies boundary scp_chain action resource)
            (resources_to_check stmt))
        (actions_to_check stmt)

  unfoldable pub effective_permissions :
      List ParsedPolicy
      → Option ParsedPolicy
      → List (List PolicyStatement)
      → EvalContext
      → List EffectivePermission
  effective_permissions identity_policies boundary scp_chain _context =
      let allow_stmts = keep (λ stmt. is_allow stmt.effect) (all_statements identity_policies) in
      let effective = flat_map (check_statement identity_policies boundary scp_chain) allow_stmts in
      dedup same_permission (sort_by compare_permissions effective)

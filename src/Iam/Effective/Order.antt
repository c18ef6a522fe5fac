-- ===== src/Iam/Effective/Order.antt =====
-- What the effective permissions (crates/activable-iam-engine/src/effective_permissions.rs) do not
-- depend on.
use activable_cloud.Prelude.{
  ◌≡◌, ◌↔◌, List, [], ◌∷◌, map, Option, Text, Any, All, keep, Any-keep, Any-iff, ↔_trans, ↔_sym,
}
use activable_cloud.Sorting.Strict.{In, Any-subset, Strict-unique}
use activable_cloud.Iam.Types.{
  PolicyStatement, ParsedPolicy, EvalContext, EffectivePermission, is_allow, is_allow_iff,
  default_context,
}
use activable_cloud.Iam.Conditions.{Net}
use activable_cloud.Iam.Deny.Laws.{Denies}
use activable_cloud.Iam.Grants.{Grants}
use activable_cloud.Iam.Effective.{all_statements, compare_permissions, effective_permissions}
use activable_cloud.Iam.Effective.Laws.{
  Requests, compare_permissions-IsOrder, effective_permissions_iff, effective_permissions-Strict,
}

-- The same statements, in whatever order, as often as one likes, and in whatever policies.
abbrev pub SameStatements : List ParsedPolicy → List ParsedPolicy → Type 0
SameStatements ps qs =
    (stmt : PolicyStatement) → In stmt (all_statements ps) ↔ In stmt (all_statements qs)

module _ (net : Net) where
  permissions_subset :
      (ps qs : List ParsedPolicy) (boundary : Option ParsedPolicy)
      (chain chain' : List (List PolicyStatement)) (context : EvalContext)
      → SameStatements ps qs
      → ((action resource : Text)
          → All (Any (Grants action resource)) chain
          → All (Any (Grants action resource)) chain')
      → (perm : EffectivePermission) → In perm (effective_permissions net ps boundary chain context)
      → In perm (effective_permissions net qs boundary chain' context)
  permissions_subset ps qs boundary chain chain' context same f perm i =
      let (asked, (passed, scp, bound)) =
        (effective_permissions_iff net ps boundary chain context perm).0 i in
      (effective_permissions_iff net qs boundary chain' context perm).1 (
        Any-subset (Requests perm) (all_statements ps) (all_statements qs) (λ s. (same s).0) asked,
        (
          λ d. passed (
              Any-subset (Denies net perm.action perm.resource default_context) (all_statements qs)
                (all_statements ps) (λ s. (same s).1) d),
          f perm.action perm.resource scp,
          bound,
        ),
      )

  -- The order of policies and of statements, repeats, and how the statements are spread over the
  -- policies do not change the list that is returned.
  pub effective_permissions_same :
      (ps qs : List ParsedPolicy) (boundary : Option ParsedPolicy)
      (chain : List (List PolicyStatement)) (context : EvalContext)
      → SameStatements ps qs
      → effective_permissions net ps boundary chain context
        ≡ effective_permissions net qs boundary chain context
  effective_permissions_same ps qs boundary chain context same =
      Strict-unique compare_permissions compare_permissions-IsOrder _ _
        (effective_permissions-Strict net ps boundary chain context)
        (effective_permissions-Strict net qs boundary chain context)
        (permissions_subset ps qs boundary chain chain context same (λ a r h. h))
        (permissions_subset qs ps boundary chain chain context (λ s. ↔_sym (same s)) (λ a r h. h))

  -- The Deny statements of a level taken out.
  abbrev pub without_denies : List PolicyStatement → List PolicyStatement
  without_denies = keep (λ stmt. is_allow stmt.effect)

  without_denies_iff :
      (action resource : Text) (level : List PolicyStatement)
      → Any (Grants action resource) (without_denies level) ↔ Any (Grants action resource) level
  without_denies_iff action resource level =
      ↔_trans (Any-keep (Grants action resource) (λ stmt. is_allow stmt.effect) level) (
        Any-iff _ (Grants action resource) level
          (λ stmt. (λ h. h.1, λ h. ((is_allow_iff stmt.effect).1 h.0, h))))

  chain_forth :
      (action resource : Text) (chain : List (List PolicyStatement))
      → All (Any (Grants action resource)) chain
      → All (Any (Grants action resource)) (map without_denies chain)
  chain_forth action resource [] h = tt
  chain_forth action resource (level ∷ chain) h =
      ((without_denies_iff action resource level).1 h.0, chain_forth action resource chain h.1)

  chain_back :
      (action resource : Text) (chain : List (List PolicyStatement))
      → All (Any (Grants action resource)) (map without_denies chain)
      → All (Any (Grants action resource)) chain
  chain_back action resource [] h = tt
  chain_back action resource (level ∷ chain) h =
      ((without_denies_iff action resource level).0 h.0, chain_back action resource chain h.1)

  -- The Deny statements of the service control policies have no effect: with all of them taken out
  -- the same permissions are returned.
  pub effective_permissions_scp_denies :
      (ps : List ParsedPolicy) (boundary : Option ParsedPolicy)
      (chain : List (List PolicyStatement)) (context : EvalContext)
      → effective_permissions net ps boundary (map without_denies chain) context
        ≡ effective_permissions net ps boundary chain context
  effective_permissions_scp_denies ps boundary chain context =
      let same = λ (s : PolicyStatement).
        let e : In s (all_statements ps) ↔ In s (all_statements ps) = (λ h. h, λ h. h) in e in
      Strict-unique compare_permissions compare_permissions-IsOrder _ _
        (effective_permissions-Strict net ps boundary (map without_denies chain) context)
        (effective_permissions-Strict net ps boundary chain context)
        (permissions_subset ps ps boundary (map without_denies chain) chain context same
          (λ a r. chain_back a r chain))
        (permissions_subset ps ps boundary chain (map without_denies chain) context same
          (λ a r. chain_forth a r chain))

-- ===== src/Iam/Effective/Laws.antt =====
-- What the effective permissions are (crates/activable-iam-engine/src/effective_permissions.rs).
use mathlib.Core.Path.{subst}
use activable_cloud.Prelude.{
  ◌≡◌, refl, sym, ap, ◌↔◌, ◌⊎◌, inl, inr, true, List, [], Option, none, some, arith, Text, text_eq,
  text_eq_iff, Any, All, Any-flat_map, Any-keep, Any-iff, Any-×, Bool-cases, ↔_trans, &&_iff,
}
use activable_cloud.Sorting.{compare_by-IsOrder, IsOrder}
use activable_cloud.Sorting.Strict.{In, Strict, canonical-Strict, canonical-In}
use activable_cloud.Iam.Types.{
  PolicyStatement, ParsedPolicy, EvalContext, EffectivePermission, allow, is_allow, is_allow_iff,
  default_context,
}
use activable_cloud.Iam.Conditions.{Net}
use activable_cloud.Iam.Deny.{EvalResult, explicit_deny, evaluate_deny}
use activable_cloud.Iam.Deny.Laws.{Denies, evaluate_deny_with_context_iff}
use activable_cloud.Iam.Grants.{Grants, scp_allows_iff, boundary_allows_iff}
use activable_cloud.Iam.Scp.{scp_allows}
use activable_cloud.Iam.Effective.{
  all_statements, is_explicit_deny, actions_to_check, resources_to_check, compare_permissions,
  same_permission, within_boundary, check_pair, check_statement, effective_permissions,
}

permission_ext : (p q : EffectivePermission) → p.action ≡ q.action → p.resource ≡ q.resource → p ≡ q
permission_ext p q e f = λ i. record { action = e i; resource = f i }

pub compare_permissions-IsOrder : IsOrder compare_permissions
compare_permissions-IsOrder =
    compare_by-IsOrder (λ (p : EffectivePermission). p.action) (λ p. p.resource) permission_ext

pub same_permission_iff : (p q : EffectivePermission) → (same_permission p q ≡ true) ↔ (p ≡ q)
same_permission_iff p q =
    let (fa, ba) = text_eq_iff p.action q.action in
    let (fr, br) = text_eq_iff p.resource q.resource in
    ↔_trans (&&_iff (text_eq p.action q.action) (text_eq p.resource q.resource)) (
      λ h. permission_ext p q (fa h.0) (fr h.1),
      λ e. (
        ba (ap (λ (x : EffectivePermission). x.action) e),
        br (ap (λ (x : EffectivePermission). x.resource) e),
      ),
    )

-- No boundary, an empty one, or one with an Allow statement about the request.
abbrev pub WithinBoundary : Option ParsedPolicy → Text → Text → Type 0
WithinBoundary none action resource = Unit
WithinBoundary (some b) action resource =
    (b.statements ≡ []) ⊎ Any (Grants action resource) b.statements

within_boundary_iff :
    (boundary : Option ParsedPolicy) (action resource : Text)
    → (within_boundary boundary action resource ≡ true) ↔ WithinBoundary boundary action resource
within_boundary_iff none action resource = (λ h. tt, λ h. refl)
within_boundary_iff (some b) action resource = boundary_allows_iff action resource b.statements

-- An Allow statement asks for the pair.
abbrev pub Requests : EffectivePermission → PolicyStatement → Type 0
Requests perm stmt =
    (stmt.effect ≡ allow)
    × In perm.action (actions_to_check stmt)
    × In perm.resource (resources_to_check stmt)

explicit_deny_iff : (r : EvalResult) → (is_explicit_deny r ≡ true) ↔ (r ≡ explicit_deny)
explicit_deny_iff r = ground arith

module _ (net : Net) (identity_policies : List ParsedPolicy) (boundary : Option ParsedPolicy)
    (scp_chain : List (List PolicyStatement)) where
  -- No statement of the identity policies denies the pair in the default context, every level of the
  -- chain allows it, and the boundary does.
  abbrev pub Permitted : Text → Text → Type 0
  Permitted action resource =
      (¬ Any (Denies net action resource default_context) (all_statements identity_policies))
      × All (Any (Grants action resource)) scp_chain
      × WithinBoundary boundary action resource

  denied_iff :
      (action resource : Text)
      → (is_explicit_deny (evaluate_deny net (all_statements identity_policies) action resource)
          ≡ true)
        ↔ Any (Denies net action resource default_context) (all_statements identity_policies)
  unfolding evaluate_deny
  denied_iff action resource = ↔_trans (explicit_deny_iff _) (
      evaluate_deny_with_context_iff net (all_statements identity_policies) action resource
        default_context)

  check_pair-In :
      (perm : EffectivePermission) (action resource : Text)
      → In perm (check_pair net identity_policies boundary scp_chain action resource)
        ↔ ((perm ≡ record { action = action; resource = resource }) × Permitted action resource)
  unfolding check_pair
  check_pair-In perm action resource =
      let (fd, bd) = denied_iff action resource in
      let (fs, bs) = scp_allows_iff action resource scp_chain in
      let (fb, bb) = within_boundary_iff boundary action resource in
      elim (Bool-cases
        (is_explicit_deny (evaluate_deny net (all_statements identity_policies) action resource))) [
          | inl d ↦ rw d (λ h. absurd h, λ h. h.1.0 (fd d))
          | inr n ↦ elim (Bool-cases (scp_allows scp_chain action resource)) [
            | inr s ↦ rw (n, s) (λ h. absurd h, λ h. cc (bs h.1.1))
            | inl s ↦ elim (Bool-cases (within_boundary boundary action resource)) [
              | inr b ↦ rw (n, s, b) (λ h. absurd h, λ h. cc (bb h.1.2))
              | inl b ↦
                  rw (n, s, b)
                    (
                      elim [ inl e ↦ (e, (λ a. cc (bd a), fs s, fb b)) | inr h ↦ absurd h ],
                      λ h. inl h.0,
                    )
            ]
          ]
        ]

  -- A pair that is pushed for one action and one resource.
  abbrev Pushed : EffectivePermission → Text → Text → Type 0
  Pushed perm action resource =
      (perm ≡ record { action = action; resource = resource }) × Permitted action resource

  Pushed-iff :
      (perm : EffectivePermission) (action resource : Text)
      → Pushed perm action resource ↔ (
          (perm.resource ≡ resource)
          × ((perm.action ≡ action) × Permitted perm.action perm.resource))
  Pushed-iff perm action resource = (
    λ (e, h). (
      ap (λ (x : EffectivePermission). x.resource) e,
      (
        ap (λ (x : EffectivePermission). x.action) e,
        subst (λ (x : EffectivePermission). Permitted x.action x.resource) (sym e) h,
      ),
    ),
    λ (er, (ea, h)).
        let e : perm ≡ record { action = action; resource = resource } =
          permission_ext perm (record { action = action; resource = resource }) ea er in
        (e, subst (λ (x : EffectivePermission). Permitted x.action x.resource) e h),
  )

  check_statement-In :
      (perm : EffectivePermission) (stmt : PolicyStatement)
      → In perm (check_statement net identity_policies boundary scp_chain stmt) ↔ (
          In perm.action (actions_to_check stmt)
          × (In perm.resource (resources_to_check stmt) × Permitted perm.action perm.resource))
  unfolding check_statement
  check_statement-In perm stmt =
      let P = Permitted perm.action perm.resource in
      ↔_trans (Any-flat_map (λ q. perm ≡ q) _ (actions_to_check stmt)) (
        ↔_trans
          (Any-iff _ (λ a. (perm.action ≡ a) × (In perm.resource (resources_to_check stmt) × P))
            (actions_to_check stmt)
            (λ a. ↔_trans (Any-flat_map (λ q. perm ≡ q) _ (resources_to_check stmt)) (
              ↔_trans
                (Any-iff _ (λ r. (perm.resource ≡ r) × ((perm.action ≡ a) × P))
                  (resources_to_check stmt)
                  (λ r. ↔_trans (check_pair-In perm a r) (Pushed-iff perm a r)))
                (↔_trans
                  (Any-× (λ r. perm.resource ≡ r) ((perm.action ≡ a) × P) (resources_to_check stmt))
                  (λ h. (h.1.0, (h.0, h.1.1)), λ h. (h.1.0, (h.0, h.1.1)))))))
          (Any-× (λ a. perm.action ≡ a) (In perm.resource (resources_to_check stmt) × P)
            (actions_to_check stmt)))

  -- The effective permissions are exactly the pairs that some Allow statement of the identity
  -- policies asks for and that pass all checks: no Deny statement denies them in the default context,
  -- every level of the chain allows them, and so does the boundary, if there is one.
  pub effective_permissions_iff :
      (context : EvalContext) (perm : EffectivePermission)
      → In perm (effective_permissions net identity_policies boundary scp_chain context) ↔ (
          Any (Requests perm) (all_statements identity_policies)
          × Permitted perm.action perm.resource)
  unfolding effective_permissions
  effective_permissions_iff context perm =
      let P = Permitted perm.action perm.resource in
      ↔_trans
        (canonical-In compare_permissions compare_permissions-IsOrder same_permission
          same_permission_iff perm _)
        (↔_trans (Any-flat_map (λ q. perm ≡ q) _ _) (
          ↔_trans (Any-keep _ (λ stmt. is_allow stmt.effect) (all_statements identity_policies)) (
            ↔_trans
              (Any-iff _ (λ stmt. Requests perm stmt × P) (all_statements identity_policies)
                (λ stmt.
                  let (fa, ba) = is_allow_iff stmt.effect in
                  let (fc, bc) = check_statement-In perm stmt in
                  (
                    λ (a, i). let (x, (y, z)) = fc i in ((fa a, x, y), z),
                    λ (r, z). (ba r.0, bc (r.1, (r.2, z))),
                  )))
              (Any-× (Requests perm) P (all_statements identity_policies)))))

  -- They come in strictly ascending order of action and resource, so none comes twice.
  pub effective_permissions-Strict :
      (context : EvalContext)
      → Strict compare_permissions
          (effective_permissions net identity_policies boundary scp_chain context)
  unfolding effective_permissions
  effective_permissions-Strict context =
      canonical-Strict compare_permissions compare_permissions-IsOrder same_permission
        same_permission_iff _

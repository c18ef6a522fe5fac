-- ===== src/Iam/Effective/WithSession.antt =====
-- What a session policy leaves of the permissions (crates/activable-iam-engine/src/session_policy.rs).
use mathlib.Core.Path.{subst}
use activable_cloud.Prelude.{
  ◌≡◌, refl, sym, ◌↔◌, Bool, true, List, Option, none, some, arith, Text, Any, any, Any-keep,
  Any-iff, Any-×, ↔_trans, if◌then◌else◌,
}
use activable_cloud.Sorting.Strict.{In}
use activable_cloud.Iam.Types.{ParsedPolicy, EffectivePermission}
use activable_cloud.Iam.Grants.{Grants, grants, session-any, any-grants_iff}
use activable_cloud.Iam.Session.{
  SessionConstraintResult, allowed, constrained, unconstrained, session_allows, is_allowed,
  effective_permissions_with_session,
}

-- What a session policy has to say of a request: nothing if there is none, else that one of its
-- Allow statements is about it.
abbrev pub SessionGrants : Option ParsedPolicy → Text → Text → Type 0
SessionGrants none action resource = Unit
SessionGrants (some policy) action resource = Any (Grants action resource) policy.statements

scan_result : (b : Bool) → ((if b then allowed else constrained) ≡ allowed) ↔ (b ≡ true)
scan_result b = ground arith

not_unconstrained : (b : Bool) → ¬ ((if b then allowed else constrained) ≡ unconstrained)
not_unconstrained b e = ground arith

-- The result is unconstrained exactly without a policy, and allowed exactly if an Allow statement of
-- the policy is about the request.
pub session_allows_iff :
    (session_policy : Option ParsedPolicy) (action resource : Text)
    → ((session_allows session_policy action resource ≡ unconstrained) ↔ (session_policy ≡ none))
      × ((session_allows session_policy action resource ≡ allowed) ↔ (
          (policy : ParsedPolicy) × (session_policy ≡ some policy)
          × Any (Grants action resource) policy.statements))
unfolding session_allows
session_allows_iff none action resource = ((λ e. refl, λ e. refl), (λ e. cc, λ (p, e, a). cc e))
session_allows_iff (some policy) action resource =
    let (forth, back) = any-grants_iff action resource policy.statements in
    let (ra, rb) = scan_result (any (grants action resource) policy.statements) in
    rw (session-any action resource policy.statements) (
      (λ e. absurd (not_unconstrained _ e), λ e. cc e),
      (
        λ e. (policy, refl, forth (ra e)),
        λ (p, e, a).
            let same : policy ≡ p = cc e in
            rb (
              back (
                subst (λ (x : ParsedPolicy). Any (Grants action resource) x.statements) (sym same)
                  a)),
      ),
    )

abbrev Asked : ParsedPolicy → EffectivePermission → Type 0
Asked policy perm = Any (Grants perm.action perm.resource) policy.statements

is_allowed_iff : (r : SessionConstraintResult) → (is_allowed r ≡ true) ↔ (r ≡ allowed)
is_allowed_iff r = ground arith

allowed_iff :
    (policy : ParsedPolicy) (action resource : Text)
    → (is_allowed (session_allows (some policy) action resource) ≡ true)
      ↔ Any (Grants action resource) policy.statements
unfolding session_allows
allowed_iff policy action resource = ↔_trans (is_allowed_iff _) (
    rw (session-any action resource policy.statements) (
      ↔_trans (scan_result (any (grants action resource) policy.statements))
        (any-grants_iff action resource policy.statements)))

kept_iff :
    (policy : ParsedPolicy) (perm q : EffectivePermission)
    → ((is_allowed (session_allows (some policy) q.action q.resource) ≡ true) × (perm ≡ q))
      ↔ ((perm ≡ q) × Any (Grants perm.action perm.resource) policy.statements)
kept_iff policy perm q =
    let (forth, back) = allowed_iff policy q.action q.resource in
    (
      λ (h, e). (e, subst (Asked policy) (sym e) (forth h)),
      λ (e, h). (back (subst (Asked policy) e h), e),
    )

-- With a session policy exactly those of the base permissions are left about which some Allow
-- statement of the policy is; without one, all of them.
pub effective_permissions_with_session_iff :
    (base : List EffectivePermission) (session_policy : Option ParsedPolicy)
    (perm : EffectivePermission)
    → In perm (effective_permissions_with_session base session_policy)
      ↔ (In perm base × SessionGrants session_policy perm.action perm.resource)
unfolding effective_permissions_with_session
effective_permissions_with_session_iff base none perm = (λ h. (h, tt), λ h. h.0)
effective_permissions_with_session_iff base (some policy) perm =
    ↔_trans (Any-keep (λ q. perm ≡ q) _ base) (
      ↔_trans
        (Any-iff _ (λ q. (perm ≡ q) × SessionGrants (some policy) perm.action perm.resource) base
          (λ q. kept_iff policy perm q))
        (Any-× (λ q. perm ≡ q) (SessionGrants (some policy) perm.action perm.resource) base))

-- ===== src/Iam/Drift/Laws.antt =====
-- What the comparison of two policy versions tells
-- (crates/activable-iam-engine/src/policy_drift.rs).
use activable_cloud.Prelude.{
  ◌≡◌, subst, refl, sym, ◌↔◌, ◌⊎◌, inl, inr, ↔_trans, Bool, true, not, ◌&&◌, List, [], ◌∷◌, map,
  arith, Text, text_eq, text_eq_iff, is_empty, any, any_iff, not_iff, keep, flat_map, if◌then◌else◌,
  Bool-cases, Any, Any-flat_map, Any-map, Any-keep, Any-iff, Any-×,
}
use activable_cloud.Sorting.{sort_by, dedup, text_compare, text_compare-IsOrder}
use activable_cloud.Sorting.Strict.{In, canonical-In}
use activable_cloud.Iam.Types.{
  PolicyStatement, ParsedPolicy, EffectivePermission, allow, is_allow, is_allow_iff,
}
use activable_cloud.Iam.Effective.{compare_permissions, same_permission}
use activable_cloud.Iam.Effective.Laws.{compare_permissions-IsOrder, same_permission_iff}
use activable_cloud.Iam.Drift.{
  text_set, none, statement_pairs, from_policy, difference, severity_of, diff_policies,
}

-- An Allow statement lists the action and the resource.
abbrev pub Lists : EffectivePermission → PolicyStatement → Type 0
Lists p stmt =
    (stmt.effect ≡ allow)
    × Any (λ a. Any (λ r. p ≡ record { action = a; resource = r }) stmt.resources) stmt.actions

-- A pair that an Allow statement of the policy lists.
abbrev pub Has : ParsedPolicy → EffectivePermission → Type 0
Has policy p = Any (Lists p) policy.statements

-- Every action with every resource; an empty list of either has no pairs.
abbrev pairs_of : List Text → List Text → List EffectivePermission
pairs_of acts rs = flat_map (λ a. map (λ r. record { action = a; resource = r }) rs) acts

no_resources : (acts : List Text) → pairs_of acts [] ≡ []
no_resources [] = refl
no_resources (a ∷ acts) = no_resources acts

guard_pairs :
    (acts rs : List Text)
    → (if not (is_empty acts) && not (is_empty rs) then pairs_of acts rs else []) ≡ pairs_of acts rs
guard_pairs [] rs = refl
guard_pairs (a ∷ acts) [] = sym (no_resources (a ∷ acts))
guard_pairs (a ∷ acts) (r ∷ rs) = refl

pairs_of-In :
    (p : EffectivePermission) (acts rs : List Text)
    → In p (pairs_of acts rs)
      ↔ Any (λ a. Any (λ r. p ≡ record { action = a; resource = r }) rs) acts
pairs_of-In p acts rs =
    ↔_trans (Any-flat_map (λ q. p ≡ q) _ acts)
      (Any-iff _ _ acts (λ a. Any-map (λ q. p ≡ q) (λ r. record { action = a; resource = r }) rs))

statement_pairs-In :
    (p : EffectivePermission) (stmt : PolicyStatement) → In p (statement_pairs stmt) ↔ Lists p stmt
unfolding statement_pairs
statement_pairs-In p stmt =
    let (forth, back) = pairs_of-In p stmt.actions stmt.resources in
    let (fa, ba) = is_allow_iff stmt.effect in
    elim (Bool-cases (is_allow stmt.effect)) [
      | inl e ↦
          rw (statement_pairs, e)
            (rw (guard_pairs stmt.actions stmt.resources) (λ h. (fa e, forth h), λ h. back h.1))
      | inr n ↦ rw (statement_pairs, n) (λ h. absurd h, λ h. let yes = ba h.0 in cc)
    ]

pub from_policy-In :
    (p : EffectivePermission) (policy : ParsedPolicy) → In p (from_policy policy) ↔ Has policy p
unfolding from_policy
from_policy-In p policy =
    ↔_trans
      (canonical-In compare_permissions compare_permissions-IsOrder same_permission
        same_permission_iff p _)
      (↔_trans (Any-flat_map (λ q. p ≡ q) statement_pairs policy.statements)
        (Any-iff _ _ policy.statements (statement_pairs-In p)))

keep-In :
    (f : EffectivePermission → Bool) (p : EffectivePermission) (ps : List EffectivePermission)
    → In p (keep f ps) ↔ (In p ps × (f p ≡ true))
keep-In f p ps = ↔_trans (Any-keep (λ q. p ≡ q) f ps) (
    ↔_trans
      (Any-iff _ (λ q. (p ≡ q) × (f p ≡ true)) ps
        (λ q. (
          λ (h, e). (e, subst (λ x. f x ≡ true) (sym e) h),
          λ (e, h). (subst (λ x. f x ≡ true) e h, e),
        )))
      (Any-× (λ q. p ≡ q) (f p ≡ true) ps))

any_same_iff :
    (p : EffectivePermission) (ps : List EffectivePermission)
    → (any (same_permission p) ps ≡ true) ↔ In p ps
any_same_iff p ps = any_iff (λ q. p ≡ q) (same_permission p) (same_permission_iff p) ps

Has-cases : (policy : ParsedPolicy) (p : EffectivePermission) → Has policy p ⊎ ¬ Has policy p
Has-cases policy p =
    let (forth, back) = any_same_iff p (from_policy policy) in
    let (inward, outward) = from_policy-In p policy in
    elim (Bool-cases (any (same_permission p) (from_policy policy))) [
      | inl e ↦ inl (inward (forth e))
      | inr n ↦ inr (λ h. let yes = back (outward h) in cc)
    ]

pub difference-In :
    (p : EffectivePermission) (from to : ParsedPolicy)
    → In p (difference (from_policy to) (from_policy from)) ↔ (Has to p × ¬ Has from p)
unfolding difference
difference-In p from to =
    let (forth, back) = any_same_iff p (from_policy from) in
    let (inward, outward) = from_policy-In p from in
    let (into, out) = from_policy-In p to in
    let (fn, bn) = not_iff (any (same_permission p) (from_policy from)) in
    ↔_trans (keep-In (λ q. not (any (same_permission q) (from_policy from))) p (from_policy to)) (
      λ h. (into h.0, λ g. fn h.1 (back (outward g))),
      λ h. (out h.0, bn (λ e. h.1 (inward (forth e)))),
    )

no_members : (ps : List EffectivePermission) → ((p : EffectivePermission) → ¬ In p ps) → ps ≡ []
no_members [] h = refl
no_members (p ∷ ps) h = absurd (h p (inl refl))

severity_none :
    (acts : List Text) (added removed : List EffectivePermission)
    → severity_of acts added removed ≡ none
    → (added ≡ []) × (removed ≡ [])
unfolding severity_of
severity_none acts added removed h = ground arith

no_change : severity_of (text_set []) [] [] ≡ none
unfolding severity_of sort_by dedup
no_change = refl

-- The severity is none exactly if the Allow statements of the two policies list the same pairs of
-- action and resource.
pub diff_policies_none_iff :
    (from to : ParsedPolicy) (policy_arn from_version to_version : Text)
    → ((diff_policies from to policy_arn from_version to_version).severity ≡ none)
      ↔ ((p : EffectivePermission) → Has from p ↔ Has to p)
unfolding diff_policies
diff_policies_none_iff from to policy_arn from_version to_version = (forth, back)
  where
    within :
        (a b : ParsedPolicy)
        → difference (from_policy b) (from_policy a) ≡ []
        → (p : EffectivePermission) → Has b p
        → Has a p
    within a b e p h = elim (Has-cases a p) [
      | inl g ↦ g
      | inr n ↦ absurd (subst (In p) e ((difference-In p a b).1 (h, n)))
    ]

    forth :
        (diff_policies from to policy_arn from_version to_version).severity ≡ none
        → (p : EffectivePermission) → Has from p ↔ Has to p
    forth h p =
        let (added, removed) = severity_none _ _ _ h in
        (within to from removed p, within from to added p)

    same :
        (a b : ParsedPolicy)
        → ((p : EffectivePermission) → Has b p → Has a p)
        → difference (from_policy b) (from_policy a) ≡ []
    same a b f = no_members _ (λ p i. let (h, n) = (difference-In p a b).0 i in n (f p h))

    back :
        ((p : EffectivePermission) → Has from p ↔ Has to p)
        → (diff_policies from to policy_arn from_version to_version).severity ≡ none
    back f = rw (same from to (λ p. (f p).1), same to from (λ p. (f p).0)) no_change

Any-pick :
    (P : EffectivePermission → Type 0) (ps : List EffectivePermission)
    → Any P ps
    → (p : EffectivePermission) × In p ps × P p
Any-pick P [] h = absurd h
Any-pick P (p ∷ ps) (inl h) = (p, inl refl, h)
Any-pick P (p ∷ ps) (inr h) = let (q, i, g) = Any-pick P ps h in (q, inr i, g)

In-Any :
    (P : EffectivePermission → Type 0) (ps : List EffectivePermission) (p : EffectivePermission)
    → In p ps
    → P p
    → Any P ps
In-Any P [] p i h = absurd i
In-Any P (q ∷ ps) p (inl e) h = inl (subst P e h)
In-Any P (q ∷ ps) p (inr i) h = inr (In-Any P ps p i h)

-- The added actions are exactly those of the pairs that the new policy lists and the old one does not.
pub diff_policies_added_iff :
    (from to : ParsedPolicy) (policy_arn from_version to_version action : Text)
    → Any (λ a. action ≡ a) (diff_policies from to policy_arn from_version to_version).actions_added
      ↔ ((p : EffectivePermission) × (action ≡ p.action) × Has to p × ¬ Has from p)
unfolding diff_policies
diff_policies_added_iff from to policy_arn from_version to_version action =
    ↔_trans (canonical-In text_compare text_compare-IsOrder text_eq text_eq_iff action _) (
      ↔_trans (Any-map (λ a. action ≡ a) (λ (p : EffectivePermission). p.action) added)
        (forth, back))
  where
    added : List EffectivePermission
    added = difference (from_policy to) (from_policy from)

    forth :
        Any (λ p. action ≡ p.action) added
        → (p : EffectivePermission) × (action ≡ p.action) × Has to p × ¬ Has from p
    forth h =
        let (p, i, e) = Any-pick _ added h in
        let (t, n) = (difference-In p from to).0 i in (p, e, t, n)

    back :
        ((p : EffectivePermission) × (action ≡ p.action) × Has to p × ¬ Has from p)
        → Any (λ p. action ≡ p.action) added
    back (p, e, t, n) = In-Any _ added p ((difference-In p from to).1 (t, n)) e

-- ===== src/Iam/ResourcePolicy/Decision.antt =====
-- What `evaluate_resource_policy_pair` decides
-- (crates/activable-iam-engine/src/resource_policy_evaluator.rs).
use activable_cloud.Prelude.{
  ◌≡◌, refl, ◌≢◌, ◌↔◌, ◌⊎◌, inl, inr, Bool, true, false, not, ◌&&◌, ◌||◌, List, [], ◌∷◌, Option,
  none, some, arith, Text, text_eq, text_eq_iff, is_empty, any, any_iff, Any, Any-flat_map, &&_iff,
  not_iff, ↔_trans, ↔_sym, if◌then◌else◌,
}
use activable_cloud.Iam.Types.{
  Effect, PolicyStatement, ParsedPolicy, is_allow, is_allow_iff, is_deny, is_deny_iff,
}
use activable_cloud.Iam.Types
use activable_cloud.Iam.Matchers.{ActionMatch, action_matches, action_matches_iff}
use activable_cloud.Iam.Effective.{all_statements}
use activable_cloud.Iam.ResourcePolicy.{
  ResourcePolicyDecision, allow, deny, implicit_deny, matches_pattern, resource_matches,
  stmt_matches_action_and_resource, has_deny_statement, has_deny_statement_for_principal,
  has_allow_statement, has_allow_statement_for_principal, resource_denies, resource_allows,
  evaluate_resource_policy_pair,
}

-- A list of choices comes before a list of exceptions; `E` is for neither.
abbrev Chooses : (Text → Type 0) → Type 0 → List Text → List Text → Type 0
Chooses P E (p ∷ ps) not_patterns = Any P (p ∷ ps)
Chooses P E [] (n ∷ ns) = ¬ Any P (n ∷ ns)
Chooses P E [] [] = E

abbrev chooses : (Text → Bool) → Bool → List Text → List Text → Bool
chooses m e patterns not_patterns =
    if not (is_empty patterns)
    then any m patterns
    else if not (is_empty not_patterns)
    then not (any m not_patterns)
    else e

chooses_iff :
    (P : Text → Type 0) (E : Type 0) (m : Text → Bool) (e : Bool)
    → ((p : Text) → (m p ≡ true) ↔ P p)
    → (e ≡ true) ↔ E
    → (ps ns : List Text) → (chooses m e ps ns ≡ true) ↔ Chooses P E ps ns
chooses_iff P E m e f g (p ∷ ps) ns = any_iff P m f (p ∷ ps)
chooses_iff P E m e f g [] (n ∷ ns) =
    let (forth, back) = any_iff P m f (n ∷ ns) in
    ↔_trans (not_iff (any m (n ∷ ns))) (λ h a. h (back a), λ h t. h (forth t))
chooses_iff P E m e f g [] [] = g

-- The statement is about the action on the resource: a statement without actions is about none, one
-- without resources about all.
abbrev pub About : Text → Text → PolicyStatement → Type 0
About action resource stmt =
    Chooses (ActionMatch action) ⊥ stmt.actions stmt.not_actions
    × Chooses (λ r. matches_pattern r resource ≡ true) Unit stmt.resources stmt.not_resources

-- Some statement of that effect is about the request.
abbrev pub Says : Effect → Text → Text → List PolicyStatement → Type 0
Says effect action resource = Any (λ stmt. (stmt.effect ≡ effect) × About action resource stmt)

abbrev pub ResourceSays : Effect → Text → Text → Option ParsedPolicy → Type 0
ResourceSays effect action resource none = ⊥
ResourceSays effect action resource (some p) = Says effect action resource p.statements

module _ (action resource : Text) where
  About-iff :
      (stmt : PolicyStatement)
      → (stmt_matches_action_and_resource stmt action resource ≡ true) ↔ About action resource stmt
  unfolding stmt_matches_action_and_resource resource_matches
  About-iff stmt =
      let (fa, ba) =
        chooses_iff (ActionMatch action) ⊥ (λ a. action_matches a action) false
          (λ a. action_matches_iff a action) (λ h. cc, λ h. absurd h) stmt.actions
          stmt.not_actions in
      let (fr, br) =
        chooses_iff (λ r. matches_pattern r resource ≡ true) Unit (λ r. matches_pattern r resource)
          true (λ r. (λ h. h, λ h. h)) (λ h. tt, λ h. refl) stmt.resources stmt.not_resources in
      ↔_trans (&&_iff _ _) (λ h. (fa h.0, fr h.1), λ h. (ba h.0, br h.1))

  -- One loop over the statements of a policy, for a test of the effect.
  Says-iff :
      (effect : Effect) (test : Effect → Bool)
      → ((e : Effect) → (test e ≡ true) ↔ (e ≡ effect))
      → (stmts : List PolicyStatement)
      → (any
            (λ stmt. test stmt.effect && stmt_matches_action_and_resource stmt action resource)
            stmts
          ≡ true)
        ↔ Says effect action resource stmts
  Says-iff effect test e = any_iff _ _ (λ stmt.
      let (fe, be) = e stmt.effect in
      let (fm, bm) = About-iff stmt in
      ↔_trans (&&_iff (test stmt.effect) (stmt_matches_action_and_resource stmt action resource))
        (λ h. (fe h.0, fm h.1), λ h. (be h.0, bm h.1)))

  policies_say_iff :
      (effect : Effect) (test : Effect → Bool)
      → ((e : Effect) → (test e ≡ true) ↔ (e ≡ effect))
      → (policies : List ParsedPolicy)
      → (any
            (λ policy.
              any
                (λ stmt. test stmt.effect && stmt_matches_action_and_resource stmt action resource)
                policy.statements)
            policies
          ≡ true)
        ↔ Says effect action resource (all_statements policies)
  policies_say_iff effect test e policies =
      ↔_trans
        (any_iff (λ (policy : ParsedPolicy). Says effect action resource policy.statements) _
          (λ policy. Says-iff effect test e policy.statements) policies)
        (↔_sym (Any-flat_map _ (λ (policy : ParsedPolicy). policy.statements) policies))

  identity_denies_iff :
      (policies : List ParsedPolicy)
      → (has_deny_statement policies action resource ≡ true)
        ↔ Says Types.deny action resource (all_statements policies)
  unfolding has_deny_statement
  identity_denies_iff = policies_say_iff Types.deny is_deny is_deny_iff

  identity_allows_iff :
      (policies : List ParsedPolicy)
      → (has_allow_statement policies action resource ≡ true)
        ↔ Says Types.allow action resource (all_statements policies)
  unfolding has_allow_statement
  identity_allows_iff = policies_say_iff Types.allow is_allow is_allow_iff

  resource_denies_iff :
      (policy : Option ParsedPolicy) (principal : Text)
      → (resource_denies policy action resource principal ≡ true)
        ↔ ResourceSays Types.deny action resource policy
  unfolding has_deny_statement_for_principal
  resource_denies_iff none principal = (λ h. cc, λ h. absurd h)
  resource_denies_iff (some p) principal = Says-iff Types.deny is_deny is_deny_iff p.statements

  resource_allows_iff :
      (policy : Option ParsedPolicy) (principal : Text)
      → (resource_allows policy action resource principal ≡ true)
        ↔ ResourceSays Types.allow action resource policy
  unfolding has_allow_statement_for_principal
  resource_allows_iff none principal = (λ h. cc, λ h. absurd h)
  resource_allows_iff (some p) principal = Says-iff Types.allow is_allow is_allow_iff p.statements

-- The decision, over the answers to the five questions that it asks.
decide : Bool → Bool → Bool → Bool → Bool → ResourcePolicyDecision
decide id_denies res_denies same id_allows res_allows =
    if id_denies
    then deny
    else if res_denies
    then deny
    else if (if same then id_allows || res_allows else id_allows && res_allows)
    then allow
    else implicit_deny

abbrev Granted : Bool → Bool → Bool → Type 0
Granted same id_allows res_allows =
    ((same ≡ true) × ((id_allows ≡ true) ⊎ (res_allows ≡ true)))
    ⊎ ((¬ (same ≡ true)) × (id_allows ≡ true) × (res_allows ≡ true))

decide_deny : (a b c d e : Bool) → (decide a b c d e ≡ deny) ↔ ((a ≡ true) ⊎ (b ≡ true))
unfolding decide
decide_deny a b c d e = (λ h. ground arith, λ h. ground arith)

decide_allow :
    (a b c d e : Bool)
    → (decide a b c d e ≡ allow) ↔ ((¬ ((a ≡ true) ⊎ (b ≡ true))) × Granted c d e)
unfolding decide
decide_allow a b c d e = (λ h. ground arith, λ h. ground arith)

module _ (action resource : Text) (identity_policies : List ParsedPolicy)
    (resource_policy : Option ParsedPolicy) where
  -- A Deny statement of either kind of policy is about the request.
  abbrev pub IsDenied : Type 0
  IsDenied =
      Says Types.deny action resource (all_statements identity_policies)
      ⊎ ResourceSays Types.deny action resource resource_policy

  abbrev pub IdentityAllows : Type 0
  IdentityAllows = Says Types.allow action resource (all_statements identity_policies)

  abbrev pub ResourceAllows : Type 0
  ResourceAllows = ResourceSays Types.allow action resource resource_policy

  denied_iff :
      (principal : Text)
      → ((has_deny_statement identity_policies action resource ≡ true)
          ⊎ (resource_denies resource_policy action resource principal ≡ true))
        ↔ IsDenied
  denied_iff principal =
      let (fi, bi) = identity_denies_iff action resource identity_policies in
      let (fr, br) = resource_denies_iff action resource resource_policy principal in
      (
        elim [ inl h ↦ inl (fi h) | inr h ↦ inr (fr h) ],
        elim [ inl h ↦ inl (bi h) | inr h ↦ inr (br h) ],
      )

  -- The decision is Deny exactly if a Deny statement of either kind of policy is about the request,
  -- and Allow exactly if none is and, within one account, an Allow statement of either kind of policy
  -- is about it, or, between accounts, one of each kind. In all other cases it is ImplicitDeny.
  pub evaluate_resource_policy_pair_iff :
      (principal principal_account resource_account : Text)
      → let decision =
          evaluate_resource_policy_pair action resource principal identity_policies resource_policy
            principal_account resource_account in
        ((decision ≡ deny) ↔ IsDenied)
        × ((decision ≡ allow) ↔ (
            (¬ IsDenied)
            × (((principal_account ≡ resource_account) × (IdentityAllows ⊎ ResourceAllows))
                ⊎ ((principal_account ≢ resource_account) × IdentityAllows × ResourceAllows))))
  unfolding evaluate_resource_policy_pair decide
  evaluate_resource_policy_pair_iff principal principal_account resource_account =
      let a = has_deny_statement identity_policies action resource in
      let b = resource_denies resource_policy action resource principal in
      let c = text_eq principal_account resource_account in
      let d = has_allow_statement identity_policies action resource in
      let e = resource_allows resource_policy action resource principal in
      let (fd, bd) = denied_iff principal in
      let (fs, bs) = text_eq_iff principal_account resource_account in
      let (fi, bi) = identity_allows_iff action resource identity_policies in
      let (fr, br) = resource_allows_iff action resource resource_policy principal in
      (
        ↔_trans (decide_deny a b c d e) (denied_iff principal),
        ↔_trans (decide_allow a b c d e) (
          λ (n, g). (
            λ h. n (bd h),
            elim g [
              | inl s ↦ inl (fs s.0, elim s.1 [ inl i ↦ inl (fi i) | inr r ↦ inr (fr r) ])
              | inr s ↦ inr ((λ p. s.0 (bs p)), fi s.1, fr s.2)
            ],
          ),
          λ (n, g). (
            λ h. n (fd h),
            elim g [
              | inl s ↦ inl (bs s.0, elim s.1 [ inl i ↦ inl (bi i) | inr r ↦ inr (br r) ])
              | inr s ↦ inr ((λ p. s.0 (fs p)), bi s.1, br s.2)
            ],
          ),
        ),
      )

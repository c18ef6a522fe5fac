-- ===== src/Iam/Deny/Laws.antt =====
-- When the deny engine (crates/activable-iam-engine/src/deny_engine.rs) denies.
use activable_cloud.Prelude.{
  ◌≡◌, refl, ◌↔◌, inl, inr, Bool, true, false, ◌&&◌, List, [], ◌∷◌, ◌++◌, arith, Text, text_eq,
  is_empty, all, any, all_iff, All, All-mono, Any, Any-append, any_iff, &&_iff, ↔_trans,
  if◌then◌else◌,
}
use activable_cloud.Iam.Types.{Condition, PolicyStatement, EvalContext, deny, is_deny, is_deny_iff}
use activable_cloud.Iam.Statements.{Covers, covers, Covers-iff}
use activable_cloud.Iam.Conditions.{Net, evaluate_condition}
use activable_cloud.Iam.Conditions.Meaning.{known_operators, evaluate_condition_unknown}
use activable_cloud.Iam.Deny.{
  explicit_deny, no_explicit_deny, context_value, conditions_match, condition_matches,
  evaluate_deny_with_context,
}

if_empty :
    (p : Condition → Bool) (cs : List Condition)
    → (if is_empty cs then true else all p cs) ≡ all p cs
if_empty p [] = refl
if_empty p (c ∷ cs) = refl

module _ (net : Net) where
  -- Every condition of the statement holds of the request's context.
  abbrev pub ConditionsHold : EvalContext → PolicyStatement → Type 0
  ConditionsHold context stmt =
      All
        (λ c. evaluate_condition net c.operator c.key c.values (context_value context c.key) ≡ true)
        stmt.conditions

  -- A Deny statement that is about the action on the resource, and whose conditions hold.
  abbrev pub Denies : Text → Text → EvalContext → PolicyStatement → Type 0
  Denies action resource context stmt =
      (stmt.effect ≡ deny) × Covers stmt action resource × ConditionsHold context stmt

  conditions_match_iff :
      (stmt : PolicyStatement) (context : EvalContext)
      → (conditions_match net stmt context ≡ true) ↔ ConditionsHold context stmt
  unfolding conditions_match condition_matches
  conditions_match_iff stmt context =
      rw (if_empty (condition_matches net context) stmt.conditions)
        (all_iff _ (condition_matches net context) (λ c. (λ h. h, λ h. h)) stmt.conditions)

  denies : Text → Text → EvalContext → PolicyStatement → Bool
  denies action resource context stmt =
      is_deny stmt.effect && (covers stmt action resource && conditions_match net stmt context)

  denies_iff :
      (action resource : Text) (context : EvalContext) (stmt : PolicyStatement)
      → (denies action resource context stmt ≡ true) ↔ Denies action resource context stmt
  unfolding denies
  denies_iff action resource context stmt =
      let (fd, bd) = is_deny_iff stmt.effect in
      let (fc, bc) = Covers-iff stmt action resource in
      let (fm, bm) = conditions_match_iff stmt context in
      ↔_trans
        (&&_iff (is_deny stmt.effect)
          (covers stmt action resource && conditions_match net stmt context))
        (
          λ h.
              let h' =
                (&&_iff (covers stmt action resource) (conditions_match net stmt context)).0 h.1 in
              (fd h.0, fc h'.0, fm h'.1),
          λ h. (
            bd h.0,
            (&&_iff (covers stmt action resource) (conditions_match net stmt context)).1
                (bc h.1, bm h.2),
          ),
        )

  if_explicit :
      (b : Bool) → ((if b then explicit_deny else no_explicit_deny) ≡ explicit_deny) ↔ (b ≡ true)
  if_explicit b = ground arith

  evaluate_deny-any :
      (statements : List PolicyStatement) (action resource : Text) (context : EvalContext)
      → evaluate_deny_with_context net statements action resource context ≡ (
          if any (denies action resource context) statements
          then explicit_deny
          else no_explicit_deny)
  unfolding evaluate_deny_with_context denies
  evaluate_deny-any [] action resource context = refl
  evaluate_deny-any (stmt ∷ statements) action resource context =
      ground (arith, evaluate_deny-any statements action resource context)

  -- The engine answers explicit deny exactly if some statement is a Deny, is about the action on the
  -- resource, and has only conditions that hold of the context. Statements of other effect, and their
  -- order, do not matter.
  pub evaluate_deny_with_context_iff :
      (statements : List PolicyStatement) (action resource : Text) (context : EvalContext)
      → (evaluate_deny_with_context net statements action resource context ≡ explicit_deny)
        ↔ Any (Denies action resource context) statements
  evaluate_deny_with_context_iff statements action resource context =
      rw (evaluate_deny-any statements action resource context) (
        ↔_trans (if_explicit (any (denies action resource context) statements)) (
          any_iff (Denies action resource context) (denies action resource context)
            (denies_iff action resource context) statements))

  -- An operator that the evaluator does not know counts as met: a Deny statement about the request,
  -- all of whose conditions have unknown operators, denies it, wherever it stands in the policy.
  pub evaluate_deny_unknown_operators :
      (before after : List PolicyStatement) (stmt : PolicyStatement) (action resource : Text)
      (context : EvalContext)
      → stmt.effect ≡ deny
      → Covers stmt action resource
      → All (λ c. any (text_eq c.operator) known_operators ≡ false) stmt.conditions
      → evaluate_deny_with_context net (before ++ stmt ∷ after) action resource context
        ≡ explicit_deny
  evaluate_deny_unknown_operators before after stmt action resource context d c unknown =
      (evaluate_deny_with_context_iff (before ++ stmt ∷ after) action resource context).1 (
        (Any-append (Denies action resource context) before (stmt ∷ after)).1 (
          inr (
            inl (
              d,
              c,
              All-mono _ _
                  (λ k e.
                    evaluate_condition_unknown net k.operator k.key k.values
                      (context_value context k.key) e)
                  stmt.conditions unknown,
            ))))

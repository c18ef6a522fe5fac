-- ===== src/Iam/Deny.antt =====
-- The deny engine: crates/activable-iam-engine/src/deny_engine.rs.
pub mod Laws
use activable_cloud.Prelude.{
  Bool, true, false, not, List, [], ◌∷◌, Text, codes, text_eq, is_empty, all, if◌then◌else◌,
}
use activable_cloud.Iam.Types.{Condition, PolicyStatement, EvalContext, default_context, is_deny}
use activable_cloud.Iam.Statements.{action_matches_result, resource_matches_result}
use activable_cloud.Iam.Conditions.{Net, evaluate_condition}

pub data EvalResult : Type 0 where
  explicit_deny no_explicit_deny : EvalResult

-- The `match condition.key.as_str()`.
unfoldable pub context_value : EvalContext → Text → Text
context_value context key =
    if text_eq key (codes "aws:RequestedRegion")
    then context.region
    else if text_eq key (codes "aws:SourceIp")
    then context.source_ip
    else if text_eq key (codes "aws:SourceArn")
    then context.source_arn
    else if text_eq key (codes "aws:SecureTransport")
    then (if context.secure_transport then codes "true" else codes "false")
    else []

module _ (net : Net) where
  unfoldable pub condition_matches : EvalContext → Condition → Bool
  condition_matches context condition =
      let actual_value = context_value context condition.key in
      evaluate_condition net condition.operator condition.key condition.values actual_value

  unfoldable pub conditions_match : PolicyStatement → EvalContext → Bool
  conditions_match stmt context =
      if is_empty stmt.conditions then true else all (condition_matches context) stmt.conditions

  -- A `continue` is the loop's next round.
  unfoldable pub evaluate_deny_with_context :
      List PolicyStatement → Text → Text → EvalContext → EvalResult
  evaluate_deny_with_context [] action resource context = no_explicit_deny
  evaluate_deny_with_context (stmt ∷ statements) action resource context =
      let next = evaluate_deny_with_context statements action resource context in
      if not (is_deny stmt.effect)
      then next
      else if not (action_matches_result stmt action)
      then next
      else if not (resource_matches_result stmt resource)
      then next
      else if conditions_match stmt context
      then explicit_deny
      else next

  unfoldable pub evaluate_deny : List PolicyStatement → Text → Text → EvalResult
  evaluate_deny statements action resource =
      evaluate_deny_with_context statements action resource default_context

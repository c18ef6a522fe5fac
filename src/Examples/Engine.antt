-- ===== src/Examples/Engine.antt =====
-- The policy engine on small policies (crates/activable-iam-engine).
use activable_cloud.Prelude.{
  ◌≡◌, ◌↔◌, refl, inl, inr, true, [], ◌∷◌, ◌++◌, map, none, some, arith, Text, codes, text_eq, Any,
  drop,
}
use activable_cloud.Sorting.{dedup, dedup_from, sort_by, insert, text_compare}
use activable_cloud.Sorting.Strict.{In, Strict}
use activable_cloud.Iam.Types
use activable_cloud.Iam.Types.{
  PolicyStatement, ParsedPolicy, EffectivePermission, EvalContext, Condition, default_context,
}
use activable_cloud.Iam.Conditions.{Net, evaluate_condition}
use activable_cloud.Iam.Conditions.Meaning.{strings, positive, Meets, evaluate_condition-positive}
use activable_cloud.Iam.Wildcard.{
  Matches, match_recursive, wildcard_match, Answers, match_recursive-Answers, wildcard_match_iff,
}
use activable_cloud.Iam.Matchers.{action_matches, resource_matches}
use activable_cloud.Iam.Statements.{
  Covers, Covers-iff, action_matches_result, resource_matches_result,
}
use activable_cloud.Iam.Deny.{
  evaluate_deny_with_context, evaluate_deny, conditions_match, condition_matches, context_value,
  explicit_deny,
}
use activable_cloud.Iam.Deny.Laws.{
  Denies, evaluate_deny_with_context_iff, evaluate_deny_unknown_operators,
}
use activable_cloud.Iam.Boundary.{boundary_allows, scan_allows}
use activable_cloud.Iam.Scp.{scp_allows, levels_allow, statement_slice_allows}
use activable_cloud.Iam.Session.{effective_permissions_with_session}
use activable_cloud.Iam.Effective.{
  check_statement, actions_to_check, resources_to_check, check_pair, effective_permissions,
  compare_permissions, all_statements,
}
use activable_cloud.Iam.Effective.Laws.{
  Requests, Permitted, effective_permissions_iff, effective_permissions-Strict,
}
use activable_cloud.Iam.Effective.Order.{
  SameStatements, without_denies, effective_permissions_same, effective_permissions_scp_denies,
}
use activable_cloud.Iam.Effective.WithSession.{
  SessionGrants, effective_permissions_with_session_iff,
}

-- Addresses and blocks as texts: a block holds the address that it is.
abbrev net : Net
net = record { IpAddr = Text; IpNet = Text; parse_ip = some; parse_net = some; contains = text_eq }

abbrev get_object : PolicyStatement
get_object = record {
  sid = none;
  effect = Types.allow;
  actions = codes "s3:GetObject" ∷ codes "s3:PutObject" ∷ [];
  not_actions = [];
  resources = codes "*" ∷ [];
  not_resources = [];
  conditions = [];
}

abbrev deny_put : PolicyStatement
deny_put = record {
  sid = none;
  effect = Types.deny;
  actions = codes "s3:Put*" ∷ [];
  not_actions = [];
  resources = codes "*" ∷ [];
  not_resources = [];
  conditions = record { operator = codes "Custom"; key = codes "k"; values = [] } ∷ [];
}

abbrev policy : ParsedPolicy
policy = record { version = codes "2012-10-17"; statements = get_object ∷ deny_put ∷ [] }

abbrev read_only : ParsedPolicy
read_only = record { version = codes "2012-10-17"; statements = get_object ∷ [] }

abbrev read : EffectivePermission
read = record { action = codes "s3:GetObject"; resource = codes "*" }

-- The Allow of `s3:PutObject` is denied, and the other one is left.
effective_permissions_run :
    effective_permissions net (policy ∷ []) none [] default_context ≡ read ∷ []
unfolding effective_permissions check_statement actions_to_check resources_to_check check_pair
    evaluate_deny evaluate_deny_with_context action_matches_result action_matches wildcard_match
    match_recursive scp_allows levels_allow statement_slice_allows resource_matches_result
    resource_matches conditions_match condition_matches evaluate_condition context_value
    boundary_allows scan_allows dedup dedup_from sort_by insert text_compare
effective_permissions_run = refl

effective_permissions_example :
    In read (effective_permissions net (policy ∷ []) none [] default_context) ↔ (
      Any (Requests read) (all_statements (policy ∷ []))
      × Permitted net (policy ∷ []) none [] read.action read.resource)
effective_permissions_example =
    effective_permissions_iff net (policy ∷ []) none [] default_context read

effective_permissions_sorted_example :
    Strict compare_permissions (effective_permissions net (policy ∷ []) none [] default_context)
effective_permissions_sorted_example =
    effective_permissions-Strict net (policy ∷ []) none [] default_context

twice_same : SameStatements (policy ∷ []) (policy ∷ policy ∷ [])
twice_same s = (
  λ h. elim h [ inl a ↦ inl a | inr t ↦ elim t [ inl b ↦ inr (inl b) | inr n ↦ absurd n ] ],
  elim [
    | inl a ↦ inl a
    | inr t ↦ elim t [
      | inl b ↦ inr (inl b)
      | inr u ↦ elim u [ inl a ↦ inl a | inr v ↦ elim v [ inl b ↦ inr (inl b) | inr n ↦ absurd n ] ]
    ]
  ],
)

effective_permissions_same_example :
    effective_permissions net (policy ∷ []) none [] default_context
    ≡ effective_permissions net (policy ∷ policy ∷ []) none [] default_context
effective_permissions_same_example =
    effective_permissions_same net (policy ∷ []) (policy ∷ policy ∷ []) none [] default_context
      twice_same

effective_permissions_scp_example :
    effective_permissions net
      (policy ∷ [])
      none
      (map (without_denies net) ((get_object ∷ deny_put ∷ []) ∷ []))
      default_context
    ≡ effective_permissions net
        (policy ∷ [])
        none
        ((get_object ∷ deny_put ∷ []) ∷ [])
        default_context
effective_permissions_scp_example =
    effective_permissions_scp_denies net (policy ∷ []) none ((get_object ∷ deny_put ∷ []) ∷ [])
      default_context

effective_permissions_with_session_example :
    In read (effective_permissions_with_session (read ∷ []) (some read_only))
    ↔ (In read (read ∷ []) × SessionGrants (some read_only) read.action read.resource)
effective_permissions_with_session_example =
    effective_permissions_with_session_iff (read ∷ []) (some read_only) read

evaluate_deny_example :
    (evaluate_deny_with_context net
        (get_object ∷ deny_put ∷ [])
        (codes "s3:PutObject")
        (codes "b")
        default_context
      ≡ explicit_deny)
    ↔ Any
        (Denies net (codes "s3:PutObject") (codes "b") default_context)
        (get_object ∷ deny_put ∷ [])
evaluate_deny_example =
    evaluate_deny_with_context_iff net (get_object ∷ deny_put ∷ []) (codes "s3:PutObject")
      (codes "b") default_context

put_covered : Covers deny_put (codes "s3:PutObject") (codes "b")
unfolding action_matches_result resource_matches_result action_matches resource_matches
    wildcard_match match_recursive
put_covered = (Covers-iff deny_put (codes "s3:PutObject") (codes "b")).0 refl

evaluate_deny_unknown_example :
    evaluate_deny_with_context net
      ((get_object ∷ []) ++ deny_put ∷ [])
      (codes "s3:PutObject")
      (codes "b")
      default_context
    ≡ explicit_deny
evaluate_deny_unknown_example =
    evaluate_deny_unknown_operators net (get_object ∷ []) [] deny_put (codes "s3:PutObject")
      (codes "b") default_context refl put_covered (refl, tt)

wildcard_match_example :
    (wildcard_match (codes "s3:*t") (codes "s3:Get") ≡ true)
    ↔ Matches (codes "s3:*t") (codes "s3:Get")
wildcard_match_example = wildcard_match_iff (codes "s3:*t") (codes "s3:Get")

match_recursive_example :
    Answers
      (Matches (drop 3 (codes "s3:*t")) (drop 3 (codes "s3:Get")))
      (match_recursive 3 (codes "s3:*t") (codes "s3:Get") 3 3)
match_recursive_example =
    match_recursive-Answers 3 (codes "s3:*t") (codes "s3:Get") 3 3 (omega arith) (omega arith)
      (omega arith)

evaluate_condition-positive_example :
    (evaluate_condition net
        (positive strings)
        (codes "aws:RequestedRegion")
        (codes "EU-west-1" ∷ [])
        (codes "eu-west-1")
      ≡ true)
    ↔ Any (Meets net strings (codes "eu-west-1")) (codes "EU-west-1" ∷ [])
evaluate_condition-positive_example =
    evaluate_condition-positive net strings (codes "aws:RequestedRegion") (codes "EU-west-1" ∷ [])
      (codes "eu-west-1")

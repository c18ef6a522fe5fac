-- ===== src/Examples/Policies.antt =====
-- Policy texts, resource policies and dangerous actions on small inputs
-- (crates/activable-iam-engine).
use activable_cloud.Prelude.{
  ◌≡◌, ◌≢◌, ◌↔◌, ◌⊎◌, refl, inr, true, List, [], ◌∷◌, none, some, Text, codes, Any, All,
}
use activable_cloud.Prelude.Errors.{Result, ok}
use activable_cloud.Iam.Types
use activable_cloud.Iam.Types.{PolicyStatement, ParsedPolicy}
use activable_cloud.Iam.Statements.{covers}
use activable_cloud.Json.{Value, string, array, object, nil, cons, Fields, end, field, strings}
use activable_cloud.Iam.PolicyParser.{parse_policy}
use activable_cloud.Iam.PolicyParser.WellFormed.{IsWellFormed, parse_policy-IsWellFormed}
use activable_cloud.Iam.PolicyParser.RoundTrip.{Writes, WritesPolicy, parse_policy-WritesPolicy}
use activable_cloud.Iam.ResourcePolicy.{
  stmt_matches_action_and_resource, evaluate_resource_policy_pair, allow, deny,
}
use activable_cloud.Iam.ResourcePolicy.Decision.{
  IsDenied, IdentityAllows, ResourceAllows, evaluate_resource_policy_pair_iff,
}
use activable_cloud.Iam.ResourcePolicy.Agreement.{IsSimple, stmt_matches_agrees}
use activable_cloud.Iam.Dangerous.{
  high, DangerousAction, EffectivePermission, detect_dangerous_actions,
}
use activable_cloud.Iam.Drift
use activable_cloud.Iam.Drift.{diff_policies}
use activable_cloud.Iam.Drift.Laws.{Has, diff_policies_added_iff}
use activable_cloud.Iam.Dangerous.Laws.{IsTriggered, detect_dangerous_actions_iff}
use activable_cloud.Iam.Dangerous.Escalation.{derive_escalation_edges}
use activable_cloud.Iam.Dangerous.Targets.{IsJustified, derive_escalation_edges-IsJustified}

abbrev get_all : PolicyStatement
get_all = record {
  sid = some (codes "All");
  effect = Types.allow;
  actions = codes "s3:GetObject" ∷ [];
  not_actions = [];
  resources = codes "arn:aws:s3:::b/*" ∷ [];
  not_resources = [];
  conditions = [];
}

abbrev policy : ParsedPolicy
policy = record { version = codes "2012-10-17"; statements = get_all ∷ [] }

get_all-IsWellFormed : IsWellFormed get_all
get_all-IsWellFormed = record { one_action = refl; one_resource = refl }

-- The policy as serde_json reads it, with sorted keys.
abbrev statement_map : Fields
statement_map = field (codes "Action") (array (strings (codes "s3:GetObject" ∷ []))) (
    field (codes "Effect") (string (codes "Allow")) (
      field (codes "Resource") (array (strings (codes "arn:aws:s3:::b/*" ∷ [])))
        (field (codes "Sid") (string (codes "All")) end)))

abbrev policy_map : Fields
policy_map =
    field (codes "Statement") (array (cons (object statement_map) nil))
      (field (codes "Version") (string (codes "2012-10-17")) end)

abbrev reader : Text → Result Text Value
reader json = ok (object policy_map)

statement_written : Writes statement_map get_all
statement_written = record {
  effect = refl;
  sid = refl;
  actions = refl;
  not_actions = refl;
  resources = refl;
  not_resources = refl;
  conditions = refl;
}

policy_written : WritesPolicy policy_map policy
policy_written = record {
  items = cons (object statement_map) nil;
  version = refl;
  array_there = refl;
  statements = (statement_written, tt);
}

parse_policy-WritesPolicy_example : parse_policy reader (codes "{}") ≡ ok policy
parse_policy-WritesPolicy_example =
    parse_policy-WritesPolicy reader (codes "{}") policy_map policy refl policy_written
      (get_all-IsWellFormed, tt)

policy_parsed : parse_policy reader (codes "{}") ≡ ok policy
policy_parsed =
    parse_policy-WritesPolicy reader (codes "{}") policy_map policy refl policy_written
      (get_all-IsWellFormed, tt)

parse_policy_form_example : All IsWellFormed policy.statements
parse_policy_form_example = parse_policy-IsWellFormed reader (codes "{}") policy policy_parsed

evaluate_resource_policy_pair_example :
    let decision =
      evaluate_resource_policy_pair
        (codes "s3:GetObject")
        (codes "arn:aws:s3:::b/k")
        (codes "p")
        (policy ∷ [])
        none
        (codes "1")
        (codes "1") in
    let act = codes "s3:GetObject" in
    let object = codes "arn:aws:s3:::b/k" in
    ((decision ≡ deny) ↔ IsDenied act object (policy ∷ []) none)
    × ((decision ≡ allow) ↔ (
        (¬ IsDenied act object (policy ∷ []) none)
        × (((codes "1" ≡ codes "1")
              × (IdentityAllows act object (policy ∷ []) none
                  ⊎ ResourceAllows act object (policy ∷ []) none))
            ⊎ ((codes "1" ≢ codes "1")
                × IdentityAllows act object (policy ∷ []) none
                × ResourceAllows act object (policy ∷ []) none))))
evaluate_resource_policy_pair_example =
    evaluate_resource_policy_pair_iff (codes "s3:GetObject") (codes "arn:aws:s3:::b/k")
      (policy ∷ []) none (codes "p") (codes "1") (codes "1")

simple : IsSimple (codes "arn:aws:s3:::b/*")
simple = inr (codes "arn:aws:s3:::b/", refl, refl, refl)

stmt_matches_example :
    stmt_matches_action_and_resource get_all (codes "s3:GetObject") (codes "arn:aws:s3:::b/k")
    ≡ covers get_all (codes "s3:GetObject") (codes "arn:aws:s3:::b/k")
stmt_matches_example =
    stmt_matches_agrees get_all (codes "s3:GetObject") (codes "arn:aws:s3:::b/k")
      get_all-IsWellFormed (simple, tt) tt

abbrev pass_role : DangerousAction
pass_role = record {
  id = codes "pass-role-ec2";
  tier = 2;
  severity = high;
  actions = codes "iam:PassRole" ∷ codes "ec2:RunInstances" ∷ [];
  combo = true;
  description = [];
}

abbrev passes : List EffectivePermission
passes =
    record { action = codes "iam:PassRole"; resource = codes "r" }
    ∷ record { action = codes "ec2:*"; resource = codes "*" }
    ∷ []

detect_example :
    Any (λ m. m.id ≡ codes "pass-role-ec2") (detect_dangerous_actions passes (pass_role ∷ []))
    ↔ Any
        (λ danger. (danger.id ≡ codes "pass-role-ec2") × IsTriggered passes danger)
        (pass_role ∷ [])
detect_example = detect_dangerous_actions_iff passes (pass_role ∷ []) (codes "pass-role-ec2")

derive_example :
    All
      (IsJustified (codes "p") passes)
      (derive_escalation_edges (codes "p") passes (pass_role ∷ []))
derive_example = derive_escalation_edges-IsJustified (codes "p") passes (pass_role ∷ [])

-- The same policy with one more action.
abbrev wider : ParsedPolicy
wider = record {
  version = codes "2012-10-17";
  statements =
      record {
        sid = none;
        effect = Types.allow;
        actions = codes "s3:GetObject" ∷ codes "iam:PassRole" ∷ [];
        not_actions = [];
        resources = codes "arn:aws:s3:::b/*" ∷ [];
        not_resources = [];
        conditions = [];
      }
      ∷ [];
}

diff_policies_added_example :
    Any
      (λ a. codes "iam:PassRole" ≡ a)
      (diff_policies policy wider (codes "p") (codes "v1") (codes "v2")).actions_added
    ↔ ((p : Types.EffectivePermission) × (codes "iam:PassRole" ≡ p.action)
        × Has wider p
        × ¬ Has policy p)
diff_policies_added_example =
    diff_policies_added_iff policy wider (codes "p") (codes "v1") (codes "v2")
      (codes "iam:PassRole")

diff_policies_run :
    (diff_policies policy wider (codes "p") (codes "v1") (codes "v2")).severity ≡ Drift.high
unfolding diff_policies Drift.severity_of activable_cloud.Sorting.dedup
    activable_cloud.Sorting.sort_by Drift.difference Drift.from_policy Drift.statement_pairs
    activable_cloud.Sorting.text_compare Drift.is_dangerous_action
    activable_cloud.Iam.Matchers.action_matches
diff_policies_run = refl

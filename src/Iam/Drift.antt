-- ===== src/Iam/Drift.antt =====
-- The comparison of policy versions: crates/activable-iam-engine/src/policy_drift.rs. A pair of action
-- and resource is the record with these two fields.
pub mod Laws
use activable_cloud.Prelude.{
  Bool, true, false, not, ◌&&◌, ◌||◌, List, [], ◌∷◌, map, Text, codes, text_eq, to_lowercase,
  is_empty, any, keep, flat_map, if◌then◌else◌,
}
use activable_cloud.Sorting.{text_compare, sort_by, dedup}
use activable_cloud.Iam.Types.{PolicyStatement, ParsedPolicy, EffectivePermission, is_allow}
use activable_cloud.Iam.Matchers.{action_matches}
use activable_cloud.Iam.Effective.{compare_permissions, same_permission}

pub data DriftSeverity : Type 0 where
  critical high medium low none : DriftSeverity

pub record PolicyVersion : Type 0 where
  pub version_id : Text
  pub policy_arn : Text
  pub is_default : Bool
  pub created_at : Text
  pub policy : ParsedPolicy

pub record PolicyDiff : Type 0 where
  pub policy_arn : Text
  pub from_version : Text
  pub to_version : Text
  pub actions_added : List Text
  pub actions_removed : List Text
  pub resources_added : List Text
  pub resources_removed : List Text
  pub permission_expanded : Bool
  pub severity : DriftSeverity

-- A `BTreeSet` is the sorted list of its elements, each of them once.
abbrev pub pair_set : List EffectivePermission → List EffectivePermission
pair_set pairs = dedup same_permission (sort_by compare_permissions pairs)

abbrev pub text_set : List Text → List Text
text_set texts = dedup text_eq (sort_by text_compare texts)

-- The pairs that one statement inserts.
unfoldable pub statement_pairs : PolicyStatement → List EffectivePermission
statement_pairs stmt =
    if not (is_allow stmt.effect)
    then []
    else if not (is_empty stmt.actions) && not (is_empty stmt.resources)
    then flat_map (λ a. map (λ r. record { action = a; resource = r }) stmt.resources) stmt.actions
    else []

unfoldable pub from_policy : ParsedPolicy → List EffectivePermission
from_policy policy = pair_set (flat_map statement_pairs policy.statements)

unfoldable pub difference :
    List EffectivePermission → List EffectivePermission → List EffectivePermission
difference pairs other = keep (λ p. not (any (same_permission p) other)) pairs

abbrev pub dangerous_patterns : List Text
dangerous_patterns =
    codes "iam:CreatePolicyVersion"
    ∷ codes "iam:CreatePolicy"
    ∷ codes "iam:PutUserPolicy"
    ∷ codes "iam:PutRolePolicy"
    ∷ codes "iam:PutGroupPolicy"
    ∷ codes "iam:AttachUserPolicy"
    ∷ codes "iam:AttachRolePolicy"
    ∷ codes "iam:AttachGroupPolicy"
    ∷ codes "iam:UpdateAssumeRolePolicy"
    ∷ codes "iam:SetDefaultPolicyVersion"
    ∷ codes "iam:PassRole"
    ∷ codes "sts:AssumeRole"
    ∷ []

unfoldable pub is_dangerous_action : Text → Bool
is_dangerous_action action =
    if text_eq (to_lowercase action) (codes "*")
    then true
    else if text_eq (to_lowercase action) (codes "iam:*")
    then true
    else any (λ pattern. action_matches pattern action) dangerous_patterns

unfoldable pub severity_of :
    List Text → List EffectivePermission → List EffectivePermission → DriftSeverity
severity_of actions_added added_pairs removed_pairs =
    if any is_dangerous_action actions_added
    then (if any (λ a. text_eq a (codes "*") || text_eq a (codes "iam:*")) actions_added
        then critical
        else high)
    else if not (is_empty added_pairs)
    then medium
    else if not (is_empty removed_pairs)
    then low
    else none

unfoldable pub diff_policies : ParsedPolicy → ParsedPolicy → Text → Text → Text → PolicyDiff
diff_policies from to policy_arn from_version to_version =
    let added_pairs = difference (from_policy to) (from_policy from) in
    let removed_pairs = difference (from_policy from) (from_policy to) in
    let actions_added = text_set (map (λ p. p.action) added_pairs) in
    record {
      policy_arn = policy_arn;
      from_version = from_version;
      to_version = to_version;
      actions_added = actions_added;
      actions_removed = text_set (map (λ p. p.action) removed_pairs);
      resources_added = text_set (map (λ p. p.resource) added_pairs);
      resources_removed = text_set (map (λ p. p.resource) removed_pairs);
      permission_expanded = not (is_empty added_pairs);
      severity = severity_of actions_added added_pairs removed_pairs;
    }

-- The loop over consecutive versions, in their order.
abbrev pub consecutive : List PolicyVersion → List PolicyDiff
consecutive [] = []
consecutive (v ∷ []) = []
consecutive (v ∷ w ∷ rest) =
    diff_policies v.policy w.policy v.policy_arn v.version_id w.version_id ∷ consecutive (w ∷ rest)

unfoldable pub analyze_version_history : List PolicyVersion → List PolicyDiff
analyze_version_history versions =
    consecutive (sort_by (λ a b. text_compare a.created_at b.created_at) versions)

-- ===== src/Iam/Abac.antt =====
-- Tag manipulation as an escalation vector: crates/activable-iam-engine/src/abac.rs.
use activable_cloud.Prelude.{
  ◌≡◌, ◌↔◌, Bool, true, false, not, ◌&&◌, List, [], ◌∷◌, ◌++◌, map, Option, none, some, Text, codes,
  text_eq, to_lowercase, starts_with, is_empty, length, drop, any, keep, flat_map, if◌then◌else◌,
  Any, Any-keep, Any-iff, any_iff, ↔_trans, &&_iff, not_iff,
}
use activable_cloud.Prelude.Split.{contains_text}
use activable_cloud.Iam.Types.{Condition, PolicyStatement, ParsedPolicy}
use activable_cloud.Iam.Matchers.{action_matches, action_matches_iff, ActionMatch}

pub data TagConditionType : Type 0 where
  principal_tag resource_tag request_tag : TagConditionType

pub record TagDependency : Type 0 where
  pub tag_key : Text
  pub condition_type : TagConditionType
  pub required_values : List Text

pub data TagRiskLevel : Type 0 where
  critical high medium no_risk : TagRiskLevel

pub record TagManipulationRisk : Type 0 where
  pub principal_can_self_tag : Bool
  pub tag_dependent_policies : List Text
  pub exploitable_tags : List Text
  pub risk_level : TagRiskLevel

abbrev pub tag_manipulation_actions : List Text
tag_manipulation_actions = map codes (
    "iam:TagUser" ∷ "iam:TagRole" ∷ "iam:TagPolicy" ∷ "iam:TagInstanceProfile"
    ∷ "iam:TagOpenIDConnectProvider" ∷ "iam:TagSAMLProvider" ∷ "iam:TagServerCertificate"
    ∷ "ec2:CreateTags" ∷ "ec2:DeleteTags" ∷ "s3:PutObjectTagging" ∷ "s3:PutBucketTagging"
    ∷ "lambda:TagResource" ∷ "rds:AddTagsToResource" ∷ "kms:TagResource" ∷ [])

-- `strip_prefix`.
abbrev pub strip_prefix : Text → Text → Option Text
strip_prefix p s = if starts_with s p then some (drop (length p) s) else none

-- The three prefixes, one after the other.
abbrev pub tag_prefixes : List (Text × TagConditionType)
tag_prefixes =
    (codes "aws:principaltag/", principal_tag)
    ∷ (codes "aws:resourcetag/", resource_tag)
    ∷ (codes "aws:requesttag/", request_tag)
    ∷ []

abbrev pub by_prefix : List (Text × TagConditionType) → Text → List Text → Option TagDependency
by_prefix [] lower_key values = none
by_prefix ((p, type) ∷ rest) lower_key values = elim (strip_prefix p lower_key) [
  | none ↦ by_prefix rest lower_key values
  | some tag_key ↦
      some (record { tag_key = tag_key; condition_type = type; required_values = values })
]

unfoldable pub extract_single_tag_dependency : Text → List Text → Option TagDependency
extract_single_tag_dependency key values = by_prefix tag_prefixes (to_lowercase key) values

abbrev pub condition_type_str : TagConditionType → Text
condition_type_str principal_tag = codes "PrincipalTag"
condition_type_str resource_tag = codes "ResourceTag"
condition_type_str request_tag = codes "RequestTag"

-- The conditions in the order of the loops.
abbrev pub all_conditions : List ParsedPolicy → List Condition
all_conditions policies =
    flat_map (λ (p : ParsedPolicy). flat_map (λ (s : PolicyStatement). s.conditions) p.statements)
      policies

-- The loop, with the keys that were seen.
unfoldable pub new_dependencies : List Text → List Condition → List TagDependency
unfolding extract_single_tag_dependency
new_dependencies seen [] = []
new_dependencies seen (c ∷ rest) = elim (extract_single_tag_dependency c.key c.values) [
  | none ↦ new_dependencies seen rest
  | some dep ↦
      let key = dep.tag_key ++ b':' ∷ condition_type_str dep.condition_type in
      let again = new_dependencies seen rest in
      let later = new_dependencies (key ∷ seen) rest in
      if any (text_eq key) seen then again else dep ∷ later
]

unfoldable pub extract_tag_dependencies : List ParsedPolicy → List TagDependency
unfolding new_dependencies
extract_tag_dependencies policies = new_dependencies [] (all_conditions policies)

abbrev pub is_guard : Condition → Bool
is_guard c = contains_text (to_lowercase c.key) (codes "aws:requesttag")

-- A statement about the action, of either effect, with a condition on the tags of the request.
abbrev pub guards : Text → PolicyStatement → Bool
guards tag_action stmt =
    any (λ ap. action_matches ap tag_action) stmt.actions && any is_guard stmt.conditions

abbrev pub is_unguarded : List Text → List ParsedPolicy → Text → Bool
is_unguarded effective_actions policies tag_action =
    any (λ ea. action_matches ea tag_action) effective_actions
    && not (any (λ (p : ParsedPolicy). any (guards tag_action) p.statements) policies)

unfoldable pub detect_unguarded_tag_manipulation : List Text → List ParsedPolicy → List Text
detect_unguarded_tag_manipulation effective_actions policies =
    keep (is_unguarded effective_actions policies) tag_manipulation_actions

abbrev pub is_settable : TagConditionType → Bool
is_settable request_tag = false
is_settable _ = true

unfoldable pub analyze_tag_manipulation_risk : List Text → List ParsedPolicy → TagManipulationRisk
unfolding extract_tag_dependencies detect_unguarded_tag_manipulation
analyze_tag_manipulation_risk effective_actions policies =
    let tag_deps = extract_tag_dependencies policies in
    let can_self_tag =
      not (is_empty (detect_unguarded_tag_manipulation effective_actions policies)) in
    let keys = map (λ (d : TagDependency). d.tag_key) tag_deps in
    let settable = keep (λ (d : TagDependency). is_settable d.condition_type) tag_deps in
    record {
      principal_can_self_tag = can_self_tag;
      tag_dependent_policies = keys;
      exploitable_tags =
          if can_self_tag then map (λ (d : TagDependency). d.tag_key) settable else [];
      risk_level =
          if not can_self_tag
          then no_risk
          else if is_empty tag_deps
          then medium
          else if is_empty keys
          then medium
          else high;
    }

-- A statement about the action with a condition on the tags of the request.
abbrev pub IsGuard : Text → PolicyStatement → Type 0
IsGuard tag_action s =
    Any (λ (p : Text). ActionMatch tag_action p) s.actions
    × Any (λ c. is_guard c ≡ true) s.conditions

guards_iff :
    (tag_action : Text) (s : PolicyStatement) → (guards tag_action s ≡ true) ↔ IsGuard tag_action s
guards_iff tag_action s =
    let (about, of_about) =
      any_iff (λ (p : Text). ActionMatch tag_action p) (λ ap. action_matches ap tag_action)
        (λ p. action_matches_iff p tag_action) s.actions in
    let (guard, of_guard) =
      any_iff (λ c. is_guard c ≡ true) is_guard (λ c. (λ h. h, λ h. h)) s.conditions in
    ↔_trans
      (&&_iff (any (λ ap. action_matches ap tag_action) s.actions) (any is_guard s.conditions))
      (λ (a, g). (about a, guard g), λ (a, g). (of_about a, of_guard g))

-- An effective action covers the tag action, and no statement guards it.
abbrev pub IsUnguarded : List Text → List ParsedPolicy → Text → Type 0
IsUnguarded effective_actions policies a =
    Any (λ (p : Text). ActionMatch a p) effective_actions
    × ¬ Any (λ (p : ParsedPolicy). Any (IsGuard a) p.statements) policies

is_unguarded_iff :
    (effective_actions : List Text) (policies : List ParsedPolicy) (a : Text)
    → (is_unguarded effective_actions policies a ≡ true) ↔ IsUnguarded effective_actions policies a
is_unguarded_iff effective_actions policies a =
    let (covered, of_covered) =
      any_iff (λ (p : Text). ActionMatch a p) (λ ea. action_matches ea a)
        (λ p. action_matches_iff p a) effective_actions in
    let guarded = any (λ (p : ParsedPolicy). any (guards a) p.statements) policies in
    let (found, of_found) =
      any_iff (λ (p : ParsedPolicy). Any (IsGuard a) p.statements)
        (λ p. any (guards a) p.statements)
        (λ p. any_iff (IsGuard a) (guards a) (guards_iff a) p.statements) policies in
    let (free, of_free) = not_iff guarded in
    ↔_trans (&&_iff (any (λ ea. action_matches ea a) effective_actions) (not guarded)) (
      λ (c, n). (covered c, λ f. free n (of_found f)),
      λ (c, n). (of_covered c, of_free (λ g. n (found g))),
    )

-- The tag actions that are reported are those that an effective action of the principal covers, while no statement of the policies about the action, allowing or denying, has a condition on the tags of the request.
pub detect_unguarded_tag_manipulation_iff :
    (effective_actions : List Text) (policies : List ParsedPolicy) (action : Text)
    → Any (λ a. action ≡ a) (detect_unguarded_tag_manipulation effective_actions policies)
      ↔ Any (λ a. IsUnguarded effective_actions policies a × (action ≡ a)) tag_manipulation_actions
unfolding detect_unguarded_tag_manipulation
detect_unguarded_tag_manipulation_iff effective_actions policies action =
    ↔_trans
      (Any-keep (λ a. action ≡ a) (is_unguarded effective_actions policies)
        tag_manipulation_actions)
      (Any-iff (λ a. (is_unguarded effective_actions policies a ≡ true) × (action ≡ a))
        (λ a. IsUnguarded effective_actions policies a × (action ≡ a)) tag_manipulation_actions
        (λ a.
          let (forth, back) = is_unguarded_iff effective_actions policies a in
          (λ (u, e). (forth u, e), λ (u, e). (back u, e))))

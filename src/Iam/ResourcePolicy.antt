-- ===== src/Iam/ResourcePolicy.antt =====
-- Identity and resource policies together: crates/activable-iam-engine/src/resource_policy_evaluator.rs.
pub mod Patterns
pub mod Decision
pub mod Principals
pub mod Agreement
use activable_cloud.Prelude.{
  Bool, true, false, not, ◌&&◌, ◌||◌, List, [], ◌∷◌, Option, none, some, Text, codes, text_eq,
  starts_with, contains_char, is_empty, any, length, get_elem?, if◌then◌else◌, leb,
}
use activable_cloud.Prelude.Split.{split, ends_with, contains_text, before_char}
use activable_cloud.Iam.Types.{PolicyStatement, ParsedPolicy, is_allow, is_deny}
use activable_cloud.Iam.Matchers.{action_matches}
use activable_cloud.Iam.Wildcard.{star}

pub data ResourcePolicyDecision : Type 0 where
  allow deny implicit_deny : ResourcePolicyDecision

unfoldable pub wildcard_match : Text → Text → Bool
wildcard_match pattern value = elim (before_char star pattern) [
  | some prefix ↦ starts_with value prefix
  | none ↦ text_eq pattern value
]

unfoldable pub matches_pattern : Text → Text → Bool
unfolding wildcard_match
matches_pattern pattern value =
    if text_eq pattern (codes "*")
    then true
    else if not (contains_char star pattern)
    then text_eq pattern value
    else wildcard_match pattern value

unfoldable pub resource_matches : List Text → List Text → Text → Bool
resource_matches resources not_resources target_resource =
    if not (is_empty resources)
    then any (λ r. matches_pattern r target_resource) resources
    else if not (is_empty not_resources)
    then not (any (λ r. matches_pattern r target_resource) not_resources)
    else true

unfoldable pub stmt_matches_action_and_resource : PolicyStatement → Text → Text → Bool
stmt_matches_action_and_resource stmt action resource =
    let action_matches_stmt =
      if not (is_empty stmt.actions)
      then any (λ a. action_matches a action) stmt.actions
      else if not (is_empty stmt.not_actions)
      then not (any (λ a. action_matches a action) stmt.not_actions)
      else false in
    let resource_matches_stmt = resource_matches stmt.resources stmt.not_resources resource in
    action_matches_stmt && resource_matches_stmt

-- The two nested loops return at the first statement that is found.
unfoldable pub has_deny_statement : List ParsedPolicy → Text → Text → Bool
has_deny_statement policies action resource =
    any
      (λ policy.
        any (λ stmt. is_deny stmt.effect && stmt_matches_action_and_resource stmt action resource)
          policy.statements)
      policies

unfoldable pub has_deny_statement_for_principal : ParsedPolicy → Text → Text → Text → Bool
has_deny_statement_for_principal policy action resource _principal_arn =
    any (λ stmt. is_deny stmt.effect && stmt_matches_action_and_resource stmt action resource)
      policy.statements

unfoldable pub has_allow_statement : List ParsedPolicy → Text → Text → Bool
has_allow_statement policies action resource =
    any
      (λ policy.
        any (λ stmt. is_allow stmt.effect && stmt_matches_action_and_resource stmt action resource)
          policy.statements)
      policies

unfoldable pub has_allow_statement_for_principal : ParsedPolicy → Text → Text → Text → Bool
has_allow_statement_for_principal policy action resource _principal_arn =
    any (λ stmt. is_allow stmt.effect && stmt_matches_action_and_resource stmt action resource)
      policy.statements

-- `if let Some(res_policy) = resource_policy { if … { return Deny } }`.
abbrev pub resource_denies : Option ParsedPolicy → Text → Text → Text → Bool
resource_denies none action resource_arn principal_arn = false
resource_denies (some res_policy) action resource_arn principal_arn =
    has_deny_statement_for_principal res_policy action resource_arn principal_arn

-- `resource_policy.map(…).unwrap_or(false)`.
abbrev pub resource_allows : Option ParsedPolicy → Text → Text → Text → Bool
resource_allows none action resource_arn principal_arn = false
resource_allows (some p) action resource_arn principal_arn =
    has_allow_statement_for_principal p action resource_arn principal_arn

unfoldable pub evaluate_resource_policy_pair :
    Text
    → Text
    → Text
    → List ParsedPolicy
    → Option ParsedPolicy
    → Text
    → Text
    → ResourcePolicyDecision
evaluate_resource_policy_pair action resource_arn principal_arn identity_policies resource_policy
      principal_account resource_account =
    if has_deny_statement identity_policies action resource_arn
    then deny
    else if resource_denies resource_policy action resource_arn principal_arn
    then deny
    else (let same_account = text_eq principal_account resource_account in
        let identity_allows = has_allow_statement identity_policies action resource_arn in
        let resource_allowed = resource_allows resource_policy action resource_arn principal_arn in
        let access_allowed =
          if same_account
          then identity_allows || resource_allowed
          else identity_allows && resource_allowed in
        if access_allowed then allow else implicit_deny)

-- From `parts.len() >= 5` on.
abbrev pub account_of : List Text → Option Text
account_of parts =
    if leb 5 (length parts)
    then elim (get_elem? parts 4) [
      | some account ↦ if not (is_empty account) then some account else none
      | none ↦ none
    ]
    else none

unfoldable pub extract_account_from_arn : Text → Option Text
extract_account_from_arn arn = let parts = split b':' arn in account_of parts

-- `if let (Some(a), Some(b)) = … { a == b } else { false }`.
abbrev pub accounts_match : Option Text → Option Text → Bool
accounts_match (some policy_account) (some principal_account) =
    text_eq policy_account principal_account
accounts_match (some policy_account) none = false
accounts_match none other = false

unfoldable pub principal_matches : Text → Text → Bool
principal_matches policy_principal principal_arn =
    if text_eq policy_principal (codes "*")
    then true
    else if ends_with policy_principal (codes ":root")
    then accounts_match (extract_account_from_arn policy_principal)
        (extract_account_from_arn principal_arn)
    else text_eq policy_principal principal_arn
      || contains_text policy_principal (codes ".amazonaws.com")
        && contains_text principal_arn policy_principal

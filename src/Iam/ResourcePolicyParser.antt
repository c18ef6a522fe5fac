-- ===== src/Iam/ResourcePolicyParser.antt =====
-- Resource policies with their principals: crates/activable-iam-engine/src/resource_policy_parser.rs.
-- `serde_json::from_str` and the `Debug` text of a principal, by which principals are sorted, are
-- parameters.
use activable_cloud.Prelude.{
  ◌≡◌, ◌↔◌, arith, text_eq_iff, Bool, true, false, ◌&&◌, List, [], ◌∷◌, ◌++◌, map, Option, none,
  some, Text, codes, text_eq, starts_with, if◌then◌else◌,
}
use activable_cloud.Prelude.Errors.{Result, ok, err, ◌>>=◌, ok_or, map_err}
use activable_cloud.Prelude.Options
use activable_cloud.Prelude.Split.{ends_with, contains_text}
use activable_cloud.Sorting.{sort_by, dedup, text_compare}
use activable_cloud.Json.{
  Value, string, array, object, Items, nil, cons, as_object, as_array, get, only_strings,
  extract_string_or_array,
}
use activable_cloud.Iam.Types.{ParsedPolicy}
use activable_cloud.Iam.PolicyParser.{
  missing_field, invalid_statement, invalid_json, PolicyParseResult, parse_policy,
}
use activable_cloud.Iam.ResourcePolicy.{extract_account_from_arn}

pub data PolicyPrincipal : Type 0 where
  arn account_root service federated : Text → PolicyPrincipal
  wildcard : PolicyPrincipal

pub record ResourcePolicy : Type 0 where
  pub resource_arn : Text
  pub service_type : Text
  pub policy : ParsedPolicy
  pub principals : List PolicyPrincipal

-- `==` of principals.
abbrev pub principal_eq : PolicyPrincipal → PolicyPrincipal → Bool
principal_eq (arn a) (arn b) = text_eq a b
principal_eq (account_root a) (account_root b) = text_eq a b
principal_eq (service a) (service b) = text_eq a b
principal_eq (federated a) (federated b) = text_eq a b
principal_eq wildcard wildcard = true
principal_eq _ _ = false

unfoldable pub account_id : PolicyPrincipal → Option Text
account_id (arn a) = extract_account_from_arn a
account_id (account_root a) = extract_account_from_arn a
account_id _ = none

abbrev pub is_wildcard : PolicyPrincipal → Bool
is_wildcard wildcard = true
is_wildcard _ = false

abbrev pub is_account_scoped : PolicyPrincipal → Bool
is_account_scoped (account_root a) = true
is_account_scoped _ = false

unfoldable pub parse_principal_string : Text → PolicyPrincipal
parse_principal_string s =
    if text_eq s (codes "*")
    then wildcard
    else if ends_with s (codes ":root") && starts_with s (codes "arn:")
    then account_root s
    else if starts_with s (codes "arn:")
    then arn s
    else if contains_text s (codes ".amazonaws.com")
    then service s
    else federated s

-- The values of a key of the principal object.
abbrev pub strings_of : Option Value → List Text
strings_of none = []
strings_of (some v) = extract_string_or_array v

unfoldable pub extract_principal_value : Value → PolicyParseResult (List PolicyPrincipal)
unfolding parse_principal_string
extract_principal_value (string s) = ok (parse_principal_string s ∷ [])
extract_principal_value (object obj) = ok (
    map parse_principal_string (strings_of (get (codes "AWS") obj))
    ++ (map service (strings_of (get (codes "Service") obj))
        ++ map federated (strings_of (get (codes "Federated") obj))))
extract_principal_value (array items) = ok (map parse_principal_string (only_strings items))
extract_principal_value _ = err (invalid_statement (codes "Principal must be a string or object"))

abbrev pub statement_principals : Option Value → PolicyParseResult (List PolicyPrincipal)
statement_principals none = ok []
statement_principals (some principal_value) = extract_principal_value principal_value

-- The loop over the statements.
unfoldable pub all_principals : Items → PolicyParseResult (List PolicyPrincipal)
unfolding extract_principal_value
all_principals nil = ok []
all_principals (cons stmt rest) = do
  stmt_obj ← ok_or (as_object stmt) (invalid_statement (codes "statement must be an object"))
  principals ← statement_principals (get (codes "Principal") stmt_obj)
  later ← all_principals rest
  ok (principals ++ later)

module _ (from_str : Text → Result Text Value) (debug : PolicyPrincipal → Text) where
  unfoldable pub extract_principals_from_json : Text → PolicyParseResult (List PolicyPrincipal)
  unfolding all_principals
  extract_principals_from_json policy_json = do
    value ← map_err invalid_json (from_str policy_json)
    obj ← ok_or (as_object value) (missing_field (codes "root must be an object"))
    statements ←
        ok_or (Options.◌>>=◌ (get (codes "Statement") obj) as_array)
          (missing_field (codes "Statement"))
    principals ← all_principals statements
    ok (dedup principal_eq (sort_by (λ a b. text_compare (debug a) (debug b)) principals))

  unfoldable pub parse_resource_policy : Text → Text → Text → PolicyParseResult ResourcePolicy
  unfolding extract_principals_from_json
  parse_resource_policy policy_json resource_arn service_type = do
    policy ← parse_policy from_str policy_json
    principals ← extract_principals_from_json policy_json
    ok (record {
      resource_arn = resource_arn;
      service_type = service_type;
      policy = policy;
      principals = principals;
    })

-- A principal is read as a wildcard exactly if it is a star.
pub is_wildcard-parse_iff :
    (s : Text) → (is_wildcard (parse_principal_string s) ≡ true) ↔ (s ≡ codes "*")
unfolding parse_principal_string
is_wildcard-parse_iff s = ground (arith, text_eq_iff s (codes "*"))

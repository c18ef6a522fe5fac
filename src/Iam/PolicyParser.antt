-- ===== src/Iam/PolicyParser.antt =====
-- The policy parser: crates/activable-iam-engine/src/policy_parser.rs, with the errors of
-- src/error.rs. The text-to-value step, `serde_json::from_str`, is a parameter.
pub mod WellFormed
pub mod RoundTrip
use activable_cloud.Prelude.{
  ℕ, zero, suc, ◌+◌, ◌/◌, ◌%◌, Bool, true, false, not, ◌&&◌, List, [], ◌∷◌, ◌++◌, Option, none,
  some, Text, codes, text_eq, is_empty, if◌then◌else◌, ltb,
}
use activable_cloud.Prelude.Errors.{Result, ok, err, ◌>>=◌, ok_or, map_err}
use activable_cloud.Prelude.Decimal.{decimal}
use activable_cloud.Json.{
  Value, null, boolean, number, string, array, object, Items, nil, cons, Fields, end, field,
  as_object, as_array, as_str, get,
}
use activable_cloud.Iam.Types.{
  Effect, allow, deny, ActionPattern, ResourcePattern, Condition, PolicyStatement, ParsedPolicy,
}

-- `invalid_json` holds the message of serde_json's error.
pub data PolicyParseError : Type 0 where
  invalid_json : Text → PolicyParseError
  missing_field : Text → PolicyParseError
  invalid_effect : Text → PolicyParseError
  action_and_not_action_together : PolicyParseError
  resource_and_not_resource_together : PolicyParseError
  invalid_statement : Text → PolicyParseError

-- The messages of `#[error(…)]`.
unfoldable pub error_text : PolicyParseError → Text
error_text (invalid_json e) = codes "invalid JSON: " ++ e
error_text (missing_field s) = codes "missing required field: " ++ s
error_text (invalid_effect s) =
    codes "invalid effect value: " ++ s ++ codes ". Must be 'Allow' or 'Deny'"
error_text action_and_not_action_together =
    codes "mutually exclusive: both Action and NotAction present in same statement"
error_text resource_and_not_resource_together =
    codes "mutually exclusive: both Resource and NotResource present in same statement"
error_text (invalid_statement s) = codes "invalid statement: " ++ s

abbrev pub PolicyParseResult : Type 0 → Type 0
PolicyParseResult A = Result PolicyParseError A

-- The loops over array items: each has to be a string, or `message` says what is wrong.
unfoldable pub parse_strings : Text → Items → PolicyParseResult (List Text)
parse_strings message nil = ok []
parse_strings message (cons (string s) items) = do ss ← parse_strings message items; ok (s ∷ ss)
parse_strings message (cons _ items) = err (invalid_statement message)

unfoldable pub parse_action_field : Option Value → PolicyParseResult (List ActionPattern)
parse_action_field none = ok []
parse_action_field (some (string s)) = ok (s ∷ [])
parse_action_field (some (array arr)) =
    parse_strings (codes "Action array items must be strings") arr
parse_action_field (some _) = err (invalid_statement (codes "Action must be a string or array"))

unfoldable pub parse_resource_field : Option Value → PolicyParseResult (List ResourcePattern)
parse_resource_field none = ok []
parse_resource_field (some (string s)) = ok (s ∷ [])
parse_resource_field (some (array arr)) =
    parse_strings (codes "Resource array items must be strings") arr
parse_resource_field (some _) = err (invalid_statement (codes "Resource must be a string or array"))

-- The `match values` of one condition key.
unfoldable pub parse_condition_values : Value → PolicyParseResult (List Text)
parse_condition_values (string s) = ok (s ∷ [])
parse_condition_values (array arr) =
    parse_strings (codes "Condition values must be strings or arrays of strings") arr
parse_condition_values _ =
    err (invalid_statement (codes "Condition values must be strings or arrays"))

-- `for (key, values) in cond_obj`: the conditions of one operator, in front of those that follow.
unfoldable pub parse_condition_keys : Text → Fields → PolicyParseResult (List Condition)
parse_condition_keys operator end = ok []
parse_condition_keys operator (field key values fields) = do
  value_list ← parse_condition_values values
  conditions ← parse_condition_keys operator fields
  ok (record { operator = operator; key = key; values = value_list } ∷ conditions)

-- `for (operator, condition_block) in operators`.
unfoldable pub parse_operators : Fields → PolicyParseResult (List Condition)
parse_operators end = ok []
parse_operators (field operator (object cond_obj) operators) = do
  conditions ← parse_condition_keys operator cond_obj
  more ← parse_operators operators
  ok (conditions ++ more)
parse_operators (field operator _ operators) =
    err (invalid_statement (codes "Condition operator value must be an object"))

unfoldable pub parse_conditions : Option Value → PolicyParseResult (List Condition)
parse_conditions none = ok []
parse_conditions (some (object operators)) = parse_operators operators
parse_conditions (some _) = err (invalid_statement (codes "Condition must be an object"))

-- `obj.get(key).and_then(|v| v.as_str())`.
abbrev pub get_str : Text → Fields → Option Text
get_str key fields = elim (get key fields) [ none ↦ none | some v ↦ as_str v ]

unfoldable pub parse_effect : Text → PolicyParseResult Effect
parse_effect effect_str =
    if text_eq effect_str (codes "Allow")
    then ok allow
    else if text_eq effect_str (codes "Deny")
    then ok deny
    else err (invalid_effect effect_str)

-- One of the two lists has to hold something, and not both.
unfoldable pub check_exclusive :
    List Text → List Text → PolicyParseError → Text → PolicyParseResult (Unit {0})
check_exclusive patterns not_patterns together missing =
    if not (is_empty patterns) && not (is_empty not_patterns)
    then err together
    else if is_empty patterns && is_empty not_patterns
    then err (invalid_statement missing)
    else ok tt

unfoldable pub parse_statement_fields : Fields → PolicyParseResult PolicyStatement
parse_statement_fields obj = do
  effect_str ← ok_or (get_str (codes "Effect") obj) (missing_field (codes "Effect"))
  effect ← parse_effect effect_str
  actions ← parse_action_field (get (codes "Action") obj)
  not_actions ← parse_action_field (get (codes "NotAction") obj)
  _ ←
      check_exclusive actions not_actions action_and_not_action_together
        (codes "must have Action or NotAction")
  resources ← parse_resource_field (get (codes "Resource") obj)
  not_resources ← parse_resource_field (get (codes "NotResource") obj)
  _ ←
      check_exclusive resources not_resources resource_and_not_resource_together
        (codes "must have Resource or NotResource")
  conditions ← parse_conditions (get (codes "Condition") obj)
  ok (record {
    sid = get_str (codes "Sid") obj;
    effect = effect;
    actions = actions;
    not_actions = not_actions;
    resources = resources;
    not_resources = not_resources;
    conditions = conditions;
  })

unfoldable pub parse_statement : Value → PolicyParseResult PolicyStatement
parse_statement value = do
  obj ← ok_or (as_object value) (invalid_statement (codes "statement must be an object"))
  parse_statement_fields obj

-- `Statement[{idx}]: {e}`.
abbrev pub at_index : ℕ → PolicyParseError → PolicyParseError
at_index idx e =
    invalid_statement (codes "Statement[" ++ decimal idx ++ codes "]: " ++ error_text e)

-- `for (idx, stmt_value) in statements_array.iter().enumerate()`.
unfoldable pub parse_statements : ℕ → Items → PolicyParseResult (List PolicyStatement)
parse_statements idx nil = ok []
parse_statements idx (cons stmt_value items) = do
  stmt ← map_err (at_index idx) (parse_statement stmt_value)
  statements ← parse_statements (idx + 1) items
  ok (stmt ∷ statements)

-- From the parsed value on.
unfoldable pub parse_policy_value : Value → PolicyParseResult ParsedPolicy
parse_policy_value value = do
  obj ← ok_or (as_object value) (missing_field (codes "root must be an object"))
  version ← ok_or (get_str (codes "Version") obj) (missing_field (codes "Version"))
  statements_value ← ok_or (get (codes "Statement") obj) (missing_field (codes "Statement"))
  statements_array ←
      ok_or (as_array statements_value) (invalid_statement (codes "Statement must be an array"))
  statements ← parse_statements 0 statements_array
  ok (record { version = version; statements = statements })

unfoldable pub parse_policy : (Text → Result Text Value) → Text → PolicyParseResult ParsedPolicy
parse_policy from_str json = do
  value ← map_err invalid_json (from_str json)
  parse_policy_value value

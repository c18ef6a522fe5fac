-- ===== src/Ingest/Access.antt =====
-- Access by resource policies: the parser, the nodes of principals and the edges of
-- crates/activable-ingest/src/native/resource_policy.rs, principal.rs and access_edges.rs, with the
-- sentinel of sentinel.rs. `serde_json::from_str` is a parameter. Objects that are written have their
-- entries in the order of their keys, as a map of serde_json has them.
pub mod Closed
pub mod Sound
use activable_cloud.Prelude.{
  ℕ, zero, suc, ◌<◌, Bool, true, false, not, ◌&&◌, ◌||◌, List, [], ◌∷◌, ◌++◌, map, Option, none,
  some, Text, codes, text_eq, contains_char, is_empty, get_elem?, length, if◌then◌else◌, ltb,
}
use activable_cloud.Prelude.Errors.{Result, ok, err}
use activable_cloud.Prelude.Options.{◌>>=◌}
use activable_cloud.Prelude.Split.{split, contains_text}
use activable_cloud.Json.{
  Value, null, boolean, number, string, array, object, Items, nil, cons, Fields, end, field,
  as_array, as_object, as_str, get_in, strings, extract_string_or_array,
}

pub record ParsedStatement : Type 0 where
  pub effect : Text
  pub principals : List Text
  pub actions : List Text
  pub condition_keys : List Text
  pub wildcard_principal : Bool

abbrev pub wildcard_principal_id : Text
wildcard_principal_id = codes "*"

-- The principals that were pushed so far, and whether one of them is a star.
abbrev pub Found : Type 0
Found = List Text × Bool

abbrev pub push_principal : Found → Text → Found
push_principal (principals, wildcard) s =
    (principals ++ s ∷ [], if text_eq s wildcard_principal_id then true else wildcard)

-- The loop over the strings of an array.
unfoldable pub push_items : Found → Items → Found
push_items found nil = found
push_items found (cons (string s) rest) = push_items (push_principal found s) rest
push_items found (cons _ rest) = push_items found rest

abbrev pub push_value : Found → Value → Found
push_value found (string s) = push_principal found s
push_value found (array items) = push_items found items
push_value found _ = found

-- The loop over the kinds of principals.
unfoldable pub push_fields : Found → Fields → Found
push_fields found end = found
push_fields found (field key v rest) = push_fields (push_value found v) rest

unfoldable pub find_principals : Option Value → Found
unfolding push_fields push_items
find_principals (some (object obj)) = push_fields ([], false) obj
find_principals (some v) = push_value ([], false) v
find_principals none = ([], false)

abbrev pub find_actions : Option Value → List Text
find_actions none = []
find_actions (some v) = extract_string_or_array v

-- The keys of the nested objects of `Condition`.
abbrev pub keys_of : Fields → List Text
keys_of end = []
keys_of (field key v rest) = key ∷ keys_of rest

abbrev pub nested_keys : Fields → List Text
nested_keys end = []
nested_keys (field operator (object keys_map) rest) = keys_of keys_map ++ nested_keys rest
nested_keys (field operator _ rest) = nested_keys rest

abbrev pub find_condition_keys : Option Fields → List Text
find_condition_keys none = []
find_condition_keys (some condition_obj) = nested_keys condition_obj

abbrev pub effect_of : Option Text → Text
effect_of none = codes "Allow"
effect_of (some e) = e

-- The body of the loop: what a statement pushes.
unfoldable pub parse_statement : Value → List ParsedStatement
unfolding find_principals
parse_statement stmt =
    let effect = effect_of (get_in (codes "Effect") stmt >>= as_str) in
    let (principals, wildcard_principal) = find_principals (get_in (codes "Principal") stmt) in
    let actions = find_actions (get_in (codes "Action") stmt) in
    let condition_keys = find_condition_keys (get_in (codes "Condition") stmt >>= as_object) in
    if text_eq effect (codes "Deny")
    then []
    else if not (is_empty principals) && not (is_empty actions)
    then record {
      effect = effect;
      principals = principals;
      actions = actions;
      condition_keys = condition_keys;
      wildcard_principal = wildcard_principal;
    }
      ∷ []
    else []

unfoldable pub parse_statements : Items → List ParsedStatement
unfolding parse_statement
parse_statements nil = []
parse_statements (cons stmt rest) = parse_statement stmt ++ parse_statements rest

abbrev pub statements_in : Option Items → List ParsedStatement
statements_in none = []
statements_in (some stmt_array) = parse_statements stmt_array

-- What is done with a text that was read.
abbrev pub read_policy : Result Text Value → Result Text (List ParsedStatement)
read_policy (err e) = err e
read_policy (ok policy) = ok (statements_in (get_in (codes "Statement") policy >>= as_array))

unfoldable pub parse_resource_policy :
    (Text → Result Text Value) → Text → Result Text (List ParsedStatement)
unfolding parse_statements
parse_resource_policy from_str policy_doc = read_policy (from_str policy_doc)

-- The last of the parts of a text, as `rsplit(c).next()` gives it.
abbrev pub last_part : Text → List Text → Text
last_part s [] = s
last_part s (part ∷ []) = part
last_part s (part ∷ next ∷ rest) = last_part s (next ∷ rest)

abbrev pub principal_type : Text → Text
principal_type principal_arn =
    if contains_text principal_arn (codes ".amazonaws.com")
    then codes "Service"
    else if contains_text principal_arn (codes ":root")
    then codes "AccountRoot"
    else if contains_text principal_arn (codes ":role/")
    then codes "Role"
    else if contains_text principal_arn (codes ":user/")
    then codes "User"
    else codes "Principal"

abbrev pub account_or_zeros : Option Text → Text
account_or_zeros none = codes "000000000000"
account_or_zeros (some account) = account

unfoldable pub build_principal_node : Text → Text → Value
unfolding split contains_text
build_principal_node principal_arn caller_account_id =
    let account_id = account_or_zeros (get_elem? (split b':' principal_arn) 4) in
    let is_service = contains_text principal_arn (codes ".amazonaws.com") in
    let is_external = not is_service && not (text_eq account_id caller_account_id) in
    let name =
      if contains_char b'/' principal_arn
      then last_part principal_arn (split b'/' principal_arn)
      else last_part principal_arn (split b':' principal_arn) in
    object (
      field (codes "account_id") (string account_id) (
        field (codes "external") (boolean is_external) (
          field (codes "id") (string principal_arn) (
            field (codes "name") (string name) (
              field (codes "principal_type") (string (principal_type principal_arn))
                (field (codes "service") (boolean is_service) end))))))

abbrev pub take {ℓ} : {A : Type ℓ} → ℕ → List A → List A
take zero xs = []
take (suc n) [] = []
take (suc n) (x ∷ xs) = x ∷ take n xs

-- An edge: its ends and its properties.
abbrev pub AccessEdge : Type 0
AccessEdge = Text × Text × Value

abbrev pub keys_field : ParsedStatement → Fields → Fields
keys_field stmt rest = field (codes "condition_keys") (array (strings stmt.condition_keys)) rest

abbrev pub explicit_edge : Text → ParsedStatement → Text → AccessEdge
explicit_edge resource_arn stmt principal = (resource_arn, principal, object (keys_field stmt end))

abbrev pub wildcard_edge : Text → ParsedStatement → AccessEdge
wildcard_edge resource_arn stmt = (
  resource_arn,
  wildcard_principal_id,
  object (keys_field stmt (field (codes "wildcard_principal") (boolean true) end)),
)

abbrev pub cap_edge : Text → ParsedStatement → AccessEdge
cap_edge resource_arn stmt = (
  resource_arn,
  wildcard_principal_id,
  object (field (codes "cap_exceeded") (boolean true) (keys_field stmt end)),
)

-- What a statement pushes: edges, and the principals whose nodes are pushed.
unfoldable pub statement_edges : Text → ParsedStatement → List AccessEdge × List Text
statement_edges resource_arn stmt =
    let first = take 49 stmt.principals in
    if stmt.wildcard_principal
    then (wildcard_edge resource_arn stmt ∷ [], [])
    else if ltb 50 (length stmt.principals)
    then (map (explicit_edge resource_arn stmt) first ++ cap_edge resource_arn stmt ∷ [], first)
    else (map (explicit_edge resource_arn stmt) stmt.principals, stmt.principals)

unfoldable pub build_access_edges :
    Text → List ParsedStatement → Text → List AccessEdge × List Value
unfolding statement_edges build_principal_node
build_access_edges resource_arn [] caller_account_id = ([], [])
build_access_edges resource_arn (stmt ∷ rest) caller_account_id =
    let (edges, principals) = statement_edges resource_arn stmt in
    let (later_edges, later_nodes) = build_access_edges resource_arn rest caller_account_id in
    (
      edges ++ later_edges,
      map (λ principal. build_principal_node principal caller_account_id) principals ++ later_nodes,
    )

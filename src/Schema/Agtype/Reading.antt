-- ===== src/Schema/Agtype/Reading.antt =====
-- What the `try_from` functions of crates/activable-schema/src/serde_agtype.rs share: reading the
-- fields of a JSON object.
use activable_cloud.Prelude.{
  Bool, Option, none, some, List, [], ◌∷◌, ◌++◌, Text, codes, if◌then◌else◌,
}
use activable_cloud.Prelude.Errors.{Result, ok, err, ◌>>=◌, ok_or, map_err}
use activable_cloud.Prelude.Options
use activable_cloud.Json.{
  Value, null, string, Items, nil, cons, Fields, as_object, as_array, as_str, as_bool, get,
}
use activable_cloud.Schema.Arn.{parse}
use activable_cloud.Schema.Properties.{CommonProperties}

-- `obj.get(key).and_then(|v| v.as_str())`.
abbrev pub text_of : Text → Fields → Option Text
text_of key obj = Options.◌>>=◌ (get key obj) as_str

abbrev pub missing : Text → Text
missing key = codes "Missing or invalid '" ++ (key ++ codes "' field")

-- A field that must be there, and be a string.
abbrev pub text_field : Text → Fields → Result Text Text
text_field key obj = ok_or (text_of key obj) (missing key)

abbrev pub bool_field : Text → Fields → Result Text Bool
bool_field key obj = ok_or (Options.◌>>=◌ (get key obj) as_bool) (missing key)

-- The map over the entries, collected into a `Result`: the first one that is not a string fails.
abbrev pub collect : Text → Items → Result Text (List Text)
collect failure nil = ok []
collect failure (cons v items) = do
  s ← ok_or (as_str v) failure
  rest ← collect failure items
  ok (s ∷ rest)

abbrev pub array_field : Text → Text → Fields → Result Text (List Text)
array_field key failure obj = do
  items ← ok_or (Options.◌>>=◌ (get key obj) as_array) (missing key)
  collect failure items

-- The common properties are read first, in this order.
unfoldable pub common_from : Fields → Result Text CommonProperties
common_from obj = do
  id_str ← text_field (codes "id") obj
  id ← map_err (λ e. codes "Invalid ARN: " ++ e) (parse id_str)
  ingest_run_id ← text_field (codes "ingest_run_id") obj
  ingested_at ← text_field (codes "ingested_at") obj
  ok (record { id = id; ingest_run_id = ingest_run_id; ingested_at = ingested_at })

abbrev pub conditions_text : (Value → Text) → Value → Option Text
conditions_text to_string null = none
conditions_text to_string (string s) = some s
conditions_text to_string v = some (to_string v)

-- What each `try_from` does around the fields: the check of the label, and the object.
unfoldable pub try_from :
    {P : Type 0} → Bool → Text → (Fields → Result Text P) → Value → Result Text P
try_from expected name read value =
    if expected
    then (do obj ← ok_or (as_object value) (codes "Value must be a JSON object"); read obj)
    else err (codes "Expected NodeLabel::" ++ name)

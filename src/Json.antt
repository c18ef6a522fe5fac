-- ===== src/Json.antt =====
-- The values of serde_json that the program reads and writes: `Value`, its accessors, and
-- `Map::get`. A map is the list of its entries, in the order of iteration.
use activable_cloud.Prelude.{Bool, Option, none, some, Text, text_eq, if◌then◌else◌, List, [], ◌∷◌}

mutual
  pub data Value : Type 0 where
    null : Value
    boolean : Bool → Value
    number : Text → Value
    string : Text → Value
    array : Items → Value
    object : Fields → Value

  pub data Items : Type 0 where
    nil : Items
    cons : Value → Items → Items

  pub data Fields : Type 0 where
    end : Fields
    field : Text → Value → Fields → Fields

abbrev pub as_object : Value → Option Fields
as_object (object fields) = some fields
as_object _ = none

abbrev pub as_array : Value → Option Items
as_array (array items) = some items
as_array _ = none

abbrev pub as_str : Value → Option Text
as_str (string s) = some s
as_str _ = none

abbrev pub as_bool : Value → Option Bool
as_bool (boolean b) = some b
as_bool _ = none

abbrev pub get : Text → Fields → Option Value
get key end = none
get key (field k v fields) = if text_eq k key then some v else get key fields

-- `Value::get`: nothing where the value is no object.
abbrev pub get_in : Text → Value → Option Value
get_in key (object fields) = get key fields
get_in key _ = none

-- A list of texts as an array of strings.
abbrev pub strings : List Text → Items
strings [] = nil
strings (s ∷ ss) = cons (string s) (strings ss)

-- The strings of an array; other values are skipped.
abbrev pub only_strings : Items → List Text
only_strings nil = []
only_strings (cons v items) = elim (as_str v) [
  | none ↦ only_strings items
  | some s ↦ s ∷ only_strings items
]

-- A string or an array of strings, which three modules read alike.
abbrev pub extract_string_or_array : Value → List Text
extract_string_or_array (string s) = s ∷ []
extract_string_or_array (array items) = only_strings items
extract_string_or_array _ = []

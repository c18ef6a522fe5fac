-- ===== src/Ingest/Permissions.antt =====
-- Effective permissions from the policies of a principal: the parsing and merging of
-- crates/activable-ingest/src/native/permissions.rs. `serde_json::from_str` is a parameter; the texts
-- of the log are left out.
pub mod Merged
use activable_cloud.Prelude.{
  ℕ, ◌+◌, ◌%◌, ◌^◌, Bool, true, false, not, ◌&&◌, ◌||◌, List, [], ◌∷◌, ◌++◌, map, Option, none,
  some, Text, codes, text_eq, is_empty, any, keep, flat_map, if◌then◌else◌,
}
use activable_cloud.Prelude.Errors.{Result, ok, err}
use activable_cloud.Prelude.Options.{◌>>=◌}
use activable_cloud.Json.{
  Value, null, boolean, number, string, array, object, Items, nil, cons, Fields, as_array, as_str,
  get, get_in, extract_string_or_array,
}

-- An action and a resource.
abbrev pub Pair : Type 0
Pair = Text × Text

abbrev pub pair_eq : Pair → Pair → Bool
pair_eq (a, r) (b, s) = text_eq a b && text_eq r s

-- What the two loops over actions and resources push.
abbrev pub product : List Text → List Text → List Pair
product actions resources = flat_map (λ a. map (λ r. (a, r)) resources) actions

abbrev pub strings_of : Option Value → List Text
strings_of none = []
strings_of (some v) = extract_string_or_array v

abbrev pub statement_pairs : Value → List Pair
statement_pairs statement =
    product (strings_of (get_in (codes "Action") statement))
      (strings_of (get_in (codes "Resource") statement))

abbrev pub effect_of : Value → Option Text
effect_of statement = get_in (codes "Effect") statement >>= as_str

-- A policy value that may be a text in JSON, and nothing where that is no JSON or the value is null.
abbrev pub read_text : Result Text Value → Option Value
read_text (ok parsed) = some parsed
read_text (err e) = none

unfoldable pub policies_in : (Text → Result Text Value) → Value → Option Value
policies_in from_str (string json_str) = read_text (from_str json_str)
policies_in from_str null = none
policies_in from_str other = some other

-- The statements of a policy, which is an object with its document as a text.
abbrev pub items_of : Option Items → Items
items_of none = nil
items_of (some items) = items

abbrev pub document_of : Value → Option Text
document_of (object policy) = get (codes "document") policy >>= as_str
document_of _ = none

unfoldable pub document_statements : (Text → Result Text Value) → Value → Items
document_statements from_str policy = items_of (
    document_of policy >>= λ doc_str.
    read_text (from_str doc_str) >>= λ doc. get_in (codes "Statement") doc >>= as_array)

-- The two settings of the enricher.
pub record PermissionsEnricher : Type 0 where
  pub skip_deny : Bool
  pub warn_on_conditions : Bool

abbrev pub new_enricher : PermissionsEnricher
new_enricher = record { skip_deny = true; warn_on_conditions = true }

-- The counters, of type `u32`.
pub record Skipped : Type 0 where
  pub skipped_deny : ℕ
  pub skipped_conditions : ℕ

abbrev pub is_deny : Value → Bool
is_deny statement = elim (effect_of statement) [ none ↦ false | some e ↦ text_eq e (codes "Deny") ]

abbrev pub has_condition : Value → Bool
has_condition statement = elim (get_in (codes "Condition") statement) [
  | none ↦ false
  | some c ↦ true
]

abbrev pub count_deny : Value → Skipped → Skipped
count_deny statement c =
    if is_deny statement then record c { skipped_deny = (c.skipped_deny + 1) % 2 ^ 32 } else c

abbrev pub count_conditions : Value → Skipped → Skipped
count_conditions statement c =
    if has_condition statement
    then record c { skipped_conditions = (c.skipped_conditions + 1) % 2 ^ 32 }
    else c

-- The loop over the statements of a document.
unfoldable pub extract_statements : Bool → Items → Skipped → List Pair × Skipped
extract_statements skip_deny nil counters = ([], counters)
extract_statements skip_deny (cons statement rest) counters =
    let counted = count_deny statement counters in
    let skipped = extract_statements skip_deny rest counted in
    let (later, after) = extract_statements skip_deny rest (count_conditions statement counted) in
    if is_deny statement && skip_deny then skipped else (statement_pairs statement ++ later, after)

-- The loop over the policies.
unfoldable pub extract_policies :
    (Text → Result Text Value) → Bool → Items → Skipped → List Pair × Skipped
unfolding extract_statements document_statements
extract_policies from_str skip_deny nil counters = ([], counters)
extract_policies from_str skip_deny (cons policy rest) counters =
    let (first, between) =
      extract_statements skip_deny (document_statements from_str policy) counters in
    let (later, after) = extract_policies from_str skip_deny rest between in (first ++ later, after)

-- An answer without permissions is `None`.
abbrev pub non_empty : List Pair → Option (List Pair)
non_empty [] = none
non_empty (p ∷ ps) = some (p ∷ ps)

abbrev pub extract_from :
    (Text → Result Text Value) → Bool → Option Value → Skipped → Option (List Pair) × Skipped
extract_from from_str skip_deny (some (array policies)) counters =
    let (results, after) = extract_policies from_str skip_deny policies counters in
    (non_empty results, after)
extract_from from_str skip_deny _ counters = (none, counters)

unfoldable pub parse_and_extract_permissions :
    (Text → Result Text Value) → Value → Bool → Skipped → Option (List Pair) × Skipped
unfolding policies_in extract_policies
parse_and_extract_permissions from_str policies_value skip_deny counters =
    extract_from from_str skip_deny (policies_in from_str policies_value) counters

-- A statement that says another effect than Allow is passed over.
abbrev pub is_not_allow : Value → Bool
is_not_allow statement = elim (effect_of statement) [
  | none ↦ false
  | some e ↦ not (text_eq e (codes "Allow"))
]

abbrev pub allowed_pairs : Items → List Pair
allowed_pairs nil = []
allowed_pairs (cons statement rest) =
    let later = allowed_pairs rest in
    if is_not_allow statement then later else statement_pairs statement ++ later

abbrev pub allowed_policies : (Text → Result Text Value) → Items → List Pair
allowed_policies from_str nil = []
allowed_policies from_str (cons policy rest) =
    allowed_pairs (document_statements from_str policy) ++ allowed_policies from_str rest

abbrev pub allowed_in : (Text → Result Text Value) → Option Value → List Pair
allowed_in from_str (some (object boundary)) =
    allowed_pairs (document_statements from_str (object boundary))
allowed_in from_str (some (array policies)) = allowed_policies from_str policies
allowed_in from_str _ = []

-- The set as a list: only membership and emptiness are asked.
unfoldable pub parse_and_extract_permissions_only_allow :
    (Text → Result Text Value) → Value → List Pair
unfolding policies_in document_statements
parse_and_extract_permissions_only_allow from_str policies_value =
    allowed_in from_str (policies_in from_str policies_value)

pub record PrincipalPolicies : Type 0 where
  pub principal_id : Text
  pub inline_policies : Value
  pub managed_policies : Value
  pub permissions_boundary : Option Value

-- A map from pairs to sources: an entry that is there is replaced.
abbrev pub Sources : Type 0
Sources = List (Pair × Text)

unfoldable pub insert : Pair → Text → Sources → Sources
insert p source [] = (p, source) ∷ []
insert p source ((q, s) ∷ rest) =
    let later = insert p source rest in if pair_eq q p then (p, source) ∷ rest else (q, s) ∷ later

abbrev pub insert_all : Text → Option (List Pair) → Sources → Sources
insert_all source none sources = sources
insert_all source (some []) sources = sources
insert_all source (some (p ∷ ps)) sources = insert_all source (some ps) (insert p source sources)

abbrev pub survives : List Pair → Pair × Text → Bool
survives boundary (p, s) = any (λ q. pair_eq q p) boundary

abbrev pub marked : Pair × Text → Pair × Text
marked (p, s) = (p, codes "boundary-survived")

-- Step 2: the mask of the boundary, where there is one.
abbrev pub after_boundary : Option (List Pair) → Sources → Sources
after_boundary none sources = sources
after_boundary (some boundary) sources =
    if is_empty boundary then [] else map marked (keep (survives boundary) sources)

abbrev pub boundary_of : (Text → Result Text Value) → Option Value → Option (List Pair)
boundary_of from_str none = none
boundary_of from_str (some v) = some (parse_and_extract_permissions_only_allow from_str v)

-- Steps 1 and 2 for one principal, with the counters.
unfoldable pub principal_permissions :
    (Text → Result Text Value)
    → PermissionsEnricher
    → PrincipalPolicies
    → Skipped
    → Sources × Skipped
unfolding parse_and_extract_permissions parse_and_extract_permissions_only_allow insert
principal_permissions from_str enricher principal counters =
    let (inline, c1) =
      parse_and_extract_permissions from_str principal.inline_policies enricher.skip_deny
        counters in
    let (managed, c2) =
      parse_and_extract_permissions from_str principal.managed_policies enricher.skip_deny c1 in
    let effective = insert_all (codes "managed") managed (insert_all (codes "inline") inline []) in
    (after_boundary (boundary_of from_str principal.permissions_boundary) effective, c2)

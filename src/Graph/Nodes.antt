-- ===== src/Graph/Nodes.antt =====
-- Nodes, and how the client reads them in the rows of a query: crates/activable-graph/src/types.rs and
-- the reading of src/client.rs. Rows are a parameter that is read by columns; `trim`,
-- `serde_json::from_str`, `FromStr` and `Value::as_i64` are parameters.
use activable_cloud.Prelude.{
  ℕ, zero, suc, ◌+◌, ◌-◌, Bool, ◌&&◌, ◌||◌, List, [], ◌∷◌, ◌++◌, Option, none, some, Text, codes,
  concat, length, starts_with, is_empty, if◌then◌else◌, ◌==◌,
}
use activable_cloud.Prelude.Errors.{Result, ok, err, map_err, ◌>>=◌}
use activable_cloud.Prelude.Options
use activable_cloud.Prelude.Decimal.{decimal}
use activable_cloud.Prelude.Split.{split, ends_with}
use activable_cloud.Json.{Value, null, string, Fields, get}
use activable_cloud.Graph.Errors.{GraphError, parse, not_found}

pub record NodeRef : Type 0 where
  pub id : Text
  pub label : Text

pub record Node : Type 0 where
  pub reference : NodeRef
  pub properties : Value

pub record GraphPath : Type 0 where
  pub nodes : List NodeRef
  pub edge_labels : List Text

pub record Subgraph : Type 0 where
  pub center : NodeRef
  pub nodes : List NodeRef

abbrev path_length : GraphPath → ℕ
path_length path = length path.nodes - 1

-- A row: the text of a column, which may be NULL, or be read as bytes.
pub record Columns (R : Type 0) : Type 0 where
  pub try_get : R → ℕ → Result Text Text
  pub try_get_option : R → ℕ → Result Text (Option Text)
  pub try_get_bytes : R → ℕ → Result Text Text

-- `trim_matches`: the characters of the set are taken off both ends.
abbrev pub trim_start_matches : (ℕ → Bool) → Text → Text
trim_start_matches p [] = []
trim_start_matches p (c ∷ s) = if p c then trim_start_matches p s else c ∷ s

abbrev pub trim_end_matches : (ℕ → Bool) → Text → Text
trim_end_matches p [] = []
trim_end_matches p (c ∷ s) =
    let rest = trim_end_matches p s in if is_empty rest && p c then [] else c ∷ rest

unfoldable pub trim_matches : (ℕ → Bool) → Text → Text
trim_matches p s = trim_end_matches p (trim_start_matches p s)

abbrev pub is_quote : ℕ → Bool
is_quote c = c == b'"'

-- The text in front of the first comma.
abbrev pub first_of_split : List Text → Option Text
first_of_split [] = none
first_of_split (s ∷ _) = some s

abbrev pub label_in : Option Text → Option Text
label_in none = none
label_in (some first) =
    let label = trim_matches is_quote first in if is_empty label then none else some label

unfoldable pub extract_first_label : Text → Option Text
unfolding trim_matches split
extract_first_label labels_str =
    let trimmed = trim_matches (λ c. c == b'[' || c == b']' || c == b' ') labels_str in
    if is_empty trimmed then none else label_in (first_of_split (split b',' trimmed))

abbrev pub label_or_unknown : Option Text → Text
label_or_unknown none = codes "Unknown"
label_or_unknown (some label) = label

-- `collect::<Result<Vec<_>, _>>`.
abbrev pub collect {ℓ} :
    {A : Type ℓ} {B : Type 0} → (A → Result GraphError B) → List A → Result GraphError (List B)
collect f [] = ok []
collect f (x ∷ xs) = f x >>= λ y. collect f xs >>= λ ys. ok (y ∷ ys)

-- The numbers below a bound.
abbrev pub range_from : ℕ → ℕ → List ℕ
range_from start zero = []
range_from start (suc n) = start ∷ range_from (start + 1) n

-- `&s[1..s.len() - 1]`, which panics on a text of one character: `none` is a panic.
abbrev pub without_last : Text → Text
without_last [] = []
without_last (c ∷ []) = []
without_last (c ∷ d ∷ s) = c ∷ without_last (d ∷ s)

abbrev pub inner_of : Text → Option Text
inner_of (c ∷ d ∷ s) = some (without_last (d ∷ s))
inner_of _ = none

abbrev pub is_quoted : Text → Bool
is_quoted s =
    starts_with s (codes "\"") && ends_with s (codes "\"")
    || starts_with s (codes "'") && ends_with s (codes "'")

module _ {T : Type 0} (trim : Text → Text) (parse_text : Text → Option T)
    (from_str : Text → Option Fields) (as_i64 : Value → Option Text) (type_name : Text) where
  -- The fields of an object that are tried in turn.
  abbrev first_field : List Text → Fields → Option T
  first_field [] obj = none
  first_field (name ∷ names) obj =
      let later = first_field names obj in
      elim (Options.◌>>=◌ (Options.◌>>=◌ (get name obj) as_i64) parse_text) [
        | some val ↦ some val
        | none ↦ later
      ]

  abbrev in_object : Text → Option T
  in_object trimmed =
      if starts_with trimmed (codes "{") && ends_with trimmed (codes "}")
      then Options.◌>>=◌ (from_str trimmed)
          (first_field (codes "value" ∷ codes "result" ∷ codes "count" ∷ codes "count(*)" ∷ []))
      else none

  -- What is tried last, with the error where nothing was read.
  abbrev object_or_error : Text → Text → Result GraphError T
  object_or_error raw trimmed = elim (in_object trimmed) [
    | some val ↦ ok val
    | none ↦ err (
        parse (
          concat (
            codes "Failed to parse agtype scalar to "
            ∷ type_name
            ∷ codes ": '"
            ∷ raw
            ∷ codes "'"
            ∷ [])))
  ]

  abbrev in_quotes : Text → Text → Option (Result GraphError T)
  in_quotes raw trimmed = elim (inner_of trimmed) [
    | none ↦ none
    | some inner ↦ elim (parse_text (trim inner)) [
      | some val ↦ some (ok val)
      | none ↦ some (object_or_error raw trimmed)
    ]
  ]

  -- The number or the text of a scalar; `none` is a panic.
  unfoldable pub parse_agtype_scalar : Text → Option (Result GraphError T)
  unfolding ends_with
  parse_agtype_scalar raw =
      let trimmed = trim raw in
      elim (parse_text trimmed) [
        | some val ↦ some (ok val)
        | none ↦
            if is_quoted trimmed then in_quotes raw trimmed else some (object_or_error raw trimmed)
      ]

-- The reading of rows.
module _ {R : Type 0} (columns : Columns R) where
  open columns use {try_get, try_get_option, try_get_bytes}

  abbrev column : R → ℕ → Result GraphError Text
  column row index = map_err parse (try_get row index)

  -- A node whose id and label the database gives in quotes.
  unfoldable pub read_node : (Text → Text) → R → Result GraphError NodeRef
  unfolding trim_matches
  read_node trim row = do
    raw_id ← column row 0
    raw_label ← column row 1
    ok (record {
      id = trim_matches is_quote (trim raw_id);
      label = trim_matches is_quote (trim raw_label);
    })

  -- The id of the first row, under the label that was asked for.
  unfoldable pub read_first : (Text → Text) → Text → List R → Result GraphError (Option NodeRef)
  unfolding trim_matches
  read_first trim label [] = ok none
  read_first trim label (row ∷ _) = do
    raw ← column row 0
    ok (some (record { id = trim_matches is_quote (trim raw); label = label }))

  -- The length in the first row; `parse::<u32>`, with the text of its error, is a parameter.
  unfoldable pub read_length : (Text → Result Text ℕ) → List R → Result GraphError (Option ℕ)
  read_length parse_u32 [] = ok none
  read_length parse_u32 (row ∷ _) = do
    length_str ← column row 0
    length ←
        map_err (λ e. parse (codes "Failed to parse path length: " ++ e)) (parse_u32 length_str)
    ok (some length)

  -- A node of a subgraph, under the first of its labels.
  unfoldable pub read_labelled : R → Result GraphError NodeRef
  unfolding extract_first_label
  read_labelled row = do
    id ← column row 0
    labels ← column row 1
    ok (record { id = id; label = label_or_unknown (extract_first_label labels) })

  module _ (from_str : Text → Result Text Value) where
    -- The loop of `cypher`: rows that hold NULL are skipped.
    unfoldable pub read_values : List R → Result GraphError (List Value)
    read_values [] = ok []
    read_values (row ∷ rows) =
        let later = read_values rows in
        map_err parse (try_get_option row 0) >>= λ agtype_str_opt. elim agtype_str_opt [
          | none ↦ later
          | some agtype_str ↦
              map_err (λ e. parse (codes "Failed to parse agtype: " ++ e)) (from_str agtype_str)
              >>= λ value. later >>= λ results. ok (value ∷ results)
        ]

    -- `serde_json::from_str(&s).unwrap_or(Value::String(s))`.
    abbrev value_or_text : Text → Value
    value_or_text s = elim (from_str s) [ err e ↦ string s | ok value ↦ value ]

    abbrev value_of : Option Text → Value
    value_of none = null
    value_of (some s) = value_or_text s

    abbrev read_column : R → ℕ → Result GraphError Value
    read_column row col_idx =
        map_err
          (λ e.
            parse (concat (codes "Failed to read column " ∷ decimal col_idx ∷ codes ": " ∷ e ∷ [])))
          (try_get_option row col_idx)
        >>= λ agtype_str. ok (value_of agtype_str)

    unfoldable pub read_columns : ℕ → R → Result GraphError (List Value)
    read_columns column_count row = collect (read_column row) (range_from 0 column_count)

    -- The node of the first row.
    unfoldable pub read_properties : NodeRef → List R → Result GraphError Node
    read_properties node_ref [] = err not_found
    read_properties node_ref (row ∷ _) = do
      agtype_str ← map_err parse (try_get_bytes row 0)
      properties ←
          map_err (λ e. parse (codes "Failed to parse node properties: " ++ e))
            (from_str agtype_str)
      ok (record { reference = node_ref; properties = properties })

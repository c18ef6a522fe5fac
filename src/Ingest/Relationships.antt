-- ===== src/Ingest/Relationships.antt =====
-- Rules that connect nodes: crates/activable-ingest/src/relationship.rs. Connections and columns are
-- those of the graph client. `trim`, `parse::<u32>`, `serde_json::from_str`, `Value::as_i64` and
-- `char::is_alphanumeric` are parameters, and so are the rules, which the source reads from a file of
-- the build. `none` is a panic.
pub mod Valid
use activable_cloud.Prelude.{
  ℕ, Bool, true, false, not, ◌||◌, List, [], ◌∷◌, ◌++◌, Text, codes, concat, all, is_empty, ◌==◌,
  if◌then◌else◌, Option, none, some,
}
use mathlib.Core.Option
use activable_cloud.Prelude.Errors.{Result, ok, err, map_err, ◌>>=◌}
use activable_cloud.Ingest.Errors.{IngestError, graph, config, error_text}
use activable_cloud.Json.{Value, Fields}
use activable_cloud.Graph.Errors.{GraphError, graph_error_text}
use activable_cloud.Graph.Nodes.{Columns, parse_agtype_scalar}
use activable_cloud.Graph.Client.{Connections}

pub record RelationshipRule : Type 0 where
  pub name : Text
  pub from_label : Text
  pub to_label : Text
  pub edge_type : Text
  pub from_property : Text
  pub to_property : Text

pub record RelationshipStats : Type 0 where
  pub rule_name : Text
  pub edges_created : ℕ
  pub skipped_rules : List Text

unfoldable pub build_relationship_cypher : Text → RelationshipRule → Text
build_relationship_cypher graph_name rule = concat (
    codes "SELECT * FROM cypher('"
    ∷ graph_name
    ∷ codes "', $$MATCH (f:"
    ∷ rule.from_label
    ∷ codes " ), (t:"
    ∷ rule.to_label
    ∷ codes " ) WHERE f."
    ∷ rule.from_property
    ∷ codes " = t."
    ∷ rule.to_property
    ∷ codes " MERGE (f)-[:"
    ∷ rule.edge_type
    ∷ codes "]->(t) RETURN count(*)::text as edge_count$$) AS (edge_count text)"
    ∷ [])

module _ (is_alphanumeric : ℕ → Bool) where
  abbrev pub is_name_char : ℕ → Bool
  is_name_char c = is_alphanumeric c || c == b'_'

  unfoldable pub validate_property_name : Text → Result IngestError (Unit {0})
  validate_property_name name =
      if is_empty name
      then err (config (codes "property name cannot be empty"))
      else if not (all is_name_char name)
      then err (
          config (
            concat (
              codes "property name '"
              ∷ name
              ∷ codes "' contains invalid characters (only alphanumeric + underscore allowed)"
              ∷ [])))
      else ok tt

  -- The five validations, in their order.
  unfoldable pub validate_rule : RelationshipRule → Result IngestError (Unit {0})
  unfolding validate_property_name
  validate_rule rule = do
    _ ← validate_property_name rule.from_property
    _ ← validate_property_name rule.to_property
    _ ← validate_property_name rule.edge_type
    _ ← validate_property_name rule.from_label
    validate_property_name rule.to_label

-- The parameters of the reading of a count.
pub record CountReading : Type 0 where
  pub trim : Text → Text
  pub parse_u32 : Text → Option ℕ
  pub from_str : Text → Option Fields
  pub as_i64 : Value → Option Text

abbrev pub read_count : CountReading → Text → Option (Result GraphError ℕ)
read_count reading raw =
    parse_agtype_scalar reading.trim reading.parse_u32 reading.from_str reading.as_i64 (codes "u32")
      raw

abbrev pub count_failed : GraphError → IngestError
count_failed e = graph (codes "failed to parse relationship count: " ++ graph_error_text e)

abbrev pub count_in : CountReading → Result IngestError Text → Option (Result IngestError ℕ)
count_in reading (err e) = some (err e)
count_in reading (ok raw) = elim (read_count reading raw) [
  | none ↦ none
  | some count ↦ some (map_err count_failed count)
]

-- The count in the first row, and zero where there is none.
abbrev pub count_of :
    {R : Type 0} → Columns R → CountReading → List R → Option (Result IngestError ℕ)
count_of columns reading [] = some (ok 0)
count_of columns reading (row ∷ _) =
    count_in reading
      (map_err (λ e. graph (codes "failed to read count column: " ++ e)) (columns.try_get row 0))

abbrev pub applied : RelationshipRule → ℕ → RelationshipStats
applied rule count = record { rule_name = rule.name; edges_created = count; skipped_rules = [] }

abbrev pub skipped : RelationshipRule → IngestError → RelationshipStats
skipped rule e = record {
  rule_name = rule.name;
  edges_created = 0;
  skipped_rules = concat (rule.name ∷ codes ": " ∷ error_text e ∷ []) ∷ [];
}

abbrev pub stats_of : RelationshipRule → Result IngestError ℕ → RelationshipStats
stats_of rule (ok count) = applied rule count
stats_of rule (err e) = skipped rule e

module _ {D R : Type 0} (connections : Connections D R) (columns : Columns R)
    (reading : CountReading) (is_alphanumeric : ℕ → Bool) (graph_name : Text) where
  open connections use {get, batch_execute, query}

  -- What is made of the answer of the database.
  abbrev pub on_answer : Result Text (List R) → Option (Result IngestError ℕ)
  on_answer (err e) = some (err (graph (codes "relationship query failed: " ++ e)))
  on_answer (ok rows) = count_of columns reading rows

  abbrev pub run_rule : RelationshipRule → D → Option (Result IngestError ℕ) × D
  run_rule rule d =
      let (answer, after) = query (build_relationship_cypher graph_name rule) d in
      (on_answer answer, after)

  abbrev pub run_valid :
      RelationshipRule → Result IngestError (Unit {0}) → D → Option (Result IngestError ℕ) × D
  run_valid rule (err e) d = (some (err e), d)
  run_valid rule (ok _) d = run_rule rule d

  unfoldable pub apply_single_rule : RelationshipRule → D → Option (Result IngestError ℕ) × D
  unfolding validate_rule build_relationship_cypher
  apply_single_rule rule d = run_valid rule (validate_rule is_alphanumeric rule) d

  -- The loop over the rules, which a panic ends; and the round of one of them.
  abbrev pub continue_with :
      RelationshipRule
      → (D → Option (List RelationshipStats) × D)
      → Option (Result IngestError ℕ) × D
      → Option (List RelationshipStats) × D
  continue_with rule next (none, d) = (none, d)
  continue_with rule next (some outcome, d) =
      let (stats, after) = next d in
      (Option.map (λ rest. stats_of rule outcome ∷ rest) stats, after)

  unfoldable pub apply_rules : List RelationshipRule → D → Option (List RelationshipStats) × D
  unfolding apply_single_rule
  apply_rules [] d = (some [], d)
  apply_rules (rule ∷ rules) d = continue_with rule (apply_rules rules) (apply_single_rule rule d)

  -- A connection with AGE loaded on it.
  abbrev pub age_loaded : Result Text (Unit {0}) × D → Result IngestError (Unit {0}) × D
  age_loaded (err e, d) = (err (graph (codes "pool error: " ++ e)), d)
  age_loaded (ok _, d) =
      let (done, after) =
        batch_execute (codes "LOAD 'age'; SET search_path = ag_catalog, \"$user\", public;") d in
      (map_err (λ e. graph (codes "AGE init error: " ++ e)) done, after)

  abbrev pub apply_all :
      List RelationshipRule
      → Result IngestError (Unit {0}) × D
      → Option (Result IngestError (List RelationshipStats)) × D
  apply_all rules (err e, d) = (some (err e), d)
  apply_all rules (ok _, d) =
      let (stats, after) = apply_rules rules d in (Option.map ok stats, after)

  -- The rules, or the failure to read them, are an argument.
  unfoldable pub apply_relationships :
      Result IngestError (List RelationshipRule)
      → D
      → Option (Result IngestError (List RelationshipStats)) × D
  unfolding apply_rules
  apply_relationships (err e) d = (some (err e), d)
  apply_relationships (ok rules) d = apply_all rules (age_loaded (get d))

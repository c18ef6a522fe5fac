-- ===== src/Graph/Statements.antt =====
-- The statements of the bulk loader: crates/activable-graph/src/loader.rs.
use activable_cloud.Prelude.{
  Bool, true, false, List, [], ◌∷◌, ◌++◌, Option, none, some, Text, codes, text_eq, is_empty, any,
  concat, join, if◌then◌else◌,
}
use activable_cloud.Json.{Value, null, boolean, number, string, Fields, end, field, as_object}
use activable_cloud.Graph.Escape.{escape_sql_literal}

abbrev pub cypher_sql : Text → Text → Text → Text
cypher_sql graph_name cypher returned = concat (
    codes "SELECT * FROM ag_catalog.cypher('"
    ∷ graph_name
    ∷ codes "', $$"
    ∷ cypher
    ∷ codes "$$) AS ("
    ∷ returned
    ∷ codes ")"
    ∷ [])

-- `Display` of a Boolean.
abbrev pub bool_text : Bool → Text
bool_text true = codes "true"
bool_text false = codes "false"

-- The properties of a node: nulls are skipped, arrays and objects are written as JSON texts.
-- `serde_json::to_string` is a parameter, and a property that it fails on is skipped.
abbrev pub property : (Value → Option Text) → Text → Value → List Text
property to_string k (string s) =
    concat (k ∷ codes ": '" ∷ escape_sql_literal s ∷ codes "'" ∷ []) ∷ []
property to_string k (number n) = concat (k ∷ codes ": " ∷ n ∷ []) ∷ []
property to_string k (boolean b) = concat (k ∷ codes ": " ∷ bool_text b ∷ []) ∷ []
property to_string k null = []
property to_string k v = elim (to_string v) [
  | none ↦ []
  | some s ↦ concat (k ∷ codes ": '" ∷ escape_sql_literal s ∷ codes "'" ∷ []) ∷ []
]

abbrev pub properties : (Value → Option Text) → Fields → List Text
properties to_string end = []
properties to_string (field k v rest) = property to_string k v ++ properties to_string rest

unfoldable pub node_sql : (Value → Option Text) → Text → Text → Value → Text
node_sql to_string graph_name label node =
    let props : Text = elim (as_object node) [
      | none ↦ []
      | some obj ↦ join (codes ", ") (properties to_string obj)
    ] in
    cypher_sql graph_name
      (concat (codes "MERGE (n:" ∷ label ∷ codes " {" ∷ props ∷ codes "})" ∷ [])) (codes "n agtype")

-- The part of an edge's query that names its end points.
abbrev pub match_ends : Text → Text → Text
match_ends from_id to_id = concat (
    codes "MATCH (a {id: '"
    ∷ escape_sql_literal from_id
    ∷ codes "'}), (b {id: '"
    ∷ escape_sql_literal to_id
    ∷ codes "'}) MERGE "
    ∷ [])

abbrev pub ends_returned : Text
ends_returned = codes "a agtype, b agtype"

unfoldable pub edge_sql : Text → Text → Text × Text → Text
edge_sql graph_name edge_label (from_id, to_id) =
    cypher_sql graph_name
      (concat (
        match_ends from_id to_id
        ∷ codes "(a)-[:"
        ∷ edge_label
        ∷ codes "]->(b) RETURN id(a), id(b)"
        ∷ []))
      ends_returned

-- The value of a property of an edge; arrays, objects and nulls are skipped.
abbrev pub value_text : Value → Option Text
value_text (string s) = some (concat (codes "'" ∷ escape_sql_literal s ∷ codes "'" ∷ []))
value_text (number n) = some n
value_text (boolean b) = some (bool_text b)
value_text _ = none

-- The identifying parts and the others, in the order of the map.
abbrev pub parts_of : List Text → Fields → List Text × List Text
parts_of keys end = ([], [])
parts_of keys (field k v rest) =
    let (identifying, settable) = parts_of keys rest in
    elim (value_text v) [
      | none ↦ (identifying, settable)
      | some val ↦
          let part = concat (k ∷ codes ": " ∷ val ∷ []) in
          if any (text_eq k) keys
          then (part ∷ identifying, settable)
          else (identifying, part ∷ settable)
    ]

unfoldable pub partition_properties : Value → List Text → Text × Text
partition_properties props identifying_keys = elim (as_object props) [
  | none ↦ ([], [])
  | some fields ↦
      let (identifying_parts, settable_parts) = parts_of identifying_keys fields in
      (
        join (codes ", ") identifying_parts,
        if is_empty settable_parts
            then []
            else concat (codes "{" ∷ join (codes ", ") settable_parts ∷ codes "}" ∷ []),
      )
]

unfoldable pub edge_sql_with_props : Text → Text → List Text → Text × Text × Value → Text
unfolding partition_properties
edge_sql_with_props graph_name edge_label identifying_keys (from_id, to_id, props) =
    let (identifying_props, settable_props) = partition_properties props identifying_keys in
    let merge_clause =
      if is_empty identifying_props
      then concat (codes "(a)-[r:" ∷ edge_label ∷ codes "]->(b)" ∷ [])
      else concat
          (codes "(a)-[r:" ∷ edge_label ∷ codes " {" ∷ identifying_props ∷ codes "}]->(b)" ∷ []) in
    let set_clause = if is_empty settable_props then [] else codes " SET r += " ++ settable_props in
    cypher_sql graph_name
      (concat
        (match_ends from_id to_id ∷ merge_clause ∷ set_clause ∷ codes "  RETURN id(a), id(b)" ∷ []))
      ends_returned

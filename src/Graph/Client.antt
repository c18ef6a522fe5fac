-- ===== src/Graph/Client.antt =====
-- The graph client: crates/activable-graph/src/client.rs. The client is the name of its graph, over
-- connections that are a parameter; the streams that it returns are lists.
pub mod Reads
pub mod Rows
use activable_cloud.Prelude.{ℕ, List, [], ◌∷◌, Option, none, some, Text, codes, concat, join, map}
use activable_cloud.Prelude.Decimal.{decimal}
use activable_cloud.Prelude.Errors.{Result, ok, err}
use activable_cloud.Json.{Value}
use activable_cloud.Graph.Errors
use activable_cloud.Graph.Errors.{GraphError}
use activable_cloud.Graph.Connection.{Action, ◌>>=◌, pure, calling}
use activable_cloud.Graph.Nodes.{
  NodeRef, Node, GraphPath, Subgraph, Columns, collect, range_from, read_node, read_first,
  read_length, read_labelled, read_values, read_columns, read_properties,
}
use activable_cloud.Graph.QueryBuilder
use activable_cloud.Graph.QueryBuilder.{Direction}

-- A pool over states of the database: taking a connection, a batch of statements, and a query with
-- its rows.
pub record Connections (D R : Type 0) : Type 0 where
  pub get : D → Result Text (Unit {0}) × D
  pub batch_execute : Text → D → Result Text (Unit {0}) × D
  pub query : Text → D → Result Text (List R) × D

-- `?` on a result that does not depend on the database.
abbrev pub returned : {D A : Type 0} → Result GraphError A → Action D A
returned r d = (r, d)

abbrev column_def : ℕ → Text
column_def i = concat (codes "col" ∷ decimal i ∷ codes " agtype" ∷ [])

abbrev column_select : ℕ → Text
column_select i = concat (codes "col" ∷ decimal i ∷ codes "::text" ∷ [])

module _ {D R : Type 0} (connections : Connections D R) (columns : Columns R)
    (graph_name : Text) where
  open connections use {get, batch_execute, query}

  -- A connection with AGE loaded on it.
  abbrev pub connect : Action D (Unit {0})
  connect = calling Errors.pool get >>= λ _.
      calling Errors.query
        (batch_execute (codes "LOAD 'age'; SET search_path = ag_catalog, \"$user\", public;"))

  -- What all calls do: connect, build the query, run it and read its rows.
  unfoldable pub run :
      {A : Type 0} → Result GraphError Text → (List R → Result GraphError A) → Action D A
  run built read = connect >>= λ _.
      returned built >>= λ sql. calling Errors.query (query sql) >>= λ rows. returned (read rows)

  unfoldable pub find_by_id : (Text → Text) → Text → Text → Action D (Option NodeRef)
  unfolding run QueryBuilder.find_by_id read_first
  find_by_id trim label id =
      run (QueryBuilder.find_by_id graph_name label id) (read_first columns trim label)

  unfoldable pub walk_edges :
      (Text → Text) → Text → List Text → Direction → ℕ → Action D (List NodeRef)
  unfolding run QueryBuilder.walk_edges read_node
  walk_edges trim start edge_types direction result_limit =
      run (QueryBuilder.walk_edges graph_name start edge_types direction result_limit)
        (collect (read_node columns trim))

  -- The rows are gone through, and no path is made of them.
  unfoldable pub path_finder : Text → Text → List Text → ℕ → Action D (List GraphPath)
  unfolding run QueryBuilder.path_finder
  path_finder start end edge_pattern max_hops =
      run (QueryBuilder.path_finder graph_name start end edge_pattern max_hops) (λ rows. ok [])

  unfoldable pub shortest_path_length :
      (Text → Result Text ℕ) → Text → Text → ℕ → Action D (Option ℕ)
  unfolding run QueryBuilder.shortest_path_length read_length
  shortest_path_length parse_u32 start end max_hops =
      run (QueryBuilder.shortest_path_length graph_name start end max_hops)
        (read_length columns parse_u32)

  unfoldable pub blast_radius : (Text → Text) → Text → List Text → ℕ → Action D (List NodeRef)
  unfolding run QueryBuilder.blast_radius read_node
  blast_radius trim node edge_types max_hops =
      run (QueryBuilder.blast_radius graph_name node edge_types max_hops)
        (collect (read_node columns trim))

  unfoldable pub subgraph : Text → ℕ → Action D Subgraph
  unfolding run QueryBuilder.subgraph read_labelled
  subgraph center radius =
      run (QueryBuilder.subgraph graph_name center radius) (collect (read_labelled columns))
      >>= λ nodes.
          pure (record { center = record { id = center; label = codes "Unknown" }; nodes = nodes })

  unfoldable pub cypher_sql : Text → Text
  cypher_sql cypher = concat (
      codes "SELECT result::text FROM ag_catalog.cypher('"
      ∷ graph_name
      ∷ codes "', $$"
      ∷ cypher
      ∷ codes "$$) AS (result agtype)"
      ∷ [])

  unfoldable pub cypher : (Text → Result Text Value) → Text → Action D (List Value)
  unfolding run cypher_sql read_values
  cypher from_str text = run (ok (cypher_sql text)) (read_values columns from_str)

  unfoldable pub cypher_multi_column_sql : Text → ℕ → Text
  cypher_multi_column_sql cypher column_count = concat (
      codes "SELECT "
      ∷ join (codes ", ") (map column_select (range_from 0 column_count))
      ∷ codes " FROM ag_catalog.cypher('"
      ∷ graph_name
      ∷ codes "', $$"
      ∷ cypher
      ∷ codes "$$) AS ("
      ∷ join (codes ", ") (map column_def (range_from 0 column_count))
      ∷ codes ")"
      ∷ [])

  unfoldable pub cypher_multi_column :
      (Text → Result Text Value) → Text → ℕ → Action D (List (List Value))
  unfolding run cypher_multi_column_sql read_columns
  cypher_multi_column from_str text column_count =
      run (ok (cypher_multi_column_sql text column_count))
        (collect (read_columns columns from_str column_count))

  unfoldable pub hydrate_sql : NodeRef → Text
  hydrate_sql node_ref = concat (
      codes "SELECT * FROM ag_catalog.cypher('"
      ∷ graph_name
      ∷ codes "', $$MATCH (n:{id: '"
      ∷ node_ref.id
      ∷ codes "'}) RETURN n$$) AS (node agtype)"
      ∷ [])

  -- The fields are not looked at.
  unfoldable pub hydrate_internal :
      (Text → Result Text Value) → NodeRef → Option (List Text) → Action D Node
  unfolding run hydrate_sql read_properties
  hydrate_internal from_str node_ref fields =
      run (ok (hydrate_sql node_ref)) (read_properties columns from_str node_ref)

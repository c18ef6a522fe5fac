-- ===== src/Graph/Loader.antt =====
-- The bulk loader: crates/activable-graph/src/loader.rs. The batches are gone through in order, so
-- they are one list (of batches that are not empty: `chunks` panics on a batch size of zero); the
-- texts of the log are left out.
pub mod Counts
use activable_cloud.Prelude.{
  ℕ, ◌+◌, Bool, true, false, not, ◌&&◌, List, [], ◌∷◌, ◌++◌, map, Option, none, some, Text, codes,
  text_eq, is_empty, any, length, concat, join, is_ascii_alphabetic, if◌then◌else◌, ◌==◌,
}
use activable_cloud.Prelude.Errors.{Result, ok, err, map_err}
use activable_cloud.Json.{
  Value, null, boolean, number, string, array, object, Fields, end, field, as_object,
}
use activable_cloud.Graph.Errors
use activable_cloud.Graph.Errors.{GraphError, unsafe_parameter}
use activable_cloud.Graph.Escape.{escape_sql_literal}
use activable_cloud.Graph.Connection.{Database, Action, ◌>>=◌, pure, fail, calling, query_error}
use activable_cloud.Graph.Statements.{node_sql, edge_sql, edge_sql_with_props}

pub record EdgeLoadOutcome : Type 0 where
  pub created : ℕ
  pub dropped : ℕ

-- The failure of an edge's query, and the missing endpoint of one.
abbrev pub insert_error : Text → Text × Text → Text → GraphError
insert_error message (from_id, to_id) e =
    Errors.query (concat (message ∷ from_id ∷ codes " to " ∷ to_id ∷ codes ": " ∷ e ∷ []))

abbrev pub missing_endpoint : Text × Text → GraphError
missing_endpoint (from_id, to_id) =
    Errors.query (
      concat (codes "Strict mode: missing endpoint in edge " ∷ from_id ∷ codes " -> " ∷ to_id ∷ []))

-- The end points and the query of an edge.
abbrev pub prepare : Text → Text → Text × Text → (Text × Text) × Text
prepare graph_name edge_label edge = (edge, edge_sql graph_name edge_label edge)

abbrev pub prepare_with_props : Text → Text → List Text → Text × Text × Value → (Text × Text) × Text
prepare_with_props graph_name edge_label keys (from_id, to_id, props) =
    ((from_id, to_id), edge_sql_with_props graph_name edge_label keys (from_id, to_id, props))

module _ {D : Type 0} (db : Database D) where
  open db use {get, batch_execute, query}

  -- A connection with AGE loaded on it.
  abbrev pub connect : Action D (Unit {0})
  connect = calling Errors.pool get >>= λ _.
      calling Errors.query
        (batch_execute (codes "LOAD 'age'; SET search_path = ag_catalog, \"$user\", public;"))

  abbrev pub begin : Action D (Unit {0})
  begin =
      calling (query_error (codes "Failed to start transaction: ")) (batch_execute (codes "BEGIN;"))

  abbrev pub commit : Action D (Unit {0})
  commit =
      calling (query_error (codes "Failed to commit transaction: "))
        (batch_execute (codes "COMMIT;"))

  -- The loop over the nodes.
  unfoldable pub insert_nodes : List Text → ℕ → Action D ℕ
  insert_nodes [] count = pure count
  insert_nodes (sql ∷ rest) count =
      calling (query_error (codes "Node insert failed: ")) (query sql) >>= λ _.
      insert_nodes rest (count + 1)

  -- The test of the label.
  abbrev pub check_label : Text → Action D (Unit {0})
  check_label [] = fail (unsafe_parameter (codes "empty label"))
  check_label (first ∷ rest) =
      if not (is_ascii_alphabetic first)
      then fail (unsafe_parameter (codes "label must start with a letter"))
      else pure tt

  unfoldable pub load_nodes : (Value → Option Text) → Text → Text → List Value → Action D ℕ
  unfolding insert_nodes
  load_nodes to_string graph_name label nodes =
      if is_empty nodes
      then pure 0
      else connect >>= λ _. check_label label >>= λ _. begin >>= λ _.
          insert_nodes (map (node_sql to_string graph_name label) nodes) 0 >>= λ count.
          commit >>= λ _. pure count

  -- What the number of rows decides, and the rest of the loop.
  abbrev pub on_rows :
      Bool
      → Text × Text
      → (EdgeLoadOutcome → Action D EdgeLoadOutcome)
      → EdgeLoadOutcome
      → ℕ
      → Action D EdgeLoadOutcome
  on_rows strict ends next outcome rows =
      if not (rows == 0)
      then next (record outcome { created = outcome.created + 1 })
      else if strict
      then (commit >>= λ _. fail (missing_endpoint ends))
      else next (record outcome { dropped = outcome.dropped + 1 })

  -- The loop over the edges: the end points and the query of each.
  unfoldable pub insert_edges :
      Text → Bool → List ((Text × Text) × Text) → EdgeLoadOutcome → Action D EdgeLoadOutcome
  insert_edges message strict [] outcome = pure outcome
  insert_edges message strict ((ends, sql) ∷ rest) outcome =
      calling (insert_error message ends) (query sql)
      >>= on_rows strict ends (insert_edges message strict rest) outcome

  abbrev pub check_edge_label : Text → Action D (Unit {0})
  check_edge_label edge_label =
      if is_empty edge_label then fail (unsafe_parameter (codes "empty edge label")) else pure tt

  -- The transaction around the loop.
  abbrev pub transact : Text → Bool → List ((Text × Text) × Text) → Action D EdgeLoadOutcome
  transact message strict edges = begin >>= λ _.
      insert_edges message strict edges (record { created = 0; dropped = 0 }) >>= λ outcome.
      commit >>= λ _. pure outcome

  -- What both functions for edges do around the loop.
  unfoldable pub load_prepared :
      Text → Bool → Text → List ((Text × Text) × Text) → Action D EdgeLoadOutcome
  unfolding insert_edges
  load_prepared message strict edge_label edges =
      if is_empty edges
      then pure (record { created = 0; dropped = 0 })
      else connect >>= λ _. check_edge_label edge_label >>= λ _. transact message strict edges

  unfoldable pub load_edges : Text → Text → List (Text × Text) → Bool → Action D EdgeLoadOutcome
  unfolding load_prepared edge_sql
  load_edges graph_name edge_label edges strict =
      load_prepared (codes "Failed to insert edge from ") strict edge_label
        (map (prepare graph_name edge_label) edges)

  unfoldable pub load_edges_with_props_identifying :
      Text → Text → List (Text × Text × Value) → Bool → List Text → Action D EdgeLoadOutcome
  unfolding load_prepared edge_sql_with_props
  load_edges_with_props_identifying graph_name edge_label edges strict identifying_keys =
      load_prepared (codes "Failed to insert edge with props from ") strict edge_label
        (map (prepare_with_props graph_name edge_label identifying_keys) edges)

  unfoldable pub load_edges_with_props :
      Text → Text → List (Text × Text × Value) → Bool → Action D EdgeLoadOutcome
  unfolding load_edges_with_props_identifying
  load_edges_with_props graph_name edge_label edges strict =
      load_edges_with_props_identifying graph_name edge_label edges strict []

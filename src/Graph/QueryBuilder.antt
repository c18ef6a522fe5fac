-- ===== src/Graph/QueryBuilder.antt =====
-- The queries of `CypherBuilder`: crates/activable-graph/src/query_builder.rs. The builder is its
-- graph name; hop counts and limits are numbers of type `u8`, printed in decimal.
pub mod Lexer
pub mod Template
pub mod Shapes
pub mod Safety
use activable_cloud.Prelude.{ℕ, List, [], ◌∷◌, ◌++◌, map, Text, codes, concat, join}
use activable_cloud.Prelude.Decimal.{decimal}
use activable_cloud.Prelude.Errors.{Result, ok, err, ◌>>=◌}
use activable_cloud.Graph.Errors.{GraphError, unsafe_parameter}
use activable_cloud.Graph.Escape.{escape_cypher, validate_label}

pub data Direction : Type 0 where
  outgoing incoming both : Direction

-- The SQL around a Cypher text: the columns, the graph, and the definitions of the columns.
abbrev pub select : Text → Text → Text → Text → Text
select columns graph_name cypher returned = concat (
    codes "SELECT "
    ∷ columns
    ∷ codes " FROM ag_catalog.cypher('"
    ∷ graph_name
    ∷ codes "', $$"
    ∷ cypher
    ∷ codes "$$) AS ("
    ∷ returned
    ∷ codes ")"
    ∷ [])

abbrev pub node_columns : Text
node_columns = codes "node_id::text, node_label::text"

abbrev pub node_returned : Text
node_returned = codes "node_id agtype, node_label agtype"

unfoldable pub find_by_id : Text → Text → Text → Result GraphError Text
find_by_id graph_name label id = do
  _ ← validate_label label
  let escaped_id = escape_cypher id
  ok (
      select node_columns graph_name
        (concat (
          codes "MATCH (n:"
          ∷ label
          ∷ codes " {id: '"
          ∷ escaped_id
          ∷ codes "'}) RETURN n.id, label(n)"
          ∷ []))
        node_returned)

-- The loop that validates the edge types.
unfoldable pub validate_all : List Text → Result GraphError (Unit {0})
validate_all [] = ok tt
validate_all (edge_type ∷ edge_types) = do _ ← validate_label edge_type; validate_all edge_types

-- `rel_pattern` and `where_clause` of `walk_edges`.
abbrev pub walk_pattern : List Text → Text
walk_pattern (single ∷ []) = concat (codes "[r:" ∷ single ∷ codes "]" ∷ [])
walk_pattern _ = codes "[r]"

abbrev pub walk_where : List Text → Text
walk_where (first ∷ second ∷ many) = concat (
    codes " WHERE label(r) IN ["
    ∷ join (codes ", ")
        (map (λ et. concat (codes "'" ∷ et ∷ codes "'" ∷ [])) (first ∷ second ∷ many))
    ∷ codes "]"
    ∷ [])
walk_where _ = []

abbrev pub arrow_left : Direction → Text
arrow_left outgoing = codes "-"
arrow_left incoming = codes "<-"
arrow_left both = codes "-"

abbrev pub arrow_right : Direction → Text
arrow_right outgoing = codes "->"
arrow_right incoming = codes "-"
arrow_right both = codes "-"

unfoldable pub walk_edges : Text → Text → List Text → Direction → ℕ → Result GraphError Text
unfolding validate_all
walk_edges graph_name start edge_types direction result_limit = do
  let escaped_start = escape_cypher start
  _ ← validate_all edge_types
  let cypher = concat (
      codes "MATCH (s {id: '"
      ∷ escaped_start
      ∷ codes "'})"
      ∷ arrow_left direction
      ∷ walk_pattern edge_types
      ∷ arrow_right direction
      ∷ codes "(t)"
      ∷ walk_where edge_types
      ∷ codes " RETURN t.id, label(t) LIMIT "
      ∷ decimal result_limit
      ∷ [])
  ok (select node_columns graph_name cypher node_returned)

-- The pattern of a path of variable length, with at most one type of edge.
unfoldable pub path_pattern : List Text → ℕ → Result GraphError Text
path_pattern [] max_hops = ok (concat (codes "[*1.." ∷ decimal max_hops ∷ codes "]" ∷ []))
path_pattern (single ∷ []) max_hops = do
  _ ← validate_label single
  ok (concat (codes "[:" ∷ single ∷ codes "*1.." ∷ decimal max_hops ∷ codes "]" ∷ []))
path_pattern _ max_hops = err (
    unsafe_parameter (
      codes
        "variable-length traversal accepts at most one edge type (AGE has no multi-type path filter); query per type instead"))

unfoldable pub path_finder : Text → Text → Text → List Text → ℕ → Result GraphError Text
unfolding path_pattern
path_finder graph_name start end edge_pattern max_hops = do
  let escaped_start = escape_cypher start
  let escaped_end = escape_cypher end
  rel_pattern ← path_pattern edge_pattern max_hops
  let cypher = concat (
      codes "MATCH path = (s {id: '"
      ∷ escaped_start
      ∷ codes "'})-"
      ∷ rel_pattern
      ∷ codes "->(t {id: '"
      ∷ escaped_end
      ∷ codes "'}) RETURN [n IN nodes(path) | {id: n.id, label: label(n)}]"
      ∷ [])
  ok (select (codes "path::text") graph_name cypher (codes "path agtype"))

unfoldable pub shortest_path_length : Text → Text → Text → ℕ → Result GraphError Text
shortest_path_length graph_name start end max_hops = do
  let escaped_start = escape_cypher start
  let escaped_end = escape_cypher end
  let cypher = concat (
      codes "MATCH path = (s {id: '"
      ∷ escaped_start
      ∷ codes "'})-[*1.."
      ∷ decimal max_hops
      ∷ codes "]->(t {id: '"
      ∷ escaped_end
      ∷ codes "'}) RETURN length(path) ORDER BY length(path) LIMIT 1"
      ∷ [])
  ok (select (codes "path_length::text") graph_name cypher (codes "path_length agtype"))

unfoldable pub blast_radius : Text → Text → List Text → ℕ → Result GraphError Text
unfolding path_pattern
blast_radius graph_name node edge_types max_hops = do
  let escaped_node = escape_cypher node
  rel_pattern ← path_pattern edge_types max_hops
  let cypher = concat (
      codes "MATCH (c {id: '"
      ∷ escaped_node
      ∷ codes "'})-"
      ∷ rel_pattern
      ∷ codes "->(neighbor) RETURN neighbor.id, label(neighbor) LIMIT 100"
      ∷ [])
  ok (select node_columns graph_name cypher node_returned)

unfoldable pub subgraph : Text → Text → ℕ → Result GraphError Text
subgraph graph_name center radius = do
  let escaped_center = escape_cypher center
  let cypher = concat (
      codes "MATCH (c {id: '"
      ∷ escaped_center
      ∷ codes "'})-[*1.."
      ∷ decimal radius
      ∷ codes "]->(neighbor) RETURN neighbor.id, label(neighbor) LIMIT 100"
      ∷ [])
  ok (select node_columns graph_name cypher node_returned)

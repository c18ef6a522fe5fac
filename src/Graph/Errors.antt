-- ===== src/Graph/Errors.antt =====
-- The errors of graph operations: crates/activable-graph/src/error.rs.
use activable_cloud.Prelude.{Text, codes, ◌++◌}

pub data GraphError : Type 0 where
  pool : Text → GraphError
  query : Text → GraphError
  not_found : GraphError
  unsafe_parameter : Text → GraphError
  pool_exhausted : GraphError
  parse : Text → GraphError

-- `Display`.
abbrev pub graph_error_text : GraphError → Text
graph_error_text (pool s) = codes "pool error: " ++ s
graph_error_text (query s) = codes "query error: " ++ s
graph_error_text not_found = codes "node not found"
graph_error_text (unsafe_parameter s) = codes "unsafe parameter: " ++ s
graph_error_text pool_exhausted = codes "pool exhausted"
graph_error_text (parse s) = codes "parse error: " ++ s

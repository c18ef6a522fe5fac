-- ===== src/Graph.antt =====
-- The graph client: crates/activable-graph/src.
pub mod Errors
pub mod Escape
pub mod QueryBuilder
pub mod Connection
pub mod Nodes
pub mod Statements
pub mod Loader
pub mod Client

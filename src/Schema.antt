-- ===== src/Schema.antt =====
-- The graph schema (crates/activable-schema).
pub mod Arn
pub mod Labels
pub mod Edges
pub mod EdgeConstraint
pub mod Properties
pub mod Agtype

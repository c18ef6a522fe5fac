-- ===== src/Risk.antt =====
-- The risk engine: crates/activable-risk/src.
pub mod Rules
pub mod Matching

-- ===== src/Schema/Agtype.antt =====
-- Node properties as JSON, for the property bags of AGE: crates/activable-schema/src/serde_agtype.rs.
pub mod Reading
pub mod Encode
pub mod Decode
pub mod Kinds
pub mod RoundTrip
pub mod Reads
pub mod Stable

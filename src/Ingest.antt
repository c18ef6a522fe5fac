-- ===== src/Ingest.antt =====
-- Ingestion: crates/activable-ingest/src.
pub mod Permissions
pub mod Enrichment
pub mod Access
pub mod Errors
pub mod Relationships

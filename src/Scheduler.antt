-- ===== src/Scheduler.antt =====
-- The job queue: crates/activable-scheduler.
pub mod Model
pub mod Store
pub mod Rows
pub mod Tables
pub mod Order
pub mod Claim
pub mod Invariant
pub mod Failure
pub mod Reaper
pub mod Worker
pub mod Backoff
pub mod Config
pub mod Registry
pub mod Facade

-- ===== src/Iam/Wildcard.antt =====
-- Wildcard matching: `wildcard_match` and `match_recursive` of
-- crates/activable-iam-engine/src/action_matcher.rs. src/resource_matcher.rs holds the same two
-- functions word for word.
mod Spec
mod Search
mod Decides
pub use Spec.*
unfoldable pub use Search.*
pub use Decides.*

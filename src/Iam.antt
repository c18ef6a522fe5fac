-- ===== src/Iam.antt =====
-- The IAM policy engine (crates/activable-iam-engine).
pub mod Types
pub mod Wildcard
pub mod Matchers
pub mod Statements
pub mod Conditions
pub mod Deny
pub mod Boundary
pub mod Scp
pub mod Session
pub mod Grants
pub mod Effective
pub mod ResourcePolicy
pub mod PolicyParser
pub mod Dangerous
pub mod Drift
pub mod Federation
pub mod CloudTrail
pub mod Abac
pub mod ResourcePolicyParser

-- ===== src/Iam/CloudTrail/Justified.antt =====
-- The attempts that are reported, and why (crates/activable-iam-engine/src/cloudtrail.rs).
use activable_cloud.Prelude.{◌≡◌, List, Text, Any, All}
use activable_cloud.Iam.CloudTrail.{CloudTrailEvent}

-- An event of the input, by the principal of the attempt.
abbrev pub IsOwn : List CloudTrailEvent → Text → CloudTrailEvent → Type 0
IsOwn events arn e = Any (λ f. e ≡ f) events × (e.principal_arn ≡ arn)

abbrev IsGroup : List CloudTrailEvent → Text × List CloudTrailEvent → Type 0
IsGroup events (arn, es) = All (IsOwn events arn) es

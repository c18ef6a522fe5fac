-- ===== src/Schema/EdgeConstraint.antt =====
-- Which edges the schema allows: crates/activable-schema/src/edge_constraint.rs.
use activable_cloud.Prelude.{◌≡◌, Bool, true, false, ◌||◌, arith, if◌then◌else◌}
use activable_cloud.Schema.Labels
use activable_cloud.Schema.Labels.{NodeLabel}
use activable_cloud.Schema.Edges
use activable_cloud.Schema.Edges.{EdgeType}

abbrev pub custom_label : NodeLabel → Bool
custom_label (Labels.custom s) = true
custom_label _ = false

abbrev pub custom_edge : EdgeType → Bool
custom_edge (Edges.custom s) = true
custom_edge _ = false

-- The constraints of the v1 schema.
unfoldable pub standard_edge : NodeLabel → EdgeType → NodeLabel → Bool
standard_edge Labels.principal Edges.can_assume Labels.principal = true
standard_edge Labels.principal Edges.has_permission Labels.permission = true
standard_edge Labels.account Edges.contains Labels.principal = true
standard_edge Labels.account Edges.contains Labels.resource = true
standard_edge Labels.account Edges.contains Labels.permission = true
standard_edge Labels.account Edges.contains Labels.account = true
standard_edge Labels.account Edges.contains Labels.vpc = true
standard_edge Labels.account Edges.contains Labels.iam_group = true
standard_edge Labels.account Edges.contains Labels.kms_key = true
standard_edge Labels.account Edges.contains Labels.access_key = true
standard_edge Labels.account Edges.contains Labels.federated_provider = true
standard_edge Labels.account Edges.contains Labels.policy_statement = true
standard_edge Labels.account Edges.contains Labels.permission_boundary = true
standard_edge Labels.account Edges.contains Labels.service_control_policy = true
standard_edge Labels.principal Edges.member_of Labels.iam_group = true
standard_edge Labels.access_key Edges.signed_by Labels.principal = true
standard_edge Labels.principal Edges.has_effective_permission Labels.resource = true
standard_edge Labels.principal Edges.has_effective_permission Labels.permission = true
standard_edge Labels.principal Edges.bounded_by Labels.permission_boundary = true
standard_edge Labels.account Edges.governed_by Labels.service_control_policy = true
standard_edge Labels.principal Edges.can_escalate_to Labels.principal = true
standard_edge _ _ _ = false

unfoldable pub is_valid_edge : NodeLabel → EdgeType → NodeLabel → Bool
is_valid_edge from edge to =
    if custom_label from || custom_label to
    then true
    else if custom_edge edge
    then true
    else standard_edge from edge to

-- The label that the edges of a type start from.
unfoldable pub source_label : EdgeType → NodeLabel
source_label Edges.contains = Labels.account
source_label Edges.governed_by = Labels.account
source_label Edges.signed_by = Labels.access_key
source_label _ = Labels.principal

-- The types of edges that no pair of standard labels has.
unfoldable pub is_unplaced : EdgeType → Bool
is_unplaced Edges.has_managed_policy = true
is_unplaced Edges.has_permissions_boundary = true
is_unplaced Edges.has_bucket_policy = true
is_unplaced Edges.has_key_policy = true
is_unplaced Edges.allows_access_from = true
is_unplaced Edges.kms_grantable = true
is_unplaced Edges.enforces_scp = true
is_unplaced Edges.encrypted_by = true
is_unplaced Edges.acts_on = true
is_unplaced _ = false

-- A valid edge of a known type between known labels starts from the one label of its type, and its
-- type is none of the nine that the constraints leave out.
pub is_valid_edge_source :
    (from to : NodeLabel) (edge : EdgeType)
    → custom_label from ≡ false
    → custom_label to ≡ false
    → custom_edge edge ≡ false
    → is_valid_edge from edge to ≡ true
    → (from ≡ source_label edge) × (is_unplaced edge ≡ false)
unfolding is_valid_edge standard_edge source_label is_unplaced
is_valid_edge_source from to edge f t e h = ground arith

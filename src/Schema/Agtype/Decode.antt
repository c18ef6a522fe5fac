-- ===== src/Schema/Agtype/Decode.antt =====
-- The `TryFrom` instances of crates/activable-schema/src/serde_agtype.rs: properties from JSON.
-- `Value::to_string` of serde_json is a parameter.
use activable_cloud.Prelude.{Bool, true, false, Text, codes}
use activable_cloud.Prelude.Errors.{Result, ok, ◌>>=◌}
use activable_cloud.Prelude.Options
use activable_cloud.Json.{Value, Fields, get}
use activable_cloud.Schema.Labels
use activable_cloud.Schema.Labels.{NodeLabel}
use activable_cloud.Schema.Properties.{
  PrincipalProperties, ResourceProperties, PermissionProperties, AccountProperties, VpcProperties,
  IamGroupProperties, KmsKeyProperties, AccessKeyProperties, FederatedProviderProperties,
}
use activable_cloud.Schema.Agtype.Reading.{
  text_of, text_field, bool_field, array_field, common_from, conditions_text, try_from,
}

unfoldable pub principal_from : Fields → Result Text PrincipalProperties
unfolding common_from
principal_from obj = do
  common ← common_from obj
  name ← text_field (codes "name") obj
  principal_type ← text_field (codes "principal_type") obj
  account ← text_field (codes "account") obj
  let path = text_of (codes "path") obj
  ok (record {
    common = common;
    name = name;
    principal_type = principal_type;
    account = account;
    path = path;
  })

unfoldable pub resource_from : Fields → Result Text ResourceProperties
unfolding common_from
resource_from obj = do
  common ← common_from obj
  name ← text_field (codes "name") obj
  resource_type ← text_field (codes "resource_type") obj
  account ← text_field (codes "account") obj
  region ← text_field (codes "region") obj
  ok (record {
    common = common;
    name = name;
    resource_type = resource_type;
    account = account;
    region = region;
  })

unfoldable pub permission_from : (Value → Text) → Fields → Result Text PermissionProperties
unfolding common_from
permission_from to_string obj = do
  common ← common_from obj
  let sid = text_of (codes "sid") obj
  effect ← text_field (codes "effect") obj
  actions ← array_field (codes "actions") (codes "Invalid action in 'actions' array") obj
  resources ← array_field (codes "resources") (codes "Invalid resource in 'resources' array") obj
  let conditions = Options.◌>>=◌ (get (codes "conditions") obj) (conditions_text to_string)
  ok (record {
    common = common;
    sid = sid;
    effect = effect;
    actions = actions;
    resources = resources;
    conditions = conditions;
  })

unfoldable pub account_from : Fields → Result Text AccountProperties
unfolding common_from
account_from obj = do
  common ← common_from obj
  name ← text_field (codes "name") obj
  let organization_id = text_of (codes "organization_id") obj
  ok (record { common = common; name = name; organization_id = organization_id })

unfoldable pub vpc_from : Fields → Result Text VpcProperties
unfolding common_from
vpc_from obj = do
  common ← common_from obj
  cidr_block ← text_field (codes "cidr_block") obj
  region ← text_field (codes "region") obj
  is_default ← bool_field (codes "is_default") obj
  ok (record { common = common; cidr_block = cidr_block; region = region; is_default = is_default })

unfoldable pub iam_group_from : Fields → Result Text IamGroupProperties
unfolding common_from
iam_group_from obj = do
  common ← common_from obj
  name ← text_field (codes "name") obj
  let path = text_of (codes "path") obj
  ok (record { common = common; name = name; path = path })

unfoldable pub kms_key_from : Fields → Result Text KmsKeyProperties
unfolding common_from
kms_key_from obj = do
  common ← common_from obj
  let alias = text_of (codes "alias") obj
  key_state ← text_field (codes "key_state") obj
  ok (record { common = common; alias = alias; key_state = key_state })

unfoldable pub access_key_from : Fields → Result Text AccessKeyProperties
unfolding common_from
access_key_from obj = do
  common ← common_from obj
  status ← text_field (codes "status") obj
  let created_at = text_of (codes "created_at") obj
  ok (record { common = common; status = status; created_at = created_at })

unfoldable pub federated_provider_from : Fields → Result Text FederatedProviderProperties
unfolding common_from
federated_provider_from obj = do
  common ← common_from obj
  name ← text_field (codes "name") obj
  provider_type ← text_field (codes "provider_type") obj
  ok (record { common = common; name = name; provider_type = provider_type })

abbrev pub is_principal : NodeLabel → Bool
is_principal Labels.principal = true
is_principal _ = false

abbrev pub is_resource : NodeLabel → Bool
is_resource Labels.resource = true
is_resource _ = false

abbrev pub is_permission : NodeLabel → Bool
is_permission Labels.permission = true
is_permission _ = false

abbrev pub is_account : NodeLabel → Bool
is_account Labels.account = true
is_account _ = false

abbrev pub is_vpc : NodeLabel → Bool
is_vpc Labels.vpc = true
is_vpc _ = false

abbrev pub is_iam_group : NodeLabel → Bool
is_iam_group Labels.iam_group = true
is_iam_group _ = false

abbrev pub is_kms_key : NodeLabel → Bool
is_kms_key Labels.kms_key = true
is_kms_key _ = false

abbrev pub is_access_key : NodeLabel → Bool
is_access_key Labels.access_key = true
is_access_key _ = false

abbrev pub is_federated_provider : NodeLabel → Bool
is_federated_provider Labels.federated_provider = true
is_federated_provider _ = false

unfoldable pub decode_principal : NodeLabel → Value → Result Text PrincipalProperties
unfolding try_from principal_from
decode_principal label value =
    try_from (is_principal label) (codes "Principal") principal_from value

unfoldable pub decode_resource : NodeLabel → Value → Result Text ResourceProperties
unfolding try_from resource_from
decode_resource label value = try_from (is_resource label) (codes "Resource") resource_from value

unfoldable pub decode_permission :
    (Value → Text) → NodeLabel → Value → Result Text PermissionProperties
unfolding try_from permission_from
decode_permission to_string label value =
    try_from (is_permission label) (codes "Permission") (permission_from to_string) value

unfoldable pub decode_account : NodeLabel → Value → Result Text AccountProperties
unfolding try_from account_from
decode_account label value = try_from (is_account label) (codes "Account") account_from value

unfoldable pub decode_vpc : NodeLabel → Value → Result Text VpcProperties
unfolding try_from vpc_from
decode_vpc label value = try_from (is_vpc label) (codes "Vpc") vpc_from value

unfoldable pub decode_iam_group : NodeLabel → Value → Result Text IamGroupProperties
unfolding try_from iam_group_from
decode_iam_group label value = try_from (is_iam_group label) (codes "IamGroup") iam_group_from value

unfoldable pub decode_kms_key : NodeLabel → Value → Result Text KmsKeyProperties
unfolding try_from kms_key_from
decode_kms_key label value = try_from (is_kms_key label) (codes "KmsKey") kms_key_from value

unfoldable pub decode_access_key : NodeLabel → Value → Result Text AccessKeyProperties
unfolding try_from access_key_from
decode_access_key label value =
    try_from (is_access_key label) (codes "AccessKey") access_key_from value

unfoldable pub decode_federated_provider :
    NodeLabel → Value → Result Text FederatedProviderProperties
unfolding try_from federated_provider_from
decode_federated_provider label value =
    try_from (is_federated_provider label) (codes "FederatedProvider") federated_provider_from value

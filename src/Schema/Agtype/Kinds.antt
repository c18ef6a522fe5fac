-- ===== src/Schema/Agtype/Kinds.antt =====
-- The nine types of properties that crates/activable-schema/src/serde_agtype.rs has instances for, and the
-- instance of each: what the traits choose by the type.
use activable_cloud.Prelude.{Text}
use activable_cloud.Prelude.Errors.{Result}
use activable_cloud.Json.{Value}
use activable_cloud.Schema.Labels
use activable_cloud.Schema.Labels.{NodeLabel}
use activable_cloud.Schema.Properties
use activable_cloud.Schema.Properties.{
  NodeProperties, CommonProperties, PrincipalProperties, ResourceProperties, PermissionProperties,
  AccountProperties, VpcProperties, IamGroupProperties, KmsKeyProperties, AccessKeyProperties,
  FederatedProviderProperties,
}
use activable_cloud.Schema.Agtype.Encode.{
  encode_principal, encode_resource, encode_permission, encode_account, encode_vpc,
  encode_iam_group, encode_kms_key, encode_access_key, encode_federated_provider,
}
use activable_cloud.Schema.Agtype.Decode.{
  decode_principal, decode_resource, decode_permission, decode_account, decode_vpc,
  decode_iam_group, decode_kms_key, decode_access_key, decode_federated_provider,
}

pub data Kind : Type 0 where
  of_principal of_resource of_permission of_account of_vpc of_iam_group of_kms_key of_access_key
        of_federated_provider :
      Kind

abbrev pub Props : Kind → Type 0
Props of_principal = PrincipalProperties
Props of_resource = ResourceProperties
Props of_permission = PermissionProperties
Props of_account = AccountProperties
Props of_vpc = VpcProperties
Props of_iam_group = IamGroupProperties
Props of_kms_key = KmsKeyProperties
Props of_access_key = AccessKeyProperties
Props of_federated_provider = FederatedProviderProperties

-- The variant of the wrapper that holds them.
abbrev pub wrap : (k : Kind) → Props k → NodeProperties
wrap of_principal p = Properties.principal p
wrap of_resource p = Properties.resource p
wrap of_permission p = Properties.permission p
wrap of_account p = Properties.account p
wrap of_vpc p = Properties.vpc p
wrap of_iam_group p = Properties.iam_group p
wrap of_kms_key p = Properties.kms_key p
wrap of_access_key p = Properties.access_key p
wrap of_federated_provider p = Properties.federated_provider p

-- The label that the instance wants.
abbrev pub wanted : Kind → NodeLabel
wanted of_principal = Labels.principal
wanted of_resource = Labels.resource
wanted of_permission = Labels.permission
wanted of_account = Labels.account
wanted of_vpc = Labels.vpc
wanted of_iam_group = Labels.iam_group
wanted of_kms_key = Labels.kms_key
wanted of_access_key = Labels.access_key
wanted of_federated_provider = Labels.federated_provider

abbrev pub common_props : (k : Kind) → Props k → CommonProperties
common_props of_principal p = p.common
common_props of_resource p = p.common
common_props of_permission p = p.common
common_props of_account p = p.common
common_props of_vpc p = p.common
common_props of_iam_group p = p.common
common_props of_kms_key p = p.common
common_props of_access_key p = p.common
common_props of_federated_provider p = p.common

abbrev pub encode : (k : Kind) → Props k → Value
encode of_principal p = encode_principal p
encode of_resource p = encode_resource p
encode of_permission p = encode_permission p
encode of_account p = encode_account p
encode of_vpc p = encode_vpc p
encode of_iam_group p = encode_iam_group p
encode of_kms_key p = encode_kms_key p
encode of_access_key p = encode_access_key p
encode of_federated_provider p = encode_federated_provider p

abbrev pub decode : (Value → Text) → (k : Kind) → NodeLabel → Value → Result Text (Props k)
decode to_string of_principal label value = decode_principal label value
decode to_string of_resource label value = decode_resource label value
decode to_string of_permission label value = decode_permission to_string label value
decode to_string of_account label value = decode_account label value
decode to_string of_vpc label value = decode_vpc label value
decode to_string of_iam_group label value = decode_iam_group label value
decode to_string of_kms_key label value = decode_kms_key label value
decode to_string of_access_key label value = decode_access_key label value
decode to_string of_federated_provider label value = decode_federated_provider label value

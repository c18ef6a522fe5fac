-- ===== src/Schema/Agtype/Encode.antt =====
-- The `From` instances of crates/activable-schema/src/serde_agtype.rs: properties as JSON.
use activable_cloud.Prelude.{Option, none, some, Text, codes}
use activable_cloud.Json.{Value, null, boolean, string, array, object, Fields, end, field, strings}
use activable_cloud.Schema.Arn.{canonical}
use activable_cloud.Schema.Properties.{
  CommonProperties, PrincipalProperties, ResourceProperties, PermissionProperties,
  AccountProperties, VpcProperties, IamGroupProperties, KmsKeyProperties, AccessKeyProperties,
  FederatedProviderProperties,
}

-- `Option<String>` in `json!`: a missing value is `null`.
abbrev pub optional : Option Text → Value
optional none = null
optional (some s) = string s

-- The entries of the common properties, in front of the others.
abbrev pub common_fields : CommonProperties → Fields → Fields
common_fields common rest = field (codes "id") (string (canonical common.id)) (
    field (codes "ingest_run_id") (string common.ingest_run_id)
      (field (codes "ingested_at") (string common.ingested_at) rest))

unfoldable pub encode_principal : PrincipalProperties → Value
encode_principal p = object (
    common_fields p.common (
      field (codes "name") (string p.name) (
        field (codes "principal_type") (string p.principal_type) (
          field (codes "account") (string p.account)
            (field (codes "path") (optional p.path) end)))))

unfoldable pub encode_resource : ResourceProperties → Value
encode_resource p = object (
    common_fields p.common (
      field (codes "name") (string p.name) (
        field (codes "resource_type") (string p.resource_type) (
          field (codes "account") (string p.account)
            (field (codes "region") (string p.region) end)))))

unfoldable pub encode_permission : PermissionProperties → Value
encode_permission p = object (
    common_fields p.common (
      field (codes "sid") (optional p.sid) (
        field (codes "effect") (string p.effect) (
          field (codes "actions") (array (strings p.actions)) (
            field (codes "resources") (array (strings p.resources))
              (field (codes "conditions") (optional p.conditions) end))))))

unfoldable pub encode_account : AccountProperties → Value
encode_account p = object (
    common_fields p.common (
      field (codes "name") (string p.name)
        (field (codes "organization_id") (optional p.organization_id) end)))

unfoldable pub encode_vpc : VpcProperties → Value
encode_vpc p = object (
    common_fields p.common (
      field (codes "cidr_block") (string p.cidr_block) (
        field (codes "region") (string p.region)
          (field (codes "is_default") (boolean p.is_default) end))))

unfoldable pub encode_iam_group : IamGroupProperties → Value
encode_iam_group p = object (
    common_fields p.common
      (field (codes "name") (string p.name) (field (codes "path") (optional p.path) end)))

unfoldable pub encode_kms_key : KmsKeyProperties → Value
encode_kms_key p = object (
    common_fields p.common (
      field (codes "alias") (optional p.alias)
        (field (codes "key_state") (string p.key_state) end)))

unfoldable pub encode_access_key : AccessKeyProperties → Value
encode_access_key p = object (
    common_fields p.common (
      field (codes "status") (string p.status)
        (field (codes "created_at") (optional p.created_at) end)))

unfoldable pub encode_federated_provider : FederatedProviderProperties → Value
encode_federated_provider p = object (
    common_fields p.common (
      field (codes "name") (string p.name)
        (field (codes "provider_type") (string p.provider_type) end)))

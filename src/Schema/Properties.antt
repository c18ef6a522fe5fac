-- ===== src/Schema/Properties.antt =====
-- The properties of graph nodes: crates/activable-schema/src/properties.rs.
use activable_cloud.Prelude.{Bool, Option, none, some, List, Text, codes}
use activable_cloud.Json.{Value}
use activable_cloud.Schema.Arn.{Arn}
use activable_cloud.Schema.Labels
use activable_cloud.Schema.Labels.{NodeLabel}

pub record CommonProperties : Type 0 where
  pub id : Arn
  pub ingest_run_id : Text
  pub ingested_at : Text

pub record PrincipalProperties : Type 0 where
  pub common : CommonProperties
  pub name : Text
  pub principal_type : Text
  pub account : Text
  pub path : Option Text

pub record ResourceProperties : Type 0 where
  pub common : CommonProperties
  pub name : Text
  pub resource_type : Text
  pub account : Text
  pub region : Text

pub record PermissionProperties : Type 0 where
  pub common : CommonProperties
  pub sid : Option Text
  pub effect : Text
  pub actions : List Text
  pub resources : List Text
  pub conditions : Option Text

pub record AccountProperties : Type 0 where
  pub common : CommonProperties
  pub name : Text
  pub organization_id : Option Text

pub record VpcProperties : Type 0 where
  pub common : CommonProperties
  pub cidr_block : Text
  pub region : Text
  pub is_default : Bool

pub record IamGroupProperties : Type 0 where
  pub common : CommonProperties
  pub name : Text
  pub path : Option Text

pub record KmsKeyProperties : Type 0 where
  pub common : CommonProperties
  pub alias : Option Text
  pub key_state : Text

pub record AccessKeyProperties : Type 0 where
  pub common : CommonProperties
  pub status : Text
  pub created_at : Option Text

pub record FederatedProviderProperties : Type 0 where
  pub common : CommonProperties
  pub name : Text
  pub provider_type : Text

pub record BucketProperties : Type 0 where
  pub common : CommonProperties
  pub name : Text
  pub region : Text
  pub account_id : Text
  pub created_at : Option Text

pub record KmsKeyExtendedProperties : Type 0 where
  pub common : CommonProperties
  pub key_id : Text
  pub region : Text
  pub account_id : Text
  pub key_usage : Option Text
  pub key_state : Option Text

pub record PolicyProperties : Type 0 where
  pub common : CommonProperties
  pub name : Text
  pub document : Text
  pub version_id : Option Text
  pub source : Text

pub record WildcardPrincipalProperties : Type 0 where
  pub common : CommonProperties

pub data NodeProperties : Type 0 where
  principal : PrincipalProperties → NodeProperties
  resource : ResourceProperties → NodeProperties
  permission : PermissionProperties → NodeProperties
  account : AccountProperties → NodeProperties
  vpc : VpcProperties → NodeProperties
  iam_group : IamGroupProperties → NodeProperties
  kms_key : KmsKeyProperties → NodeProperties
  access_key : AccessKeyProperties → NodeProperties
  federated_provider : FederatedProviderProperties → NodeProperties
  bucket : BucketProperties → NodeProperties
  kms_key_extended : KmsKeyExtendedProperties → NodeProperties
  policy : PolicyProperties → NodeProperties
  wildcard_principal : WildcardPrincipalProperties → NodeProperties
  custom : Value → NodeProperties

unfoldable pub label : NodeProperties → NodeLabel
label (principal p) = Labels.principal
label (resource p) = Labels.resource
label (permission p) = Labels.permission
label (account p) = Labels.account
label (vpc p) = Labels.vpc
label (iam_group p) = Labels.iam_group
label (kms_key p) = Labels.kms_key
label (access_key p) = Labels.access_key
label (federated_provider p) = Labels.federated_provider
label (bucket p) = Labels.bucket
label (kms_key_extended p) = Labels.kms_key
label (policy p) = Labels.policy
label (wildcard_principal p) = Labels.wildcard_principal
label (custom value) = Labels.custom (codes "Unknown")

unfoldable pub common_of : NodeProperties → Option CommonProperties
common_of (principal p) = some p.common
common_of (resource p) = some p.common
common_of (permission p) = some p.common
common_of (account p) = some p.common
common_of (vpc p) = some p.common
common_of (iam_group p) = some p.common
common_of (kms_key p) = some p.common
common_of (access_key p) = some p.common
common_of (federated_provider p) = some p.common
common_of (bucket p) = some p.common
common_of (kms_key_extended p) = some p.common
common_of (policy p) = some p.common
common_of (wildcard_principal p) = some p.common
common_of (custom value) = none

unfoldable pub id_of : NodeProperties → Option Arn
unfolding common_of
id_of properties = elim (common_of properties) [ none ↦ none | some common ↦ some common.id ]

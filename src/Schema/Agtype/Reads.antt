-- ===== src/Schema/Agtype/Reads.antt =====
-- What the readers of properties go through (crates/activable-schema/src/serde_agtype.rs).
use activable_cloud.Prelude.{◌≡◌, refl, Bool, true, false, ◌++◌, Text, codes, arith}
use activable_cloud.Prelude.Errors.{Result, ok, err, >>=-eq-ok, map_err}
use activable_cloud.Json.{Value, Fields, object}
use activable_cloud.Schema.Arn.{parse}
use activable_cloud.Schema.Arn.Canonical.{IsCanonical, parse-IsCanonical}
use activable_cloud.Schema.Properties.{CommonProperties}
use activable_cloud.Schema.Agtype.Reading.{text_field, common_from, try_from}
use activable_cloud.Schema.Agtype.Decode.{
  principal_from, resource_from, permission_from, account_from, vpc_from, iam_group_from,
  kms_key_from, access_key_from, federated_provider_from,
}
use activable_cloud.Schema.Agtype.Kinds.{
  of_principal, of_resource, of_permission, of_account, of_vpc, of_iam_group, of_kms_key,
  of_access_key, of_federated_provider, Props,
}

pub try_from-ok :
    {P : Type 0} (expected : Bool) (name : Text) (read : Fields → Result Text P) (v : Value) {p : P}
    → try_from expected name read v ≡ ok p
    → (expected ≡ true) × (obj : Fields) × (read obj ≡ ok p)
unfolding try_from
try_from-ok true name read (object obj) h = (refl, obj, h)
try_from-ok _ name read _ h = cc

pub try_from_refuses :
    {P : Type 0} (expected : Bool) (name : Text) (read : Fields → Result Text P) (v : Value)
    → expected ≡ false
    → try_from expected name read v ≡ err (codes "Expected NodeLabel::" ++ name)
unfolding try_from
try_from_refuses false name read v h = refl
try_from_refuses true name read v h = cc

pub common_from-IsCanonical :
    (obj : Fields) {c : CommonProperties} → common_from obj ≡ ok c → IsCanonical c.id
unfolding common_from
common_from-IsCanonical obj {c} h =
    let (id_str, _, with_id) = >>=-eq-ok (text_field (codes "id") obj) _ h in
    let (id, found, with_rest) = >>=-eq-ok (map_err _ (parse id_str)) _ with_id in
    let parsed : parse id_str ≡ ok c.id = ground arith in parse-IsCanonical id_str c.id parsed

pub principal_from-common :
    (obj : Fields) {p : Props of_principal}
    → principal_from obj ≡ ok p
    → common_from obj ≡ ok p.common
unfolding principal_from
principal_from-common obj h = ground arith

pub resource_from-common :
    (obj : Fields) {p : Props of_resource}
    → resource_from obj ≡ ok p
    → common_from obj ≡ ok p.common
unfolding resource_from
resource_from-common obj h = ground arith

pub permission_from-common :
    (to_string : Value → Text) (obj : Fields) {p : Props of_permission}
    → permission_from to_string obj ≡ ok p
    → common_from obj ≡ ok p.common
unfolding permission_from
permission_from-common to_string obj h = ground arith

pub account_from-common :
    (obj : Fields) {p : Props of_account} → account_from obj ≡ ok p → common_from obj ≡ ok p.common
unfolding account_from
account_from-common obj h = ground arith

pub vpc_from-common :
    (obj : Fields) {p : Props of_vpc} → vpc_from obj ≡ ok p → common_from obj ≡ ok p.common
unfolding vpc_from
vpc_from-common obj h = ground arith

pub iam_group_from-common :
    (obj : Fields) {p : Props of_iam_group}
    → iam_group_from obj ≡ ok p
    → common_from obj ≡ ok p.common
unfolding iam_group_from
iam_group_from-common obj h = ground arith

pub kms_key_from-common :
    (obj : Fields) {p : Props of_kms_key} → kms_key_from obj ≡ ok p → common_from obj ≡ ok p.common
unfolding kms_key_from
kms_key_from-common obj h = ground arith

pub access_key_from-common :
    (obj : Fields) {p : Props of_access_key}
    → access_key_from obj ≡ ok p
    → common_from obj ≡ ok p.common
unfolding access_key_from
access_key_from-common obj h = ground arith

pub federated_provider_from-common :
    (obj : Fields) {p : Props of_federated_provider}
    → federated_provider_from obj ≡ ok p
    → common_from obj ≡ ok p.common
unfolding federated_provider_from
federated_provider_from-common obj h = ground arith

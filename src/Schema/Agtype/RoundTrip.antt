-- ===== src/Schema/Agtype/RoundTrip.antt =====
-- Properties that are written and read again (crates/activable-schema/src/serde_agtype.rs).
use activable_cloud.Prelude.{◌≡◌, refl, Option, none, some, List, [], ◌∷◌, Text, codes}
use activable_cloud.Prelude.Errors.{ok}
use activable_cloud.Json.{Value, as_str, strings}
use activable_cloud.Schema.Arn.Canonical.{IsCanonical, parse-canonical}
use activable_cloud.Schema.Properties.{label}
use activable_cloud.Schema.Agtype.Reading.{collect, conditions_text}
use activable_cloud.Schema.Agtype.Encode.{
  optional, encode_principal, encode_resource, encode_permission, encode_account, encode_vpc,
  encode_iam_group, encode_kms_key, encode_access_key, encode_federated_provider,
}
use activable_cloud.Schema.Agtype.Decode.{
  decode_principal, decode_resource, decode_permission, decode_account, decode_vpc,
  decode_iam_group, decode_kms_key, decode_access_key, decode_federated_provider,
}
use activable_cloud.Schema.Agtype.Kinds.{
  Kind, of_principal, of_resource, of_permission, of_account, of_vpc, of_iam_group, of_kms_key,
  of_access_key, of_federated_provider, Props, wrap, common_props, encode, decode,
}

collect-strings : (failure : Text) (ss : List Text) → collect failure (strings ss) ≡ ok ss
collect-strings failure [] = refl
collect-strings failure (s ∷ ss) = rw (collect-strings failure ss) refl

-- A missing value is written as null, and null is read as missing.
as_str-optional : (s : Option Text) → as_str (optional s) ≡ s
as_str-optional none = refl
as_str-optional (some s) = refl

conditions_text-optional :
    (to_string : Value → Text) (s : Option Text) → conditions_text to_string (optional s) ≡ s
conditions_text-optional to_string none = refl
conditions_text-optional to_string (some s) = refl

-- Properties of any type whose id is canonical are read back from what was written, under the label that the wrapper gives them, as they were.
pub decode-encode :
    (to_string : Value → Text) (k : Kind) (p : Props k)
    → IsCanonical (common_props k p).id
    → decode to_string k (label (wrap k p)) (encode k p) ≡ ok p
unfolding label encode_principal decode_principal encode_resource decode_resource encode_permission
    decode_permission encode_account decode_account encode_vpc decode_vpc encode_iam_group
    decode_iam_group encode_kms_key decode_kms_key encode_access_key decode_access_key
    encode_federated_provider decode_federated_provider
decode-encode to_string of_principal p c =
    rw (parse-canonical p.common.id c, as_str-optional p.path) refl
decode-encode to_string of_resource p c = rw (parse-canonical p.common.id c) refl
decode-encode to_string of_permission p c =
    rw
      (
        parse-canonical p.common.id c,
        as_str-optional p.sid,
        collect-strings (codes "Invalid action in 'actions' array") p.actions,
        collect-strings (codes "Invalid resource in 'resources' array") p.resources,
        conditions_text-optional to_string p.conditions,
      )
      refl
decode-encode to_string of_account p c =
    rw (parse-canonical p.common.id c, as_str-optional p.organization_id) refl
decode-encode to_string of_vpc p c = rw (parse-canonical p.common.id c) refl
decode-encode to_string of_iam_group p c =
    rw (parse-canonical p.common.id c, as_str-optional p.path) refl
decode-encode to_string of_kms_key p c =
    rw (parse-canonical p.common.id c, as_str-optional p.alias) refl
decode-encode to_string of_access_key p c =
    rw (parse-canonical p.common.id c, as_str-optional p.created_at) refl
decode-encode to_string of_federated_provider p c = rw (parse-canonical p.common.id c) refl

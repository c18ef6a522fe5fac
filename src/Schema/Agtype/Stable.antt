-- ===== src/Schema/Agtype/Stable.antt =====
-- What is read and what is refused (crates/activable-schema/src/serde_agtype.rs).
use activable_cloud.Prelude.{
  ◌≡◌, refl, sym, ◌∙◌, ◌≢◌, subst, inl, inr, Bool, true, false, ◌++◌, Text, codes, Bool-cases,
}
use activable_cloud.Prelude.Errors.{ok, err}
use activable_cloud.Json.{Value}
use activable_cloud.Schema.Arn.Canonical.{IsCanonical}
use activable_cloud.Schema.Labels
use activable_cloud.Schema.Labels.{NodeLabel, as_str}
use activable_cloud.Schema.Properties.{label}
use activable_cloud.Schema.Agtype.Decode.{
  principal_from, is_principal, decode_principal, resource_from, is_resource, decode_resource,
  permission_from, is_permission, decode_permission, account_from, is_account, decode_account,
  vpc_from, is_vpc, decode_vpc, iam_group_from, is_iam_group, decode_iam_group, kms_key_from,
  is_kms_key, decode_kms_key, access_key_from, is_access_key, decode_access_key,
  federated_provider_from, is_federated_provider, decode_federated_provider,
}
use activable_cloud.Schema.Agtype.Kinds.{
  Kind, of_principal, of_resource, of_permission, of_account, of_vpc, of_iam_group, of_kms_key,
  of_access_key, of_federated_provider, Props, wrap, wanted, common_props, encode, decode,
}
use activable_cloud.Schema.Agtype.RoundTrip.{decode-encode}
use activable_cloud.Schema.Agtype.Reads.{
  try_from-ok, try_from_refuses, common_from-IsCanonical, principal_from-common,
  resource_from-common, permission_from-common, account_from-common, vpc_from-common,
  iam_group_from-common, kms_key_from-common, access_key_from-common,
  federated_provider_from-common,
}

-- The check of the label.
abbrev matches : Kind → NodeLabel → Bool
matches of_principal label = is_principal label
matches of_resource label = is_resource label
matches of_permission label = is_permission label
matches of_account label = is_account label
matches of_vpc label = is_vpc label
matches of_iam_group label = is_iam_group label
matches of_kms_key label = is_kms_key label
matches of_access_key label = is_access_key label
matches of_federated_provider label = is_federated_provider label

matches-wanted : (k : Kind) (l : NodeLabel) → matches k l ≡ true → l ≡ wanted k
matches-wanted of_principal Labels.principal h = refl
matches-wanted of_resource Labels.resource h = refl
matches-wanted of_permission Labels.permission h = refl
matches-wanted of_account Labels.account h = refl
matches-wanted of_vpc Labels.vpc h = refl
matches-wanted of_iam_group Labels.iam_group h = refl
matches-wanted of_kms_key Labels.kms_key h = refl
matches-wanted of_access_key Labels.access_key h = refl
matches-wanted of_federated_provider Labels.federated_provider h = refl
matches-wanted _ _ h = cc

wanted-matches : (k : Kind) → matches k (wanted k) ≡ true
wanted-matches of_principal = refl
wanted-matches of_resource = refl
wanted-matches of_permission = refl
wanted-matches of_account = refl
wanted-matches of_vpc = refl
wanted-matches of_iam_group = refl
wanted-matches of_kms_key = refl
wanted-matches of_access_key = refl
wanted-matches of_federated_provider = refl

label-wrap : (k : Kind) (p : Props k) → label (wrap k p) ≡ wanted k
unfolding label
label-wrap of_principal p = refl
label-wrap of_resource p = refl
label-wrap of_permission p = refl
label-wrap of_account p = refl
label-wrap of_vpc p = refl
label-wrap of_iam_group p = refl
label-wrap of_kms_key p = refl
label-wrap of_access_key p = refl
label-wrap of_federated_provider p = refl

decode-ok :
    (to_string : Value → Text) (k : Kind) (l : NodeLabel) (v : Value) (p : Props k)
    → decode to_string k l v ≡ ok p
    → (l ≡ wanted k) × IsCanonical (common_props k p).id
unfolding decode_principal decode_resource decode_permission decode_account decode_vpc
    decode_iam_group decode_kms_key decode_access_key decode_federated_provider
decode-ok to_string of_principal l v p h =
    let (checked, obj, read) =
      try_from-ok (is_principal l) (codes "Principal") principal_from v h in
    (
      matches-wanted of_principal l checked,
      common_from-IsCanonical obj (principal_from-common obj read),
    )
decode-ok to_string of_resource l v p h =
    let (checked, obj, read) = try_from-ok (is_resource l) (codes "Resource") resource_from v h in
    (
      matches-wanted of_resource l checked,
      common_from-IsCanonical obj (resource_from-common obj read),
    )
decode-ok to_string of_permission l v p h =
    let (checked, obj, read) =
      try_from-ok (is_permission l) (codes "Permission") (permission_from to_string) v h in
    (
      matches-wanted of_permission l checked,
      common_from-IsCanonical obj (permission_from-common to_string obj read),
    )
decode-ok to_string of_account l v p h =
    let (checked, obj, read) = try_from-ok (is_account l) (codes "Account") account_from v h in
    (
      matches-wanted of_account l checked,
      common_from-IsCanonical obj (account_from-common obj read),
    )
decode-ok to_string of_vpc l v p h =
    let (checked, obj, read) = try_from-ok (is_vpc l) (codes "Vpc") vpc_from v h in
    (matches-wanted of_vpc l checked, common_from-IsCanonical obj (vpc_from-common obj read))
decode-ok to_string of_iam_group l v p h =
    let (checked, obj, read) = try_from-ok (is_iam_group l) (codes "IamGroup") iam_group_from v h in
    (
      matches-wanted of_iam_group l checked,
      common_from-IsCanonical obj (iam_group_from-common obj read),
    )
decode-ok to_string of_kms_key l v p h =
    let (checked, obj, read) = try_from-ok (is_kms_key l) (codes "KmsKey") kms_key_from v h in
    (
      matches-wanted of_kms_key l checked,
      common_from-IsCanonical obj (kms_key_from-common obj read),
    )
decode-ok to_string of_access_key l v p h =
    let (checked, obj, read) =
      try_from-ok (is_access_key l) (codes "AccessKey") access_key_from v h in
    (
      matches-wanted of_access_key l checked,
      common_from-IsCanonical obj (access_key_from-common obj read),
    )
decode-ok to_string of_federated_provider l v p h =
    let (checked, obj, read) =
      try_from-ok (is_federated_provider l) (codes "FederatedProvider") federated_provider_from v
        h in
    (
      matches-wanted of_federated_provider l checked,
      common_from-IsCanonical obj (federated_provider_from-common obj read),
    )

-- Whatever is read has the label of its type and a canonical id, and written again it is read as the same properties.
pub decode-IsStable :
    (to_string : Value → Text) (k : Kind) (l : NodeLabel) (v : Value) (p : Props k)
    → decode to_string k l v ≡ ok p
    → (l ≡ label (wrap k p))
      × IsCanonical (common_props k p).id
      × (decode to_string k l (encode k p) ≡ ok p)
decode-IsStable to_string k l v p h =
    let (same, canonical) = decode-ok to_string k l v p h in
    let fits = same ∙ sym (label-wrap k p) in
    (
      fits,
      canonical,
      subst (λ m. decode to_string k m (encode k p) ≡ ok p) (sym fits)
          (decode-encode to_string k p canonical),
    )

matches_other : (k : Kind) (l : NodeLabel) → l ≢ wanted k → matches k l ≡ false
matches_other k l other = elim (Bool-cases (matches k l)) [
  | inl fits ↦ absurd (other (matches-wanted k l fits))
  | inr misses ↦ misses
]

-- Under any label but that of its type, properties are refused with an error that names the label, whatever the value.
pub decode_wrong_label :
    (to_string : Value → Text) (k : Kind) (l : NodeLabel) (v : Value)
    → l ≢ wanted k
    → decode to_string k l v ≡ err (codes "Expected NodeLabel::" ++ as_str (wanted k))
unfolding decode_principal decode_resource decode_permission decode_account decode_vpc
    decode_iam_group decode_kms_key decode_access_key decode_federated_provider as_str
decode_wrong_label to_string of_principal l v other =
    try_from_refuses (is_principal l) (codes "Principal") principal_from v
      (matches_other of_principal l other)
decode_wrong_label to_string of_resource l v other =
    try_from_refuses (is_resource l) (codes "Resource") resource_from v
      (matches_other of_resource l other)
decode_wrong_label to_string of_permission l v other =
    try_from_refuses (is_permission l) (codes "Permission") (permission_from to_string) v
      (matches_other of_permission l other)
decode_wrong_label to_string of_account l v other =
    try_from_refuses (is_account l) (codes "Account") account_from v
      (matches_other of_account l other)
decode_wrong_label to_string of_vpc l v other =
    try_from_refuses (is_vpc l) (codes "Vpc") vpc_from v (matches_other of_vpc l other)
decode_wrong_label to_string of_iam_group l v other =
    try_from_refuses (is_iam_group l) (codes "IamGroup") iam_group_from v
      (matches_other of_iam_group l other)
decode_wrong_label to_string of_kms_key l v other =
    try_from_refuses (is_kms_key l) (codes "KmsKey") kms_key_from v
      (matches_other of_kms_key l other)
decode_wrong_label to_string of_access_key l v other =
    try_from_refuses (is_access_key l) (codes "AccessKey") access_key_from v
      (matches_other of_access_key l other)
decode_wrong_label to_string of_federated_provider l v other =
    try_from_refuses (is_federated_provider l) (codes "FederatedProvider") federated_provider_from v
      (matches_other of_federated_provider l other)

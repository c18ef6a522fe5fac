-- ===== src/Schema/Labels.antt =====
-- The labels of graph nodes, and their names: crates/activable-schema/src/labels.rs.
use activable_cloud.Prelude.{
  ◌≡◌, refl, sym, ◌∙◌, inl, inr, List, [], ◌∷◌, Text, codes, text_eq, text_eq_iff, if◌then◌else◌,
  Bool-cases, All,
}

pub data NodeLabel : Type 0 where
  principal : NodeLabel
  resource : NodeLabel
  permission : NodeLabel
  account : NodeLabel
  vpc : NodeLabel
  iam_group : NodeLabel
  kms_key : NodeLabel
  access_key : NodeLabel
  federated_provider : NodeLabel
  policy_statement : NodeLabel
  permission_boundary : NodeLabel
  service_control_policy : NodeLabel
  bucket : NodeLabel
  policy : NodeLabel
  wildcard_principal : NodeLabel
  secret : NodeLabel
  custom : Text → NodeLabel

unfoldable pub as_str : NodeLabel → Text
as_str principal = codes "Principal"
as_str resource = codes "Resource"
as_str permission = codes "Permission"
as_str account = codes "Account"
as_str vpc = codes "Vpc"
as_str iam_group = codes "IamGroup"
as_str kms_key = codes "KmsKey"
as_str access_key = codes "AccessKey"
as_str federated_provider = codes "FederatedProvider"
as_str policy_statement = codes "PolicyStatement"
as_str permission_boundary = codes "PermissionBoundary"
as_str service_control_policy = codes "ServiceControlPolicy"
as_str bucket = codes "Bucket"
as_str policy = codes "Policy"
as_str wildcard_principal = codes "WildcardPrincipal"
as_str secret = codes "Secret"
as_str (custom s) = s

-- The texts of the match, in its order, with what each gives.
abbrev pub table : List (Text × NodeLabel)
table =
    (codes "Principal", principal)
    ∷ (codes "Resource", resource)
    ∷ (codes "Permission", permission)
    ∷ (codes "Account", account)
    ∷ (codes "Vpc", vpc)
    ∷ (codes "IamGroup", iam_group)
    ∷ (codes "KmsKey", kms_key)
    ∷ (codes "AccessKey", access_key)
    ∷ (codes "FederatedProvider", federated_provider)
    ∷ (codes "PolicyStatement", policy_statement)
    ∷ (codes "PermissionBoundary", permission_boundary)
    ∷ (codes "ServiceControlPolicy", service_control_policy)
    ∷ (codes "Bucket", bucket)
    ∷ (codes "Policy", policy)
    ∷ (codes "WildcardPrincipal", wildcard_principal)
    ∷ (codes "Secret", secret)
    ∷ []

abbrev pub find : Text → List (Text × NodeLabel) → NodeLabel
find s [] = custom s
find s ((name, label) ∷ rest) = if text_eq s name then label else find s rest

-- A match on literals takes the first one that is equal, and `other` when none is.
unfoldable pub from_str : Text → NodeLabel
from_str s = find s table

as_str-find :
    (s : Text) (rows : List (Text × NodeLabel))
    → All (λ row. as_str row.1 ≡ row.0) rows
    → as_str (find s rows) ≡ s
unfolding as_str
as_str-find s [] h = refl
as_str-find s ((name, label) ∷ rest) (e, later) = elim (Bool-cases (text_eq s name)) [
  | inl same ↦ rw same (e ∙ sym ((text_eq_iff s name).0 same))
  | inr other ↦ rw other (as_str-find s rest later)
]

table_names : All (λ row. as_str row.1 ≡ row.0) table
unfolding as_str
table_names = (
  refl,
  (
    refl,
    (
      refl,
      (
        refl,
        (
          refl,
          (
            refl,
            (refl, (refl, (refl, (refl, (refl, (refl, (refl, (refl, (refl, (refl, tt)))))))))),
          ),
        ),
      ),
    ),
  ),
)

-- Reading a text and printing what was read gives the text back.
pub as_str-from_str : (s : Text) → as_str (from_str s) ≡ s
unfolding from_str
as_str-from_str s = as_str-find s table table_names

-- A custom one has a text that is not a known name.
abbrev pub IsUnambiguous : NodeLabel → Type 0
IsUnambiguous (custom s) = from_str s ≡ custom s
IsUnambiguous _ = Unit

-- Printing a label and reading it gives it back, where a custom one does not have a known name.
pub from_str-as_str : (label : NodeLabel) → IsUnambiguous label → from_str (as_str label) ≡ label
unfolding from_str as_str
from_str-as_str principal h = refl
from_str-as_str resource h = refl
from_str-as_str permission h = refl
from_str-as_str account h = refl
from_str-as_str vpc h = refl
from_str-as_str iam_group h = refl
from_str-as_str kms_key h = refl
from_str-as_str access_key h = refl
from_str-as_str federated_provider h = refl
from_str-as_str policy_statement h = refl
from_str-as_str permission_boundary h = refl
from_str-as_str service_control_policy h = refl
from_str-as_str bucket h = refl
from_str-as_str policy h = refl
from_str-as_str wildcard_principal h = refl
from_str-as_str secret h = refl
from_str-as_str (custom s) h = h

-- ===== src/Schema/Edges.antt =====
-- The types of graph edges, and their names: crates/activable-schema/src/labels.rs.
use activable_cloud.Prelude.{
  ◌≡◌, refl, sym, ◌∙◌, inl, inr, List, [], ◌∷◌, Text, codes, text_eq, text_eq_iff, if◌then◌else◌,
  Bool-cases, All,
}

pub data EdgeType : Type 0 where
  can_assume : EdgeType
  has_permission : EdgeType
  contains : EdgeType
  member_of : EdgeType
  signed_by : EdgeType
  has_effective_permission : EdgeType
  bounded_by : EdgeType
  governed_by : EdgeType
  can_escalate_to : EdgeType
  has_managed_policy : EdgeType
  has_permissions_boundary : EdgeType
  has_bucket_policy : EdgeType
  has_key_policy : EdgeType
  allows_access_from : EdgeType
  kms_grantable : EdgeType
  enforces_scp : EdgeType
  encrypted_by : EdgeType
  acts_on : EdgeType
  custom : Text → EdgeType

unfoldable pub as_str : EdgeType → Text
as_str can_assume = codes "CanAssume"
as_str has_permission = codes "HasPermission"
as_str contains = codes "Contains"
as_str member_of = codes "MemberOf"
as_str signed_by = codes "SignedBy"
as_str has_effective_permission = codes "HasEffectivePermission"
as_str bounded_by = codes "BoundedBy"
as_str governed_by = codes "GovernedBy"
as_str can_escalate_to = codes "CanEscalateTo"
as_str has_managed_policy = codes "HasManagedPolicy"
as_str has_permissions_boundary = codes "HasPermissionsBoundary"
as_str has_bucket_policy = codes "HasBucketPolicy"
as_str has_key_policy = codes "HasKeyPolicy"
as_str allows_access_from = codes "AllowsAccessFrom"
as_str kms_grantable = codes "KmsGrantable"
as_str enforces_scp = codes "EnforcesScp"
as_str encrypted_by = codes "EncryptedBy"
as_str acts_on = codes "ActsOn"
as_str (custom s) = s

-- The texts of the match, in its order, with what each gives.
abbrev pub table : List (Text × EdgeType)
table =
    (codes "CanAssume", can_assume)
    ∷ (codes "HasPermission", has_permission)
    ∷ (codes "Contains", contains)
    ∷ (codes "MemberOf", member_of)
    ∷ (codes "SignedBy", signed_by)
    ∷ (codes "HasEffectivePermission", has_effective_permission)
    ∷ (codes "BoundedBy", bounded_by)
    ∷ (codes "GovernedBy", governed_by)
    ∷ (codes "CanEscalateTo", can_escalate_to)
    ∷ (codes "HasManagedPolicy", has_managed_policy)
    ∷ (codes "HasPermissionsBoundary", has_permissions_boundary)
    ∷ (codes "HasBucketPolicy", has_bucket_policy)
    ∷ (codes "HasKeyPolicy", has_key_policy)
    ∷ (codes "AllowsAccessFrom", allows_access_from)
    ∷ (codes "KmsGrantable", kms_grantable)
    ∷ (codes "EnforcesScp", enforces_scp)
    ∷ (codes "EncryptedBy", encrypted_by)
    ∷ (codes "ActsOn", acts_on)
    ∷ []

abbrev pub find : Text → List (Text × EdgeType) → EdgeType
find s [] = custom s
find s ((name, edge) ∷ rest) = if text_eq s name then edge else find s rest

-- A match on literals takes the first one that is equal, and `other` when none is.
unfoldable pub from_str : Text → EdgeType
from_str s = find s table

as_str-find :
    (s : Text) (rows : List (Text × EdgeType))
    → All (λ row. as_str row.1 ≡ row.0) rows
    → as_str (find s rows) ≡ s
unfolding as_str
as_str-find s [] h = refl
as_str-find s ((name, edge) ∷ rest) (e, later) = elim (Bool-cases (text_eq s name)) [
  | inl same ↦ rw same (e ∙ sym ((text_eq_iff s name).0 same))
  | inr other ↦ rw other (as_str-find s rest later)
]

table_names : All (λ row. as_str row.1 ≡ row.0) table
unfolding as_str
table_names = (
  refl,
  (
    refl,
    (
      refl,
      (
        refl,
        (
          refl,
          (
            refl,
            (
              refl,
              (
                refl,
                (refl, (refl, (refl, (refl, (refl, (refl, (refl, (refl, (refl, (refl, tt)))))))))),
              ),
            ),
          ),
        ),
      ),
    ),
  ),
)

-- Reading a text and printing what was read gives the text back.
pub as_str-from_str : (s : Text) → as_str (from_str s) ≡ s
unfolding from_str
as_str-from_str s = as_str-find s table table_names

-- A custom one has a text that is not a known name.
abbrev pub IsUnambiguous : EdgeType → Type 0
IsUnambiguous (custom s) = from_str s ≡ custom s
IsUnambiguous _ = Unit

-- Printing a edge and reading it gives it back, where a custom one does not have a known name.
pub from_str-as_str : (edge : EdgeType) → IsUnambiguous edge → from_str (as_str edge) ≡ edge
unfolding from_str as_str
from_str-as_str can_assume h = refl
from_str-as_str has_permission h = refl
from_str-as_str contains h = refl
from_str-as_str member_of h = refl
from_str-as_str signed_by h = refl
from_str-as_str has_effective_permission h = refl
from_str-as_str bounded_by h = refl
from_str-as_str governed_by h = refl
from_str-as_str can_escalate_to h = refl
from_str-as_str has_managed_policy h = refl
from_str-as_str has_permissions_boundary h = refl
from_str-as_str has_bucket_policy h = refl
from_str-as_str has_key_policy h = refl
from_str-as_str allows_access_from h = refl
from_str-as_str kms_grantable h = refl
from_str-as_str enforces_scp h = refl
from_str-as_str encrypted_by h = refl
from_str-as_str acts_on h = refl
from_str-as_str (custom s) h = h

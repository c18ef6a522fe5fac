-- ===== src/Ingest/Permissions/Merged.antt =====
-- Which permissions a principal keeps, and from where
-- (crates/activable-ingest/src/native/permissions.rs).
use activable_cloud.Prelude.{◌≡◌, List, Option, none, some, Text, Any}
use activable_cloud.Prelude.Errors.{Result}
use activable_cloud.Json.{Value}
use activable_cloud.Ingest.Permissions.{
  Pair, Skipped, PermissionsEnricher, PrincipalPolicies, parse_and_extract_permissions, Sources,
}

-- The map has an entry for the pair.
abbrev pub HasKey : Pair → Sources → Type 0
HasKey p sources = Any (λ (e : Pair × Text). p ≡ e.0) sources

-- An extraction lists the pair.
abbrev pub Lists : Pair → Option (List Pair) → Type 0
Lists p none = ⊥
Lists p (some ps) = Any (λ q. p ≡ q) ps

-- The boundary lets the pair pass: there is none, or it lists the very pair.
abbrev pub Passes : Pair → Option (List Pair) → Type 0
Passes p none = Unit
Passes p (some boundary) = Any (λ q. p ≡ q) boundary

-- What is extracted of the two kinds of policies, the counters running on from one to the other.
abbrev pub inline_of :
    (Text → Result Text Value)
    → PermissionsEnricher
    → PrincipalPolicies
    → Skipped
    → Option (List Pair) × Skipped
inline_of from_str enricher principal counters =
    parse_and_extract_permissions from_str principal.inline_policies enricher.skip_deny counters

abbrev pub managed_of :
    (Text → Result Text Value)
    → PermissionsEnricher
    → PrincipalPolicies
    → Skipped
    → Option (List Pair) × Skipped
managed_of from_str enricher principal counters =
    parse_and_extract_permissions from_str principal.managed_policies enricher.skip_deny
      (inline_of from_str enricher principal counters).1

-- ===== src/Ingest/Enrichment.antt =====
-- The enricher of permissions: `enrich` of crates/activable-ingest/src/native/permissions.rs. The
-- query that fetches the principals and SHA-256 are parameters; maps are gone through in the order of
-- insertion, which a `HashMap` does not promise.
use activable_cloud.Prelude.{
  ℕ, false, ◌%◌, ◌^◌, List, [], ◌∷◌, ◌++◌, map, Option, none, some, Text, codes, text_eq, concat,
  if◌then◌else◌,
}
use activable_cloud.Prelude.Errors.{Result}
use activable_cloud.Json.{Value, string, array, object, nil, end, field}
use activable_cloud.Graph.Connection.{Database, Action, ◌>>=◌, pure}
use activable_cloud.Graph.Loader.{load_nodes, load_edges_with_props_identifying}
use activable_cloud.Ingest.Permissions.{
  Pair, PermissionsEnricher, PrincipalPolicies, Skipped, Sources, principal_permissions,
}

-- A row of the query: four columns, each of which may be null.
pub record Row : Type 0 where
  pub id : Option Text
  pub inline : Option Text
  pub managed : Option Text
  pub boundary : Option Text

module _ (trim : Text → Text) where
  abbrev pub policies_or_empty : Option Text → Value
  policies_or_empty none = array nil
  policies_or_empty (some s) = if text_eq (trim s) (codes "null") then array nil else string s

  abbrev pub boundary_or_none : Option Text → Option Value
  boundary_or_none none = none
  boundary_or_none (some s) = if text_eq (trim s) (codes "null") then none else some (string s)

  -- The loop over the rows; one without an id is passed over.
  unfoldable pub principals_of : List Row → List PrincipalPolicies
  principals_of [] = []
  principals_of (row ∷ rows) = elim row.id [
    | none ↦ principals_of rows
    | some id ↦
        record {
          principal_id = trim id;
          inline_policies = policies_or_empty row.inline;
          managed_policies = policies_or_empty row.managed;
          permissions_boundary = boundary_or_none row.boundary;
        }
        ∷ principals_of rows
  ]

module _ (sha256_hex : Text → Text) where
  abbrev pub perm_key : Pair → Text
  perm_key (action, resource) = concat (action ∷ codes "|" ∷ resource ∷ [])

  abbrev pub sha256_perm_id : Pair → Text
  sha256_perm_id pair = codes "perm:" ++ sha256_hex (perm_key pair)

  abbrev pub permission_node : Pair → Value
  permission_node (action, resource) = object (
      field (codes "action") (string action) (
        field (codes "id") (string (sha256_perm_id (action, resource)))
          (field (codes "resource") (string resource) end)))

  -- `entry(key).or_insert_with(…)`.
  abbrev pub add_node : Pair → List (Text × Value) → List (Text × Value)
  add_node pair [] = (perm_key pair, permission_node pair) ∷ []
  add_node pair ((k, v) ∷ rest) =
      if text_eq k (perm_key pair) then (k, v) ∷ rest else (k, v) ∷ add_node pair rest

  abbrev pub permission_edge : Text → Pair × Text → Text × Text × Value
  permission_edge principal_id ((action, resource), source) = (
    principal_id,
    sha256_perm_id (action, resource),
    object (
        field (codes "action") (string action) (
          field (codes "resource") (string resource) (field (codes "source") (string source) end))),
  )

  -- The nodes by their keys, and the edges.
  pub record Collected : Type 0 where
    pub nodes : List (Text × Value)
    pub edges : List (Text × Text × Value)

  abbrev pub add_nodes : Sources → List (Text × Value) → List (Text × Value)
  add_nodes [] nodes = nodes
  add_nodes ((pair, source) ∷ rest) nodes = add_nodes rest (add_node pair nodes)

  -- The loop over the principals: step 3 for what the other steps leave of each.
  unfoldable pub collect :
      (Text → Result Text Value)
      → PermissionsEnricher
      → List PrincipalPolicies
      → Skipped
      → Collected
      → Collected
  collect from_str enricher [] counters c = c
  collect from_str enricher (principal ∷ rest) counters c =
      let (sources, after) = principal_permissions from_str enricher principal counters in
      collect from_str enricher rest after (record {
        nodes = add_nodes sources c.nodes;
        edges = c.edges ++ map (permission_edge principal.principal_id) sources;
      })

  module _ {D : Type 0} (db : Database D) (to_string : Value → Option Text) where
    abbrev pub write_nodes : Text → List (Text × Value) → Action D ℕ
    write_nodes graph_name [] = pure 0
    write_nodes graph_name (n ∷ nodes) =
        load_nodes db to_string graph_name (codes "Permission") (map (λ (k, v). v) (n ∷ nodes))

    -- `outcome.created as u32`.
    abbrev pub write_edges : Text → List (Text × Text × Value) → Action D ℕ
    write_edges graph_name [] = pure 0
    write_edges graph_name (e ∷ edges) =
        load_edges_with_props_identifying db graph_name (codes "HasEffectivePermission") (e ∷ edges)
          false (codes "action" ∷ codes "resource" ∷ [])
        >>= λ outcome. pure (outcome.created % 2 ^ 32)

    -- The number of edges that were created.
    unfoldable pub enrich :
        (Text → Result Text Value)
        → Action D (List PrincipalPolicies)
        → PermissionsEnricher
        → Text
        → Action D ℕ
    unfolding collect
    enrich from_str fetch enricher graph_name = fetch >>= λ principals.
        let c =
          collect from_str enricher principals (record { skipped_deny = 0; skipped_conditions = 0 })
            (record { nodes = []; edges = [] }) in
        (write_nodes graph_name c.nodes >>= λ written. write_edges graph_name c.edges)

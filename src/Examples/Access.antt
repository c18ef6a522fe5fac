-- ===== src/Examples/Access.antt =====
-- Access edges and the rows of queries on concrete values (crates/activable-ingest,
-- crates/activable-graph).
use activable_cloud.Prelude.{
  none, is_ascii_alphanumeric, ℕ, ◌*◌, ◌+◌, ◌≤◌, ◌≡◌, refl, true, false, List, [], ◌∷◌, map, some,
  Text, codes, length, All, ◌==◌, if◌then◌else◌,
}
use activable_cloud.Prelude.Errors.{Result, ok, err}
use activable_cloud.Json.{Value, string, array, object, nil, cons, end, field, get_in}
use activable_cloud.Ingest.Access.{
  ParsedStatement, parse_resource_policy, build_principal_node, build_access_edges,
}
use activable_cloud.Ingest.Access.Closed.{IsClosed, build_access_edges-IsClosed}
use activable_cloud.Graph.Errors.{GraphError}
use activable_cloud.Graph.Escape.{escape_cypher}
use activable_cloud.Graph.QueryBuilder
use activable_cloud.Graph.QueryBuilder.{outgoing}
use activable_cloud.Graph.Nodes.{NodeRef, Columns}
use activable_cloud.Graph.Client.{Connections, walk_edges, blast_radius, subgraph}
use activable_cloud.Graph.Client.Rows.{quoted, in_quotes, as_written}
use activable_cloud.Graph.Client.Reads.{Answers, neighbours-reads, subgraph-reads}
use activable_cloud.Graph.Nodes.{parse_agtype_scalar}
use activable_cloud.Ingest.Errors.{config}
use activable_cloud.Ingest.Relationships.{
  RelationshipRule, CountReading, skipped, apply_relationships,
}
use activable_cloud.Ingest.Relationships.Valid.{logged, IsBuilt, apply_relationships-IsBuilt}

abbrev bucket : Text
bucket = codes "arn:aws:s3:::b"

abbrev role : Text
role = codes "arn:aws:iam::111111111111:role/R"

-- A bucket policy for one role and one for everybody, and a statement that denies.
abbrev policy : Value
policy = object (
    field (codes "Statement")
      (array (
        cons
          (object (
            field (codes "Principal") (object (field (codes "AWS") (string role) end))
              (field (codes "Action") (string (codes "s3:GetObject")) end)))
          (cons
            (object (
              field (codes "Effect") (string (codes "Deny")) (
                field (codes "Principal") (string (codes "*"))
                  (field (codes "Action") (string (codes "s3:*")) end))))
            (cons
              (object (
                field (codes "Principal") (string (codes "*"))
                  (field (codes "Action") (string (codes "s3:ListBucket")) end)))
              nil))))
      end)

abbrev for_role : ParsedStatement
for_role = record {
  effect = codes "Allow";
  principals = role ∷ [];
  actions = codes "s3:GetObject" ∷ [];
  condition_keys = [];
  wildcard_principal = false;
}

abbrev for_all : ParsedStatement
for_all = record {
  effect = codes "Allow";
  principals = codes "*" ∷ [];
  actions = codes "s3:ListBucket" ∷ [];
  condition_keys = [];
  wildcard_principal = true;
}

parsed : parse_resource_policy (λ s. ok policy) (codes "{}") ≡ ok (for_role ∷ for_all ∷ [])
unfolding parse_resource_policy
parsed = refl

abbrev caller : Text
caller = codes "999999999999"

-- The role is of another account.
external : get_in (codes "external") (build_principal_node role caller) ≡ some (Value.boolean true)
unfolding build_principal_node
external = refl

edge_ends :
    map (λ e. e.1) (build_access_edges bucket (for_role ∷ for_all ∷ []) caller).0
    ≡ role ∷ codes "*" ∷ []
unfolding build_access_edges
edge_ends = refl

build_access_edges-IsClosed_example :
    let (edges, nodes) = build_access_edges bucket (for_role ∷ for_all ∷ []) caller in
    All (IsClosed bucket nodes) edges × (length edges ≤ 50 * 2)
build_access_edges-IsClosed_example =
    build_access_edges-IsClosed bucket (for_role ∷ for_all ∷ []) caller

-- A row of two columns.
abbrev pairs : Columns (Text × Text)
pairs = record {
  try_get = λ (a, b) i. if i == 0 then ok a else ok b;
  try_get_option = λ (a, b) i. if i == 0 then ok (some a) else ok (some b);
  try_get_bytes = λ (a, b) i. if i == 0 then ok a else ok b;
}

abbrev rows : List (Text × Text)
rows = (quoted (codes "b"), quoted (codes "User")) ∷ []

abbrev refs : List NodeRef
refs = record { id = codes "b"; label = codes "User" } ∷ []

-- Connections that count the calls and answer every query by one node.
abbrev one_node : Connections ℕ (Text × Text)
one_node = record {
  get = λ n. (ok tt, n + 1);
  batch_execute = λ sql n. (ok tt, n + 1);
  query = λ sql n. (ok rows, n + 1);
}

abbrev sql_of : Result GraphError Text → Text
sql_of (ok sql) = sql
sql_of (err e) = []

walk_answered :
    Answers one_node pairs
      (codes "g")
      (QueryBuilder.walk_edges (codes "g") (codes "a") [] outgoing 10)
      0
      rows
      3
unfolding QueryBuilder.walk_edges escape_cypher
walk_answered =
    (sql_of (QueryBuilder.walk_edges (codes "g") (codes "a") [] outgoing 10), 2, refl, refl, refl)

blast_answered :
    Answers one_node pairs
      (codes "g")
      (QueryBuilder.blast_radius (codes "g") (codes "a") [] 10)
      0
      rows
      3
unfolding QueryBuilder.blast_radius escape_cypher
blast_answered =
    (sql_of (QueryBuilder.blast_radius (codes "g") (codes "a") [] 10), 2, refl, refl, refl)

subgraph_answered :
    Answers one_node pairs (codes "g") (QueryBuilder.subgraph (codes "g") (codes "a") 2) 0 rows 3
unfolding QueryBuilder.subgraph escape_cypher
subgraph_answered = (sql_of (QueryBuilder.subgraph (codes "g") (codes "a") 2), 2, refl, refl, refl)

neighbours-reads_example :
    (walk_edges one_node pairs (codes "g") (λ s. s) (codes "a") [] outgoing 10 0 ≡ (ok refs, 3))
    × (blast_radius one_node pairs (codes "g") (λ s. s) (codes "a") [] 10 0 ≡ (ok refs, 3))
neighbours-reads_example =
    neighbours-reads one_node pairs (codes "g") (λ s. s) (λ s. refl) (codes "a") [] outgoing 10 0
      rows refs ((refl, refl, refl, refl), tt) 3 3 walk_answered blast_answered

-- With quotes around the columns, the ids keep them.
subgraph-reads_example : subgraph one_node pairs (codes "g") (codes "a") 2 0 ≡ (
  ok (record {
    center = record { id = codes "a"; label = codes "Unknown" };
    nodes = map (as_written in_quotes) refs;
  }),
  3,
)
subgraph-reads_example =
    subgraph-reads one_node pairs (codes "g") in_quotes (codes "a") 2 0 rows 3 refs
      ((refl, refl, refl, refl), tt) subgraph_answered

-- A rule that is valid, and one whose property is not.
abbrev in_vpc : RelationshipRule
in_vpc = record {
  name = codes "instance-vpc";
  from_label = codes "Resource";
  to_label = codes "Vpc";
  edge_type = codes "InVpc";
  from_property = codes "vpc_id";
  to_property = codes "id";
}

abbrev broken : RelationshipRule
broken = record in_vpc { name = codes "broken"; from_property = codes "vpc-id" }

abbrev counts : CountReading
counts = record { trim = λ s. s; parse_u32 = λ s. some 7; from_str = λ s. none; as_i64 = λ v. none }

-- The valid rule is applied, and the other one is skipped.
applied_rules :
    (apply_relationships one_node pairs counts is_ascii_alphanumeric
      (codes "g")
      (ok (in_vpc ∷ broken ∷ []))
      0).0
    ≡ some (
        ok (
          record { rule_name = codes "instance-vpc"; edges_created = 7; skipped_rules = [] }
          ∷ skipped broken (
              config (
                codes
                  "property name 'vpc-id' contains invalid characters (only alphanumeric + underscore allowed)"))
          ∷ []))
unfolding apply_relationships parse_agtype_scalar
applied_rules = refl

apply_relationships-IsBuilt_example :
    All
      (IsBuilt is_ascii_alphanumeric one_node pairs counts (codes "g") (in_vpc ∷ broken ∷ []))
      (apply_relationships
        (logged one_node)
        pairs
        counts
        is_ascii_alphanumeric
        (codes "g")
        (ok (in_vpc ∷ broken ∷ []))
        (0, [])).1.1
apply_relationships-IsBuilt_example =
    apply_relationships-IsBuilt is_ascii_alphanumeric one_node pairs counts (codes "g")
      (in_vpc ∷ broken ∷ []) 0

-- ===== src/Examples/Codec.antt =====
-- Node properties, queries and loads on concrete values (crates/activable-schema,
-- crates/activable-graph).
use activable_cloud.Prelude.{
  ℕ, ◌+◌, ◌≡◌, refl, false, not, ◌&&◌, none, some, [], ◌∷◌, Text, codes, ◌==◌, if◌then◌else◌,
}
use activable_cloud.Prelude.Errors.{Result, ok, err}
use activable_cloud.Json.{Value}
use activable_cloud.Schema.Arn.{Arn}
use activable_cloud.Schema.Arn.Canonical.{IsCanonical}
use activable_cloud.Schema.Labels
use activable_cloud.Schema.Properties.{PrincipalProperties, label}
use activable_cloud.Schema.Agtype.Kinds.{of_principal, wrap, common_props, encode, decode}
use activable_cloud.Schema.Agtype.RoundTrip.{decode-encode}
use activable_cloud.Schema.Agtype.Stable.{decode-IsStable}
use activable_cloud.Graph.QueryBuilder.{both, walk_edges, find_by_id}
use activable_cloud.Graph.Errors.{GraphError}
use activable_cloud.Graph.Escape.{validate_label, escape_cypher}
use activable_cloud.Graph.QueryBuilder.Lexer.{
  outside, lex, arguments, sql_literal, cut_quote, cut_dollars,
}
use activable_cloud.Graph.QueryBuilder.Template.{tokens, Request, neighbors, by_id, build, template}
use activable_cloud.Graph.QueryBuilder.Safety.{build-template}
use activable_cloud.Graph.Connection.{Database}
use activable_cloud.Graph.Loader.{load_edges}
use activable_cloud.Graph.Loader.Counts.{load_edges-counts}

abbrev user_arn : Arn
user_arn = record {
  partition = codes "aws";
  service = codes "iam";
  region = [];
  account = codes "123456789012";
  resource = codes "user/a";
}

user_arn-IsCanonical : IsCanonical user_arn
user_arn-IsCanonical = record {
  partition_known = refl;
  service_lower = refl;
  service_present = refl;
  service_whole = refl;
  region_lower = refl;
  region_whole = refl;
  account_valid = refl;
  account_whole = refl;
  resource_present = refl;
}

abbrev user : PrincipalProperties
user = record {
  common = record { id = user_arn; ingest_run_id = codes "r1"; ingested_at = codes "t1" };
  name = codes "a";
  principal_type = codes "User";
  account = codes "123456789012";
  path = none;
}

abbrev printed : Value → Text
printed v = codes "{}"

decode-encode_example :
    decode printed of_principal Labels.principal (encode of_principal user) ≡ ok user
unfolding label
decode-encode_example = decode-encode printed of_principal user user_arn-IsCanonical

user_decoded : decode printed of_principal Labels.principal (encode of_principal user) ≡ ok user
unfolding label
user_decoded = decode-encode printed of_principal user user_arn-IsCanonical

decode-IsStable_example :
    (Labels.principal ≡ label (wrap of_principal user))
    × IsCanonical (common_props of_principal user).id
    × (decode printed of_principal Labels.principal (encode of_principal user) ≡ ok user)
decode-IsStable_example =
    decode-IsStable printed of_principal Labels.principal (encode of_principal user) user
      user_decoded

-- An id with a quote and a backslash, and two edge types.
abbrev request : Request
request = neighbors (codes "it's a\\b") (codes "CanAssume" ∷ codes "Trusts" ∷ []) both 10

abbrev sql_of : Result GraphError Text → Text
sql_of (ok sql) = sql
sql_of (err e) = []

built : build (codes "g") request ≡ ok (sql_of (build (codes "g") request))
unfolding walk_edges validate_label escape_cypher
built = refl

build-template_example :
    (cypher : Text) × (arguments (sql_of (build (codes "g") request)) ≡ some (codes "g", cypher))
    × (lex outside cypher ≡ some (tokens (template request)))
build-template_example =
    build-template (codes "g") request (sql_of (build (codes "g") request)) refl (refl, tt) built

-- An id with two dollar signs ends the quoted text.
cut_short :
    arguments (sql_of (build (codes "g") (by_id (codes "User") (codes "x$$y"))))
    ≡ some (codes "g", codes "MATCH (n:User {id: 'x")
unfolding find_by_id validate_label escape_cypher arguments sql_literal cut_quote cut_dollars
cut_short = refl

-- A quote in the name of the graph ends the literal, and the name is another one.
name_cut : arguments (sql_of (build (codes "g', 'h") (by_id (codes "User") (codes "x")))) ≡ none
unfolding find_by_id validate_label escape_cypher arguments sql_literal cut_quote cut_dollars
name_cut = refl

-- A database that holds the nodes "a" and "b", and counts its statements.
abbrev tiny : Database ℕ
tiny = record {
  get = λ n. (ok tt, n + 1);
  batch_execute = λ sql n. (ok tt, n + 1);
  query = λ sql n. (ok (if n == 3 then 1 else 0), n + 1);
}

loaded :
    (load_edges tiny
      (codes "g")
      (codes "Trusts")
      ((codes "a", codes "b") ∷ (codes "a", codes "c") ∷ [])
      false
      0).0
    ≡ ok (record { created = 1; dropped = 1 })
unfolding load_edges
loaded = refl

load_edges-counts_example : (1 + 1 ≡ 2) × ((false && not (1 == 0)) ≡ false)
load_edges-counts_example =
    load_edges-counts tiny (codes "g") (codes "Trusts")
      ((codes "a", codes "b") ∷ (codes "a", codes "c") ∷ []) false 0
      {outcome = record { created = 1; dropped = 1 }} loaded

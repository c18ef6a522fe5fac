-- ===== src/Graph/Client/Reads.antt =====
-- What the client reads of the rows that a query gives (crates/activable-graph/src/client.rs).
use activable_cloud.Prelude.{ℕ, ◌≡◌, ap, ◌∙◌, List, map, Text, codes}
use activable_cloud.Prelude.Errors.{Result, ok, map_err}
use activable_cloud.Graph.Errors
use activable_cloud.Graph.Errors.{GraphError, parse}
use activable_cloud.Graph.Nodes.{NodeRef, Subgraph, Columns, collect, read_node, read_labelled}
use activable_cloud.Graph.QueryBuilder
use activable_cloud.Graph.QueryBuilder.{Direction}
use activable_cloud.Graph.Connection.{Action, ◌>>=◌, pure, calling}
use activable_cloud.Graph.Client.{
  Connections, returned, connect, run, walk_edges, blast_radius, subgraph,
}
use activable_cloud.Graph.Client.Rows.{
  quoted, HoldNodes, Writing, as_written, HoldAll, collect-holds, collect_labelled-holds,
}

-- An action that succeeds goes on with its value.
step :
    {D A B : Type 0} (m : Action D A) (k : A → Action D B) (d : D) {a : A} {after : D}
    → m d ≡ (ok a, after)
    → (m >>= k) d ≡ k a after
step m k d e = ap (λ x. ((λ _. x) >>= k) d) e

module _ {D R : Type 0} (connections : Connections D R) (columns : Columns R)
    (graph_name : Text) where
  open connections use {query}

  -- The database answers a query that was built by the rows, from a state to another.
  abbrev pub Answers : Result GraphError Text → D → List R → D → Type 0
  Answers built d rows after =
      (sql : Text) × (between : D) × (built ≡ ok sql)
      × (connect connections columns graph_name d ≡ (ok tt, between))
      × (query sql between ≡ (ok rows, after))

  run-reads :
      {A : Type 0} (built : Result GraphError Text) (read : List R → Result GraphError A) (d : D)
      (rows : List R) (after : D)
      → Answers built d rows after
      → run connections columns graph_name built read d ≡ (read rows, after)
  unfolding run
  run-reads {A = A} built read d rows after (sql, between, is_built, connected, answered) =
      let finish : Text → Action D A =
        λ sql. calling Errors.query (query sql) >>= λ rows. returned (read rows) in
      step (connect connections columns graph_name) (λ _. returned built >>= finish) d connected
      ∙ rw is_built (
          step (calling Errors.query (query sql)) (λ rows. returned (read rows)) between
            (ap (λ x. (map_err Errors.query x.0, x.1)) answered))

  -- Where the database answers both queries by the same rows, these hold nodes, in quotes, and `trim` leaves quoted texts as they are, walk_edges and blast_radius return these nodes in order.
  pub neighbours-reads :
      (trim : Text → Text)
      → ((s : Text) → trim (quoted s) ≡ quoted s)
      → (start : Text) (edge_types : List Text) (direction : Direction) (bound : ℕ) (d : D)
        (rows : List R) (refs : List NodeRef)
      → HoldNodes columns rows refs
      → (after_walk after_blast : D)
      → Answers
          (QueryBuilder.walk_edges graph_name start edge_types direction bound)
          d
          rows
          after_walk
      → Answers (QueryBuilder.blast_radius graph_name start edge_types bound) d rows after_blast
      → (walk_edges connections columns graph_name trim start edge_types direction bound d
          ≡ (ok refs, after_walk))
        × (blast_radius connections columns graph_name trim start edge_types bound d
            ≡ (ok refs, after_blast))
  unfolding walk_edges blast_radius
  neighbours-reads trim trim-quoted start edge_types direction bound d rows refs h after_walk
        after_blast walked blasted =
      let read = collect (read_node columns trim) in
      let all = collect-holds columns trim trim-quoted rows refs h in
      (
        run-reads (QueryBuilder.walk_edges graph_name start edge_types direction bound) read d rows
              after_walk walked
            ∙ ap (λ r. (r, after_walk)) all,
        run-reads (QueryBuilder.blast_radius graph_name start edge_types bound) read d rows
              after_blast blasted
            ∙ ap (λ r. (r, after_blast)) all,
      )

  -- Where the database answers by rows that hold an id and a label of letters, digits and underscores, both in quotes or both bare, subgraph returns these nodes in order, around the unlabelled center: each label without quotes, and each id exactly as the column writes it.
  pub subgraph-reads :
      (w : Writing) (center : Text) (radius : ℕ) (d : D) (rows : List R) (after : D)
      (refs : List NodeRef)
      → HoldAll columns w rows refs
      → Answers (QueryBuilder.subgraph graph_name center radius) d rows after
      → subgraph connections columns graph_name center radius d ≡ (
        ok (record {
          center = record { id = center; label = codes "Unknown" };
          nodes = map (as_written w) refs;
        }),
        after,
      )
  unfolding subgraph
  subgraph-reads w center radius d rows after refs h a =
      let read = collect (read_labelled columns) in
      let built = QueryBuilder.subgraph graph_name center radius in
      let found : List NodeRef → Action D Subgraph = λ nodes.
        pure (record { center = record { id = center; label = codes "Unknown" }; nodes = nodes }) in
      step (run connections columns graph_name built read) found d (
        run-reads built read d rows after a
        ∙ ap (λ r. (r, after)) (collect_labelled-holds columns w rows refs h))

-- ===== src/Graph/Loader/Counts.antt =====
-- What a load of edges counts (crates/activable-graph/src/loader.rs).
use activable_cloud.Prelude.{
  ℕ, suc, ◌+◌, ◌≡◌, refl, ap, ◌∙◌, inl, inr, ◌⊎◌, Bool, true, false, not, ◌&&◌, List, [], ◌∷◌, map,
  arith, Text, codes, length, ◌==◌, Bool-cases,
}
use activable_cloud.Prelude.Errors.{Result, ok, err, ok_injective}
use activable_cloud.Json.{Value}
use activable_cloud.Graph.Errors.{GraphError}
use activable_cloud.Graph.Connection.{Database, Action, ◌>>=◌, pure, fail, calling}
use activable_cloud.Graph.Loader.{
  EdgeLoadOutcome, connect, begin, commit, check_edge_label, transact, prepare, prepare_with_props,
  insert_error, missing_endpoint, on_rows, insert_edges, load_prepared, load_edges,
  load_edges_with_props_identifying,
}

settle :
    {D A B : Type 0} (k : A → Action D B) (x : Result GraphError A × D) (d : D) {b : B}
    → (((λ _. x) >>= k) d).0 ≡ ok b
    → (a : A) × (after : D) × (x.0 ≡ ok a) × ((k a after).0 ≡ ok b)
settle k (err e, after) d h = cc
settle k (ok a, after) d h = (a, after, refl, h)

-- An action that succeeds as a whole went through both of its parts.
>>=-ok :
    {D A B : Type 0} (m : Action D A) (k : A → Action D B) (d : D) {b : B}
    → ((m >>= k) d).0 ≡ ok b
    → (a : A) × (after : D) × ((m d).0 ≡ ok a) × ((k a after).0 ≡ ok b)
>>=-ok m k d h = settle k (m d) d h

err_not_ok : {F S : Type 0} {f : F} {s : S} → ¬ (◌≡◌ {A = Result F S} (err f) (ok s))
err_not_ok h = cc

length-map : {A B : Type 0} (f : A → B) (xs : List A) → length (map f xs) ≡ length xs
length-map f [] = refl
length-map f (x ∷ xs) = ap suc (length-map f xs)

module _ {D : Type 0} (db : Database D) where
  open db use {query}

  -- A round that goes on counts its edge, as dropped only if the mode is not strict.
  on_rows-ok :
      (strict : Bool) (ends : Text × Text) (next : EdgeLoadOutcome → Action D EdgeLoadOutcome)
      (start : EdgeLoadOutcome) (rows : ℕ) (d : D) (outcome : EdgeLoadOutcome)
      → (on_rows db strict ends next start rows d).0 ≡ ok outcome
      → ((next (record start { created = start.created + 1 }) d).0 ≡ ok outcome)
        ⊎ ((strict ≡ false)
            × ((next (record start { dropped = start.dropped + 1 }) d).0 ≡ ok outcome))
  on_rows-ok true ends next start rows d outcome e = elim (Bool-cases (rows == 0)) [
    | inl z ↦
        let stopped = >>=-ok (commit db) (λ _. fail (missing_endpoint ends)) d (rw z at e) in
        absurd (err_not_ok stopped.3)
    | inr n ↦ inl (rw n at e)
  ]
  on_rows-ok false ends next start rows d outcome e = elim (Bool-cases (rows == 0)) [
    | inl z ↦ inr (refl, rw z at e)
    | inr n ↦ inl (rw n at e)
  ]

  insert_edges-counts :
      (message : Text) (strict : Bool) (edges : List ((Text × Text) × Text))
      (start : EdgeLoadOutcome) (d : D) {outcome : EdgeLoadOutcome}
      → (insert_edges db message strict edges start d).0 ≡ ok outcome
      → (outcome.created + outcome.dropped ≡ length edges + (start.created + start.dropped))
        × ((strict && not (outcome.dropped == start.dropped)) ≡ false)
  unfolding insert_edges
  insert_edges-counts message strict [] start d h =
      let same : start ≡ _ = ok_injective h in rw (← same) (omega arith, ground arith)
  insert_edges-counts message strict ((ends, sql) ∷ rest) start d {outcome} h =
      let (rows, after, _, e) =
        >>=-ok (calling (insert_error message ends) (query sql))
          (on_rows db strict ends (insert_edges db message strict rest) start) d h in
      elim (on_rows-ok strict ends (insert_edges db message strict rest) start rows after outcome
        e) [
          | inl created ↦
              let (total, kept) =
                insert_edges-counts message strict rest
                  (record start { created = start.created + 1 }) after created in
              (omega (arith, total), kept)
          | inr (lenient, dropped) ↦
              let (total, _) =
                insert_edges-counts message strict rest
                  (record start { dropped = start.dropped + 1 }) after dropped in
              (omega (arith, total), rw lenient refl)
        ]

  load_prepared-counts :
      (message : Text) (strict : Bool) (edge_label : Text) (edges : List ((Text × Text) × Text))
      (d : D) {outcome : EdgeLoadOutcome}
      → (load_prepared db message strict edge_label edges d).0 ≡ ok outcome
      → (outcome.created + outcome.dropped ≡ length edges)
        × ((strict && not (outcome.dropped == 0)) ≡ false)
  unfolding load_prepared
  load_prepared-counts message strict edge_label [] d h =
      let same = ok_injective h in rw (← same) (refl, ground arith)
  load_prepared-counts message strict edge_label (edge ∷ edges) d h =
      let start : EdgeLoadOutcome = record { created = 0; dropped = 0 } in
      let all = edge ∷ edges in
      let finish : EdgeLoadOutcome → Action D EdgeLoadOutcome = λ o. commit db >>= λ _. pure o in
      let (_, d1, _, h1) =
        >>=-ok (connect db)
          (λ _. check_edge_label db edge_label >>= λ _. transact db message strict all) d h in
      let (_, d2, _, h2) =
        >>=-ok (check_edge_label db edge_label) (λ _. transact db message strict all) d1 h1 in
      let (_, d3, _, h3) =
        >>=-ok (begin db) (λ _. insert_edges db message strict all start >>= finish) d2 h2 in
      let (found, d4, counted, h4) =
        >>=-ok (insert_edges db message strict all start) finish d3 h3 in
      let (_, d5, _, h5) = >>=-ok (commit db) (λ _. pure found) d4 h4 in
      let same = ok_injective h5 in
      let (total, kept) = insert_edges-counts message strict all start d3 counted in
      rw (← same) (omega (arith, total), kept)

-- Where edges are loaded, each is counted once, as created or as dropped, and in strict mode none is dropped.
pub load_edges-counts :
    {D : Type 0} (db : Database D) (graph_name edge_label : Text) (edges : List (Text × Text))
    (strict : Bool) (d : D) {outcome : EdgeLoadOutcome}
    → (load_edges db graph_name edge_label edges strict d).0 ≡ ok outcome
    → (outcome.created + outcome.dropped ≡ length edges)
      × ((strict && not (outcome.dropped == 0)) ≡ false)
unfolding load_edges
load_edges-counts db graph_name edge_label edges strict d h =
    let (total, kept) =
      load_prepared-counts db (codes "Failed to insert edge from ") strict edge_label
        (map (prepare graph_name edge_label) edges) d h in
    (total ∙ length-map (prepare graph_name edge_label) edges, kept)

-- The same for edges with properties.
pub load_edges_with_props_identifying-counts :
    {D : Type 0} (db : Database D) (graph_name edge_label : Text)
    (edges : List (Text × Text × Value)) (strict : Bool) (keys : List Text) (d : D)
    {outcome : EdgeLoadOutcome}
    → (load_edges_with_props_identifying db graph_name edge_label edges strict keys d).0
      ≡ ok outcome
    → (outcome.created + outcome.dropped ≡ length edges)
      × ((strict && not (outcome.dropped == 0)) ≡ false)
unfolding load_edges_with_props_identifying
load_edges_with_props_identifying-counts db graph_name edge_label edges strict keys d h =
    let (total, kept) =
      load_prepared-counts db (codes "Failed to insert edge with props from ") strict edge_label
        (map (prepare_with_props graph_name edge_label keys) edges) d h in
    (total ∙ length-map (prepare_with_props graph_name edge_label keys) edges, kept)

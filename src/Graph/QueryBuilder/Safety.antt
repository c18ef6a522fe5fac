-- ===== src/Graph/QueryBuilder/Safety.antt =====
-- The queries that are built are the ones that are meant
-- (crates/activable-graph/src/query_builder.rs).
use activable_cloud.Prelude.{
  All-append, ℕ, ◌≡◌, refl, sym, ◌∙◌, ap, false, List, [], ◌∷◌, ◌++◌, some, Text, codes, All,
  contains_char,
}
use activable_cloud.Prelude.Decimal.{decimal, decimal-free}
use activable_cloud.Prelude.Errors.{ok, >>=-eq-ok, ok_injective}
use activable_cloud.Graph.Escape.{quote, validate_label}
use activable_cloud.Graph.Escape.Labels.{validate_label_iff, label-free}
use activable_cloud.Graph.QueryBuilder.{
  Direction, node_columns, node_returned, arrow_right, validate_all, path_pattern, find_by_id,
  walk_edges, path_finder, shortest_path_length, blast_radius, subgraph,
}
use activable_cloud.Graph.QueryBuilder.Lexer.{outside, lex, arguments}
use activable_cloud.Graph.QueryBuilder.Template.{
  plain, render, tokens, IsQuoteFree, IsDollarFree, lex-render, render-free, Request, by_id,
  neighbors, paths, path_length, reachable, around, build, ids, typed, filtered, hops_of, template,
}
use activable_cloud.Graph.QueryBuilder.Shapes.{
  arguments-select, render-append, validate_all-ok, IsMeant, hops_of-path_pattern, render-typed,
  render-filtered, typed-All, filtered-All, arrows-free,
}

find_by_id-IsMeant :
    (g label id : Text) {sql : Text}
    → find_by_id g label id ≡ ok sql
    → IsMeant g (by_id label id) sql
unfolding find_by_id
find_by_id-IsMeant g label id h =
    let (s, valid, e) = >>=-eq-ok (validate_label label) _ h in
    let named = ((validate_label_iff label s).0 valid).0 in
    record {
      columns = node_columns;
      returned = node_returned;
      shape = sym (ok_injective e);
      columns_free = (refl, refl);
      quotes = (refl, (label-free quote refl label named, (refl, (tt, (refl, tt)))));
      dollars = λ (free, _). (refl, (label-free b'$' refl label named, (refl, (free, (refl, tt)))));
    }

path_finder-IsMeant :
    (g start end : Text) (types : List Text) (hops : ℕ) {sql : Text}
    → path_finder g start end types hops ≡ ok sql
    → IsMeant g (paths start end types hops) sql
unfolding path_finder
path_finder-IsMeant g start end types hops h =
    let (pattern, found, e) = >>=-eq-ok (path_pattern types hops) _ h in
    let (same, quotes, dollars) = hops_of-path_pattern types hops found in
    record {
      columns = codes "path::text";
      returned = codes "path agtype";
      shape = rw (render-append (hops_of types hops)) (rw same at (sym (ok_injective e)));
      columns_free = (refl, refl);
      quotes = (
        refl,
        (tt, (refl, All-append IsQuoteFree (hops_of types hops) _ quotes (refl, (tt, (refl, tt))))),
      );
      dollars = λ (first, (last, _)). (
        refl,
        (
          first,
          (refl, All-append IsDollarFree (hops_of types hops) _ dollars (refl, (last, (refl, tt)))),
        ),
      );
    }

shortest_path_length-IsMeant :
    (g start end : Text) (hops : ℕ) {sql : Text}
    → shortest_path_length g start end hops ≡ ok sql
    → IsMeant g (path_length start end hops) sql
unfolding shortest_path_length
shortest_path_length-IsMeant g start end hops h = record {
  columns = codes "path_length::text";
  returned = codes "path_length agtype";
  shape = sym (ok_injective h);
  columns_free = (refl, refl);
  quotes = (
    refl,
    (tt, (refl, (refl, (decimal-free quote hops refl, (refl, (refl, (tt, (refl, tt)))))))),
  );
  dollars = λ (free, (last, _)). (
    refl,
    (free, (refl, (refl, (decimal-free b'$' hops refl, (refl, (refl, (last, (refl, tt)))))))),
  );
}

blast_radius-IsMeant :
    (g node : Text) (types : List Text) (hops : ℕ) {sql : Text}
    → blast_radius g node types hops ≡ ok sql
    → IsMeant g (reachable node types hops) sql
unfolding blast_radius
blast_radius-IsMeant g node types hops h =
    let (pattern, found, e) = >>=-eq-ok (path_pattern types hops) _ h in
    let (same, quotes, dollars) = hops_of-path_pattern types hops found in
    record {
      columns = node_columns;
      returned = node_returned;
      shape = rw (render-append (hops_of types hops)) (rw same at (sym (ok_injective e)));
      columns_free = (refl, refl);
      quotes =
          (refl, (tt, (refl, All-append IsQuoteFree (hops_of types hops) _ quotes (refl, tt))));
      dollars = λ (free, _).
          (refl, (free, (refl, All-append IsDollarFree (hops_of types hops) _ dollars (refl, tt))));
    }

subgraph-IsMeant :
    (g center : Text) (radius : ℕ) {sql : Text}
    → subgraph g center radius ≡ ok sql
    → IsMeant g (around center radius) sql
unfolding subgraph
subgraph-IsMeant g center radius h = record {
  columns = node_columns;
  returned = node_returned;
  shape = sym (ok_injective h);
  columns_free = (refl, refl);
  quotes = (refl, (tt, (refl, (refl, (decimal-free quote radius refl, (refl, (refl, tt)))))));
  dollars = λ (free, _).
      (refl, (free, (refl, (refl, (decimal-free b'$' radius refl, (refl, (refl, tt)))))));
}

walk_edges-IsMeant :
    (g start : Text) (types : List Text) (direction : Direction) (limit : ℕ) {sql : Text}
    → walk_edges g start types direction limit ≡ ok sql
    → IsMeant g (neighbors start types direction limit) sql
unfolding walk_edges
walk_edges-IsMeant g start types direction limit h =
    let (_, valid, e) = >>=-eq-ok (validate_all types) _ h in
    let named = validate_all-ok types valid in
    let (ql, qr) = arrows-free quote direction refl in
    let (dl, dr) = arrows-free b'$' direction refl in
    let last = plain (codes " RETURN t.id, label(t) LIMIT ") ∷ plain (decimal limit) ∷ [] in
    let more = plain (arrow_right direction) ∷ plain (codes "(t)") ∷ (filtered types ++ last) in
    record {
      columns = node_columns;
      returned = node_returned;
      shape =
          rw
            (
              render-append (typed types) more,
              ← render-typed types,
              render-append (filtered types) last,
              ← render-filtered types named,
            )
            (sym (ok_injective e));
      columns_free = (refl, refl);
      quotes = (
        refl,
        (
          tt,
          (
            refl,
            (
              ql,
              All-append IsQuoteFree (typed types) more
                  (typed-All IsQuoteFree types (λ t. label-free quote refl t) refl refl refl named)
                  (
                    qr,
                    (
                      refl,
                      All-append IsQuoteFree (filtered types) last
                          (filtered-All IsQuoteFree types (λ t _. tt) refl refl refl named)
                          (refl, (decimal-free quote limit refl, tt)),
                    ),
                  ),
            ),
          ),
        ),
      );
      dollars = λ (free, _). (
        refl,
        (
          free,
          (
            refl,
            (
              dl,
              All-append IsDollarFree (typed types) more
                  (typed-All IsDollarFree types (λ t. label-free b'$' refl t) refl refl refl named)
                  (
                    dr,
                    (
                      refl,
                      All-append IsDollarFree (filtered types) last
                          (filtered-All IsDollarFree types (λ t. label-free b'$' refl t) refl refl
                            refl named)
                          (refl, (decimal-free b'$' limit refl, tt)),
                    ),
                  ),
            ),
          ),
        ),
      );
    }

build-IsMeant : (g : Text) (r : Request) {sql : Text} → build g r ≡ ok sql → IsMeant g r sql
build-IsMeant g (by_id label id) h = find_by_id-IsMeant g label id h
build-IsMeant g (neighbors start types direction limit) h =
    walk_edges-IsMeant g start types direction limit h
build-IsMeant g (paths start end types hops) h = path_finder-IsMeant g start end types hops h
build-IsMeant g (path_length start end hops) h = shortest_path_length-IsMeant g start end hops h
build-IsMeant g (reachable node types hops) h = blast_radius-IsMeant g node types hops h
build-IsMeant g (around center radius) h = subgraph-IsMeant g center radius h

-- Where the name of the graph holds no single quote and no id holds a dollar sign, the database reads every query that is built as a call with this name and the template of the call, with each id as the value of one literal.
pub build-template :
    (g : Text) (r : Request) (sql : Text)
    → contains_char quote g ≡ false
    → All (λ id. contains_char b'$' id ≡ false) (ids r)
    → build g r ≡ ok sql
    → (cypher : Text) × (arguments sql ≡ some (g, cypher))
      × (lex outside cypher ≡ some (tokens (template r)))
build-template g r sql g_free ids_free h =
    let m = build-IsMeant g r h in
    let cypher = render (template r) in
    (
      cypher,
      ap arguments m.shape
          ∙ arguments-select m.columns g cypher m.returned m.columns_free g_free
              (render-free (template r) (m.dollars ids_free)),
      lex-render (template r) m.quotes,
    )

-- ===== src/Graph/QueryBuilder/Template.antt =====
-- What each query of crates/activable-graph/src/query_builder.rs is meant to be: constant parts, with
-- the texts that are values in them.
use activable_cloud.Prelude.{
  ℕ, ◌≡◌, refl, false, List, [], ◌∷◌, ◌++◌, some, Text, codes, All, contains_char,
  contains_char-append, replace, arith,
}
use activable_cloud.Prelude.Decimal.{decimal}
use activable_cloud.Prelude.Errors.{Result}
use activable_cloud.Graph.Errors.{GraphError}
use activable_cloud.Graph.Escape.{quote, backslash, escape_cypher}
use activable_cloud.Graph.QueryBuilder.{
  Direction, arrow_left, arrow_right, find_by_id, walk_edges, path_finder, shortest_path_length,
  blast_radius, subgraph,
}
use activable_cloud.Graph.QueryBuilder.Lexer.{
  Token, literal, outside, lex, chars, lex-plain, lex-escape_cypher,
}

pub data Piece : Type 0 where
  plain value : Text → Piece

-- A value is escaped and put in quotes.
abbrev pub render : List Piece → Text
render [] = []
render (plain t ∷ ps) = t ++ render ps
render (value t ∷ ps) = quote ∷ (escape_cypher t ++ quote ∷ render ps)

-- A value is one token.
abbrev pub tokens : List Piece → List Token
tokens [] = []
tokens (plain t ∷ ps) = chars t (tokens ps)
tokens (value t ∷ ps) = literal t ∷ tokens ps

abbrev pub IsQuoteFree : Piece → Type 0
IsQuoteFree (plain t) = contains_char quote t ≡ false
IsQuoteFree (value t) = Unit

abbrev pub IsDollarFree : Piece → Type 0
IsDollarFree (plain t) = contains_char b'$' t ≡ false
IsDollarFree (value t) = contains_char b'$' t ≡ false

-- The reader finds the values again, and nothing but them in quotes.
pub lex-render : (ps : List Piece) → All IsQuoteFree ps → lex outside (render ps) ≡ some (tokens ps)
unfolding lex
lex-render [] h = refl
lex-render (plain t ∷ ps) (h, hs) = lex-plain t (render ps) (tokens ps) h (lex-render ps hs)
lex-render (value t ∷ ps) (h, hs) =
    lex-escape_cypher t [] (render ps) (tokens ps) (lex-render ps hs)

replace-free :
    (c d : ℕ) (by s : Text)
    → contains_char c by ≡ false
    → contains_char c s ≡ false
    → contains_char c (replace d by s) ≡ false
replace-free c d by [] h k = refl
replace-free c d by (e ∷ s) h k =
    contains_char-append c _ (replace d by s) (ground arith)
      (replace-free c d by s h (ground arith))

escape_cypher-free :
    (t : Text) → contains_char b'$' t ≡ false → contains_char b'$' (escape_cypher t) ≡ false
unfolding escape_cypher
escape_cypher-free t h =
    let doubled = backslash ∷ backslash ∷ [] in
    replace-free b'$' quote (backslash ∷ quote ∷ []) (replace backslash doubled t) refl
      (replace-free b'$' backslash doubled t refl h)

pub render-free : (ps : List Piece) → All IsDollarFree ps → contains_char b'$' (render ps) ≡ false
render-free [] h = refl
render-free (plain t ∷ ps) (h, hs) = contains_char-append b'$' t (render ps) h (render-free ps hs)
render-free (value t ∷ ps) (h, hs) =
    contains_char-append b'$' (escape_cypher t) (quote ∷ render ps) (escape_cypher-free t h)
      (render-free ps hs)

-- A call of the builder: the operation and its arguments.
pub data Request : Type 0 where
  by_id : Text → Text → Request
  neighbors : Text → List Text → Direction → ℕ → Request
  paths : Text → Text → List Text → ℕ → Request
  path_length : Text → Text → ℕ → Request
  reachable : Text → List Text → ℕ → Request
  around : Text → ℕ → Request

abbrev pub build : Text → Request → Result GraphError Text
build graph_name (by_id label id) = find_by_id graph_name label id
build graph_name (neighbors start types direction limit) =
    walk_edges graph_name start types direction limit
build graph_name (paths start end types hops) = path_finder graph_name start end types hops
build graph_name (path_length start end hops) = shortest_path_length graph_name start end hops
build graph_name (reachable node types hops) = blast_radius graph_name node types hops
build graph_name (around center radius) = subgraph graph_name center radius

-- The ids that a call is about.
abbrev pub ids : Request → List Text
ids (by_id label id) = id ∷ []
ids (neighbors start types direction limit) = start ∷ []
ids (paths start end types hops) = start ∷ end ∷ []
ids (path_length start end hops) = start ∷ end ∷ []
ids (reachable node types hops) = node ∷ []
ids (around center radius) = center ∷ []

abbrev pub typed : List Text → List Piece
typed (single ∷ []) = plain (codes "[r:") ∷ plain single ∷ plain (codes "]") ∷ []
typed _ = plain (codes "[r]") ∷ []

abbrev pub listed : List Text → List Piece
listed [] = []
listed (a ∷ []) = value a ∷ []
listed (a ∷ b ∷ more) = value a ∷ plain (codes ", ") ∷ listed (b ∷ more)

abbrev pub filtered : List Text → List Piece
filtered (a ∷ b ∷ more) =
    plain (codes " WHERE label(r) IN [") ∷ (listed (a ∷ b ∷ more) ++ plain (codes "]") ∷ [])
filtered _ = []

abbrev pub hops_of : List Text → ℕ → List Piece
hops_of (single ∷ _) hops =
    plain (codes "[:")
    ∷ plain single
    ∷ plain (codes "*1..")
    ∷ plain (decimal hops)
    ∷ plain (codes "]")
    ∷ []
hops_of [] hops = plain (codes "[*1..") ∷ plain (decimal hops) ∷ plain (codes "]") ∷ []

-- The Cypher text of each call.
abbrev pub template : Request → List Piece
template (by_id label id) =
    plain (codes "MATCH (n:")
    ∷ plain label
    ∷ plain (codes " {id: ")
    ∷ value id
    ∷ plain (codes "}) RETURN n.id, label(n)")
    ∷ []
template (neighbors start types direction limit) =
    plain (codes "MATCH (s {id: ")
    ∷ value start
    ∷ plain (codes "})")
    ∷ plain (arrow_left direction)
    ∷ (typed types
        ++ plain (arrow_right direction)
          ∷ plain (codes "(t)")
          ∷ (filtered types
              ++ plain (codes " RETURN t.id, label(t) LIMIT ") ∷ plain (decimal limit) ∷ []))
template (paths start end types hops) =
    plain (codes "MATCH path = (s {id: ")
    ∷ value start
    ∷ plain (codes "})-")
    ∷ (hops_of types hops
        ++ plain (codes "->(t {id: ")
          ∷ value end
          ∷ plain (codes "}) RETURN [n IN nodes(path) | {id: n.id, label: label(n)}]")
          ∷ [])
template (path_length start end hops) =
    plain (codes "MATCH path = (s {id: ")
    ∷ value start
    ∷ plain (codes "})-")
    ∷ (hops_of [] hops
        ++ plain (codes "->(t {id: ")
          ∷ value end
          ∷ plain (codes "}) RETURN length(path) ORDER BY length(path) LIMIT 1")
          ∷ [])
template (reachable node types hops) =
    plain (codes "MATCH (c {id: ")
    ∷ value node
    ∷ plain (codes "})-")
    ∷ (hops_of types hops
        ++ plain (codes "->(neighbor) RETURN neighbor.id, label(neighbor) LIMIT 100") ∷ [])
template (around center radius) =
    plain (codes "MATCH (c {id: ")
    ∷ value center
    ∷ plain (codes "})-")
    ∷ (hops_of [] radius
        ++ plain (codes "->(neighbor) RETURN neighbor.id, label(neighbor) LIMIT 100") ∷ [])

-- ===== src/Graph/QueryBuilder/Shapes.antt =====
-- The parts of queries, and what they hold
-- (crates/activable-graph/src/query_builder.rs).
use activable_cloud.Prelude.{
  All-append, ℕ, all, ◌≡◌, refl, sym, ◌∙◌, ap, ap₂, true, false, List, [], ◌∷◌, ◌++◌, map, some,
  Text, codes, All, contains_char, contains_char-append, arith, concat, join,
}
use mathlib.Core.List.{append_assoc}
use activable_cloud.Prelude.Decimal.{decimal-free}
use activable_cloud.Prelude.Errors.{ok, >>=-eq-ok, ok_injective}
use activable_cloud.Graph.Escape.{quote, escape_cypher, validate_label}
use activable_cloud.Graph.Escape.Labels.{is_label, is_word, validate_label_iff, label-free}
use activable_cloud.Graph.QueryBuilder.{
  Direction, outgoing, incoming, both, select, arrow_left, arrow_right, walk_pattern, walk_where,
  validate_all, path_pattern,
}
use activable_cloud.Graph.QueryBuilder.Lexer.{arguments, arguments-append}
use activable_cloud.Graph.QueryBuilder.Template.{
  Piece, plain, value, render, IsQuoteFree, IsDollarFree, Request, ids, typed, listed, filtered,
  hops_of, template,
}

abbrev pub IsFree : Text → Type 0
IsFree t = contains_char b'$' t ≡ false

-- Neither a quote nor a dollar.
abbrev pub IsClean : Text → Type 0
IsClean t = (contains_char quote t ≡ false) × IsFree t

-- The SQL up to the name of the graph.
abbrev pub before_name : Text → Text
before_name columns = codes "SELECT " ++ (columns ++ codes " FROM ag_catalog.cypher(")

pub select-parts :
    (columns g cypher returned : Text)
    → select columns g cypher returned
      ≡ before_name columns
        ++ quote
          ∷ (g
              ++ quote
                ∷ b','
                ∷ b' '
                ∷ b'$'
                ∷ b'$'
                ∷ (cypher ++ b'$' ∷ b'$' ∷ (codes ") AS (" ++ (returned ++ codes ")"))))
select-parts columns g cypher returned = simp append_assoc

-- The database reads the name of the graph and the Cypher text as they are.
pub arguments-select :
    (columns g cypher returned : Text)
    → IsClean columns
    → contains_char quote g ≡ false
    → IsFree cypher
    → arguments (select columns g cypher returned) ≡ some (g, cypher)
arguments-select columns g cypher returned (q, d) k l =
    ap arguments (select-parts columns g cypher returned)
    ∙ arguments-append (before_name columns) g cypher (codes ") AS (" ++ (returned ++ codes ")"))
        (contains_char-append quote columns (codes " FROM ag_catalog.cypher(") q refl)
        (contains_char-append b'$' columns (codes " FROM ag_catalog.cypher(") d refl) k l

pub render-append : (ps qs : List Piece) → render (ps ++ qs) ≡ render ps ++ render qs
render-append [] qs = refl
render-append (plain t ∷ ps) qs =
    rw (render-append ps qs) (sym (append_assoc t (render ps) (render qs)))
render-append (value t ∷ ps) qs = rw (render-append ps qs, append_assoc) refl

-- Labels go into a query as they are: they hold no quote, no backslash and no dollar.
abbrev pub AreLabels : List Text → Type 0
AreLabels types = All (λ t. is_label t ≡ true) types

pub validate_all-ok : (types : List Text) → validate_all types ≡ ok tt → AreLabels types
unfolding validate_all
validate_all-ok [] h = tt
validate_all-ok (t ∷ types) h =
    let (s, valid, rest) = >>=-eq-ok (validate_label t) _ h in
    (((validate_label_iff t s).0 valid).0, validate_all-ok types rest)

-- What a query is, where the call succeeds: the template, between dollars that are the only ones.
pub record IsMeant (g : Text) (r : Request) (sql : Text) : Type 0 where
  pub columns : Text
  pub returned : Text
  pub shape : sql ≡ select columns g (render (template r)) returned
  pub columns_free : IsClean columns
  pub quotes : All IsQuoteFree (template r)
  pub dollars : All IsFree (ids r) → All IsDollarFree (template r)

-- The pattern of a path, and what it holds.
pub hops_of-path_pattern :
    (types : List Text) (hops : ℕ) {pattern : Text}
    → path_pattern types hops ≡ ok pattern
    → (pattern ≡ render (hops_of types hops))
      × All IsQuoteFree (hops_of types hops)
      × All IsDollarFree (hops_of types hops)
unfolding path_pattern
hops_of-path_pattern [] hops h = (
  sym (ok_injective h),
  (refl, (decimal-free quote hops refl, (refl, tt))),
  (refl, (decimal-free b'$' hops refl, (refl, tt))),
)
hops_of-path_pattern (single ∷ []) hops h =
    let (s, valid, e) = >>=-eq-ok (validate_label single) _ h in
    let named = ((validate_label_iff single s).0 valid).0 in
    (
      sym (ok_injective e),
      (
        refl,
        (label-free quote refl single named, (refl, (decimal-free quote hops refl, (refl, tt)))),
      ),
      (
        refl,
        (label-free b'$' refl single named, (refl, (decimal-free b'$' hops refl, (refl, tt)))),
      ),
    )
hops_of-path_pattern (a ∷ b ∷ more) hops h = cc

-- A label that is put between quotes without being escaped is written as a value is.
pub escape_cypher-label : (s : Text) → all is_word s ≡ true → escape_cypher s ≡ s
unfolding escape_cypher
escape_cypher-label [] h = refl
escape_cypher-label (c ∷ s) h =
    let later = escape_cypher-label s (ground arith) in
    let first : is_word c ≡ true = ground arith in ground (arith, later)

pub escape_cypher-of_label : (s : Text) → is_label s ≡ true → escape_cypher s ≡ s
escape_cypher-of_label [] h = cc
escape_cypher-of_label (c ∷ s) h = escape_cypher-label (c ∷ s) (ground arith)

pub render-typed : (types : List Text) → walk_pattern types ≡ render (typed types)
render-typed [] = refl
render-typed (single ∷ []) = refl
render-typed (a ∷ b ∷ more) = refl

pub render-listed :
    (types : List Text)
    → AreLabels types
    → join (codes ", ") (map (λ et. concat (codes "'" ∷ et ∷ codes "'" ∷ [])) types)
      ≡ render (listed types)
render-listed [] h = refl
render-listed (a ∷ []) (h, _) = rw (escape_cypher-of_label a h) refl
render-listed (a ∷ b ∷ more) (h, hs) = ap (◌∷◌ quote) (
    append_assoc a (quote ∷ []) _
    ∙ ap₂ (λ x y. x ++ quote ∷ (codes ", " ++ y)) (sym (escape_cypher-of_label a h))
        (render-listed (b ∷ more) hs))

pub render-filtered :
    (types : List Text) → AreLabels types → walk_where types ≡ render (filtered types)
render-filtered [] h = refl
render-filtered (single ∷ []) h = refl
render-filtered (a ∷ b ∷ more) h = ap (◌++◌ (codes " WHERE label(r) IN [")) (
    ap (λ t. t ++ codes "]") (render-listed (a ∷ b ∷ more) h)
    ∙ sym (render-append (listed (a ∷ b ∷ more)) (plain (codes "]") ∷ [])))

-- What the parts of a walk's query hold.
pub typed-All :
    (P : Piece → Type 0) (types : List Text)
    → ((t : Text) → is_label t ≡ true → P (plain t))
    → P (plain (codes "[r:"))
    → P (plain (codes "]"))
    → P (plain (codes "[r]"))
    → AreLabels types
    → All P (typed types)
typed-All P [] f p q r h = (r, tt)
typed-All P (single ∷ []) f p q r (h, _) = (p, (f single h, (q, tt)))
typed-All P (a ∷ b ∷ more) f p q r h = (r, tt)

pub listed-All :
    (P : Piece → Type 0) (types : List Text)
    → ((t : Text) → is_label t ≡ true → P (value t))
    → P (plain (codes ", "))
    → AreLabels types
    → All P (listed types)
listed-All P [] f p h = tt
listed-All P (a ∷ []) f p (h, _) = (f a h, tt)
listed-All P (a ∷ b ∷ more) f p (h, hs) = (f a h, (p, listed-All P (b ∷ more) f p hs))

pub filtered-All :
    (P : Piece → Type 0) (types : List Text)
    → ((t : Text) → is_label t ≡ true → P (value t))
    → P (plain (codes ", "))
    → P (plain (codes " WHERE label(r) IN ["))
    → P (plain (codes "]"))
    → AreLabels types
    → All P (filtered types)
filtered-All P [] f p q r h = tt
filtered-All P (single ∷ []) f p q r h = tt
filtered-All P (a ∷ b ∷ more) f p q r h =
    (q, All-append P (listed (a ∷ b ∷ more)) _ (listed-All P (a ∷ b ∷ more) f p h) (r, tt))

pub arrows-free :
    (c : ℕ) (direction : Direction)
    → contains_char c (codes "<->") ≡ false
    → (contains_char c (arrow_left direction) ≡ false)
      × (contains_char c (arrow_right direction) ≡ false)
arrows-free c outgoing h = ground arith
arrows-free c incoming h = ground arith
arrows-free c both h = ground arith

-- ===== src/Graph/QueryBuilder/Lexer.antt =====
-- How the database reads the text of a query: the two arguments in the SQL, a quoted name and a
-- dollar-quoted Cypher text, and the string literals in the latter. It describes what the queries of
-- crates/activable-graph/src/query_builder.rs are given to, apart from them.
use activable_cloud.Prelude.{
  ℕ, ◌≡◌, refl, inl, inr, false, not, ◌&&◌, ◌||◌, List, [], ◌∷◌, ◌++◌, Option, none, some, arith,
  Text, contains_char, ◌==◌, if◌then◌else◌, Bool-cases,
}
use mathlib.Core.List.{append_assoc, append-nil}
use activable_cloud.Prelude.Options.{◌>>=◌}
use activable_cloud.Graph.Escape.{quote, backslash, escape_cypher}

-- A character outside of literals, or a literal with its value.
pub data Token : Type 0 where
  char : ℕ → Token
  literal : Text → Token

-- Where the reader is: outside, in a literal whose first characters are known, or behind a backslash in one.
pub data Mode : Type 0 where
  outside : Mode
  inside escaped : Text → Mode

abbrev pub onto : Token → Option (List Token) → Option (List Token)
onto t none = none
onto t (some ts) = some (t ∷ ts)

-- A literal ends at the first quote that no backslash is in front of; a backslash stands before a
-- quote or a backslash; a literal that does not end is no Cypher.
unfoldable pub lex : Mode → Text → Option (List Token)
lex outside [] = some []
lex (inside value) [] = none
lex (escaped value) [] = none
lex outside (c ∷ s) =
    let opened = lex (inside []) s in
    let after = lex outside s in if c == quote then opened else onto (char c) after
lex (inside value) (c ∷ s) =
    let closed = lex outside s in
    let behind = lex (escaped value) s in
    let longer = lex (inside (value ++ c ∷ [])) s in
    if c == quote then onto (literal value) closed else if c == backslash then behind else longer
lex (escaped value) (c ∷ s) =
    let longer = lex (inside (value ++ c ∷ [])) s in
    if c == quote || c == backslash then longer else none

-- What is in front of the first `$$`, and what follows it.
unfoldable pub cut_dollars : Text → Option (Text × Text)
cut_dollars [] = none
cut_dollars (c ∷ []) = none
cut_dollars (c ∷ d ∷ s) =
    let later = cut_dollars (d ∷ s) in
    if c == b'$'
    then (if d == b'$'
        then some ([], s)
        else elim later [ none ↦ none | some (a, b) ↦ some (c ∷ a, b) ])
    else elim later [ none ↦ none | some (a, b) ↦ some (c ∷ a, b) ]

-- What is in front of the first single quote, and what follows it.
unfoldable pub cut_quote : Text → Option (Text × Text)
cut_quote [] = none
cut_quote (c ∷ s) =
    let later = cut_quote s in
    if c == quote then some ([], s) else elim later [ none ↦ none | some (a, b) ↦ some (c ∷ a, b) ]

abbrev pub onto_value : ℕ → Option (Text × Text) → Option (Text × Text)
onto_value c none = none
onto_value c (some (value, rest)) = some (c ∷ value, rest)

-- The value of a string literal of SQL behind its opening quote, and what follows it; a quote is
-- doubled in it, and everything else, dollars and backslashes too, stands for itself.
unfoldable pub sql_literal : Text → Option (Text × Text)
sql_literal [] = none
sql_literal (c ∷ []) = if c == quote then some ([], []) else none
sql_literal (c ∷ d ∷ s) =
    let doubled = sql_literal s in
    let longer = sql_literal (d ∷ s) in
    if c == quote
    then if d == quote then onto_value quote doubled else some ([], d ∷ s)
    else onto_value c longer

-- The first two arguments of the function that a statement calls: a string literal that no `$$` is in
-- front of, and then a text between dollars that no quote is in front of.
unfoldable pub arguments : Text → Option (Text × Text)
unfolding cut_quote sql_literal cut_dollars
arguments sql = do
  (before, s1) ← cut_quote sql
  (graph_name, s2) ← sql_literal s1
  (between, s3) ← cut_dollars s2
  (body, after) ← cut_dollars s3
  let clean = not (contains_char b'$' before) && not (contains_char quote between)
  if clean then some (graph_name, body) else none

pub cut_quote-append :
    (s rest : Text) → contains_char quote s ≡ false → cut_quote (s ++ quote ∷ rest) ≡ some (s, rest)
unfolding cut_quote
cut_quote-append [] rest h = refl
cut_quote-append (c ∷ s) rest h = ground (arith, cut_quote-append s rest)

-- A text without quotes is read as it is, where no quote follows the closing one.
pub sql_literal-append :
    (s : Text) (d : ℕ) (rest : Text)
    → contains_char quote s ≡ false
    → (d == quote) ≡ false
    → sql_literal (s ++ quote ∷ d ∷ rest) ≡ some (s, d ∷ rest)
unfolding sql_literal
sql_literal-append [] d rest h k = rw k refl
sql_literal-append (c ∷ []) d rest h k =
    let first : (c == quote) ≡ false = ground arith in
    rw (first, sql_literal-append [] d rest refl k) refl
sql_literal-append (c ∷ e ∷ s) d rest h k =
    let first : (c == quote) ≡ false = ground arith in
    rw (first, sql_literal-append (e ∷ s) d rest (ground arith) k) refl

pub cut_dollars-append :
    (s rest : Text)
    → contains_char b'$' s ≡ false
    → cut_dollars (s ++ b'$' ∷ b'$' ∷ rest) ≡ some (s, rest)
unfolding cut_dollars
cut_dollars-append [] rest h = refl
cut_dollars-append (c ∷ []) rest h = ground arith
cut_dollars-append (c ∷ d ∷ s) rest h = ground (arith, cut_dollars-append (d ∷ s) rest)

pub arguments-append :
    (before g body after : Text)
    → contains_char quote before ≡ false
    → contains_char b'$' before ≡ false
    → contains_char quote g ≡ false
    → contains_char b'$' body ≡ false
    → arguments
        (before ++ quote ∷ (g ++ quote ∷ b',' ∷ b' ' ∷ b'$' ∷ b'$' ∷ (body ++ b'$' ∷ b'$' ∷ after)))
      ≡ some (g, body)
unfolding arguments
arguments-append before g body after h k l m =
    let rest = body ++ b'$' ∷ b'$' ∷ after in
    rw
      (
        cut_quote-append before (g ++ quote ∷ b',' ∷ b' ' ∷ b'$' ∷ b'$' ∷ rest) h,
        sql_literal-append g b',' (b' ' ∷ b'$' ∷ b'$' ∷ rest) l refl,
        cut_dollars-append body after m,
        k,
      )
      refl

abbrev pub chars : Text → List Token → List Token
chars [] ts = ts
chars (c ∷ s) ts = char c ∷ chars s ts

pub lex-plain :
    (s rest : Text) (ts : List Token)
    → contains_char quote s ≡ false
    → lex outside rest ≡ some ts
    → lex outside (s ++ rest) ≡ some (chars s ts)
unfolding lex
lex-plain [] rest ts h e = e
lex-plain (c ∷ s) rest ts h e = ground (arith, lex-plain s rest ts)

-- A character and the rest of an escaped text.
escape_cypher-cons :
    (c : ℕ) (s : Text)
    → escape_cypher (c ∷ s) ≡ (
        if c == backslash
        then backslash ∷ backslash ∷ escape_cypher s
        else if c == quote
        then backslash ∷ quote ∷ escape_cypher s
        else c ∷ escape_cypher s)
unfolding escape_cypher
escape_cypher-cons c s = ground arith

-- An escaped text in quotes is read as a literal with the text for its value.
pub lex-escape_cypher :
    (s value rest : Text) (ts : List Token)
    → lex outside rest ≡ some ts
    → lex (inside value) (escape_cypher s ++ quote ∷ rest) ≡ some (literal (value ++ s) ∷ ts)
unfolding lex escape_cypher
lex-escape_cypher [] value rest ts e = rw (e, append-nil) refl
lex-escape_cypher (c ∷ s) value rest ts e =
    let more =
      rw (append_assoc value (c ∷ []) s) at (lex-escape_cypher s (value ++ c ∷ []) rest ts e) in
    elim (Bool-cases (c == backslash)) [
      | inl e ↦ let same : c ≡ backslash = ground arith in rw same (rw same at more)
      | inr n ↦ elim (Bool-cases (c == quote)) [
        | inl e ↦ let same : c ≡ quote = ground arith in rw same (rw same at more)
        | inr m ↦ rw (n, m, m, n) more
      ]
    ]

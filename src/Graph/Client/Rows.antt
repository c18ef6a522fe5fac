-- ===== src/Graph/Client/Rows.antt =====
-- What the rows of a query hold, and how a row with a node is read
-- (crates/activable-graph/src/client.rs).
use activable_cloud.Prelude.{
  ℕ, ◌≡◌, refl, Bool, false, ◌||◌, List, [], ◌∷◌, ◌++◌, map, some, arith, Text, codes, is_empty,
  contains_char, contains_char-append, contains_char-all, any, all, true, &&_iff, ◌==◌,
}
use activable_cloud.Prelude.Errors.{ok}
use activable_cloud.Prelude.Split.{split, split_single}
use activable_cloud.Graph.Nodes.{
  NodeRef, Columns, trim_start_matches, trim_end_matches, trim_matches, is_quote,
  extract_first_label, collect, read_node, read_labelled,
}
use activable_cloud.Graph.Escape.Labels.{is_word}

-- A text in quotes.
abbrev pub quoted : Text → Text
quoted s = b'"' ∷ (s ++ b'"' ∷ [])

trim_end-last :
    (p : ℕ → Bool) (s : Text) (c : ℕ) → p c ≡ false → trim_end_matches p (s ++ c ∷ []) ≡ s ++ c ∷ []
trim_end-last p [] c h = rw h refl
trim_end-last p (d ∷ []) c h = rw (trim_end-last p [] c h) refl
trim_end-last p (d ∷ e ∷ s) c h = rw (trim_end-last p (e ∷ s) c h) refl

trim_end-quote :
    (s : Text) → contains_char b'"' s ≡ false → trim_end_matches is_quote (s ++ b'"' ∷ []) ≡ s
trim_end-quote [] h = refl
trim_end-quote (d ∷ s) h =
    let free : is_quote d ≡ false = ground arith in
    let rest = trim_end-quote s (ground arith) in rw (rest, free) (ground arith)

trim_start-quote :
    (s : Text)
    → contains_char b'"' s ≡ false
    → trim_end_matches is_quote (trim_start_matches is_quote (s ++ b'"' ∷ [])) ≡ s
trim_start-quote [] h = refl
trim_start-quote (d ∷ s) h =
    let free : is_quote d ≡ false = ground arith in rw free (trim_end-quote (d ∷ s) h)

trim_matches-quoted :
    (s : Text) → contains_char b'"' s ≡ false → trim_matches is_quote (quoted s) ≡ s
unfolding trim_matches
trim_matches-quoted s h = trim_start-quote s h

-- A row holds a node: its id and its label, in quotes.
module _ {R : Type 0} (columns : Columns R) where
  open columns use {try_get}

  abbrev pub HoldsNode : R → NodeRef → Type 0
  HoldsNode row ref =
      (try_get row 0 ≡ ok (quoted ref.id))
      × (try_get row 1 ≡ ok (quoted ref.label))
      × (contains_char b'"' ref.id ≡ false)
      × (contains_char b'"' ref.label ≡ false)

  abbrev pub HoldNodes : List R → List NodeRef → Type 0
  HoldNodes [] [] = Unit
  HoldNodes (row ∷ rows) (ref ∷ refs) = HoldsNode row ref × HoldNodes rows refs
  HoldNodes _ _ = ⊥

  module _ (trim : Text → Text) (trim-quoted : (s : Text) → trim (quoted s) ≡ quoted s) where
    read_node-holds :
        (row : R) (ref : NodeRef) → HoldsNode row ref → read_node columns trim row ≡ ok ref
    unfolding read_node
    read_node-holds row ref (id, label, bare_id, bare_label) =
        rw
          (
            id,
            label,
            trim-quoted ref.id,
            trim-quoted ref.label,
            trim_matches-quoted ref.id bare_id,
            trim_matches-quoted ref.label bare_label,
          )
          refl

    pub collect-holds :
        (rows : List R) (refs : List NodeRef)
        → HoldNodes rows refs
        → collect (read_node columns trim) rows ≡ ok refs
    collect-holds [] [] h = refl
    collect-holds [] (ref ∷ refs) h = absurd h
    collect-holds (row ∷ rows) [] h = absurd h
    collect-holds (row ∷ rows) (ref ∷ refs) h =
        rw (read_node-holds row ref h.0, collect-holds rows refs h.1) refl

-- The first label of a single one is that one.
extract_first_label-quoted :
    (s : Text)
    → contains_char b'"' s ≡ false
    → contains_char b',' s ≡ false
    → is_empty s ≡ false
    → extract_first_label (quoted s) ≡ some s
unfolding extract_first_label trim_matches
extract_first_label-quoted s bare single full =
    let outside : ℕ → Bool = λ c. c == b'[' || c == b']' || c == b' ' in
    let whole : trim_matches outside (quoted s) ≡ quoted s =
      trim_end-last outside (b'"' ∷ s) b'"' refl in
    let one : split b',' (quoted s) ≡ quoted s ∷ [] =
      split_single b',' (quoted s)
        (contains_char-append b',' (b'"' ∷ s) (codes "\"") single refl) in
    rw (whole, one, trim_matches-quoted s bare, full) refl

trim_end-free : (p : ℕ → Bool) (s : Text) → any p s ≡ false → trim_end_matches p s ≡ s
trim_end-free p [] h = refl
trim_end-free p (c ∷ s) h =
    let free : p c ≡ false = ground arith in
    let rest = trim_end-free p s (ground arith) in rw (rest, free) (ground arith)

-- A text that holds none of the characters loses nothing.
trim_matches-free : (p : ℕ → Bool) (s : Text) → any p s ≡ false → trim_matches p s ≡ s
unfolding trim_matches
trim_matches-free p [] h = refl
trim_matches-free p (c ∷ s) h =
    let free : p c ≡ false = ground arith in rw free (trim_end-free p (c ∷ s) h)

any-all :
    (p q : ℕ → Bool) (s : Text)
    → ((c : ℕ) → q c ≡ true → p c ≡ false)
    → all q s ≡ true
    → any p s ≡ false
any-all p q [] apart h = refl
any-all p q (c ∷ s) apart h =
    let (here, later) = (&&_iff (q c) (all q s)).0 h in
    rw (apart c here, any-all p q s apart later) refl

extract_first_label-bare :
    (s : Text) → all is_word s ≡ true → is_empty s ≡ false → extract_first_label s ≡ some s
unfolding extract_first_label
extract_first_label-bare s h full =
    let outside : ℕ → Bool = λ c. c == b'[' || c == b']' || c == b' ' in
    let whole = trim_matches-free outside s (any-all outside is_word s (λ c w. ground arith) h) in
    let unquoted =
      trim_matches-free is_quote s (any-all is_quote is_word s (λ c w. ground arith) h) in
    let one = split_single b',' s (contains_char-all b',' is_word s refl h) in
    rw (whole, full, one, unquoted, full) refl

-- How the database writes the texts of a column: with quotes around them, or as they are.
pub data Writing : Type 0 where
  in_quotes : Writing
  bare : Writing

abbrev pub written : Writing → Text → Text
written in_quotes s = quoted s
written bare s = s

-- A node of a subgraph: its id is the text of the column.
abbrev pub as_written : Writing → NodeRef → NodeRef
as_written w ref = record ref { id = written w ref.id }

extract_first_label-written :
    (w : Writing) (s : Text)
    → all is_word s ≡ true
    → is_empty s ≡ false
    → extract_first_label (written w s) ≡ some s
extract_first_label-written in_quotes s h full =
    extract_first_label-quoted s (contains_char-all b'"' is_word s refl h)
      (contains_char-all b',' is_word s refl h) full
extract_first_label-written bare s h full = extract_first_label-bare s h full

module _ {R : Type 0} (columns : Columns R) (w : Writing) where
  open columns use {try_get}

  -- A row holds an id and a label, which is not empty, of letters, digits and underscores.
  abbrev pub HoldsLabelled : R → NodeRef → Type 0
  HoldsLabelled row ref =
      (try_get row 0 ≡ ok (written w ref.id))
      × (try_get row 1 ≡ ok (written w ref.label))
      × (all is_word ref.label ≡ true)
      × (is_empty ref.label ≡ false)

  abbrev pub HoldAll : List R → List NodeRef → Type 0
  HoldAll [] [] = Unit
  HoldAll (row ∷ rows) (ref ∷ refs) = HoldsLabelled row ref × HoldAll rows refs
  HoldAll _ _ = ⊥

  read_labelled-holds :
      (row : R) (ref : NodeRef)
      → HoldsLabelled row ref
      → read_labelled columns row ≡ ok (as_written w ref)
  unfolding read_labelled
  read_labelled-holds row ref (id, label, word, full) =
      rw (id, label, extract_first_label-written w ref.label word full) refl

  pub collect_labelled-holds :
      (rows : List R) (refs : List NodeRef)
      → HoldAll rows refs
      → collect (read_labelled columns) rows ≡ ok (map (as_written w) refs)
  collect_labelled-holds [] [] h = refl
  collect_labelled-holds [] (ref ∷ refs) h = absurd h
  collect_labelled-holds (row ∷ rows) [] h = absurd h
  collect_labelled-holds (row ∷ rows) (ref ∷ refs) h =
      rw (read_labelled-holds row ref h.0, collect_labelled-holds rows refs h.1) refl

-- ===== src/Prelude/Split.antt =====
-- `split`, `splitn`, `ends_with`, `contains` and `find` of Rust's strings, over texts.
use activable_cloud.Prelude.{
  ℕ, zero, suc, ◌≡◌, refl, sym, ap, inl, inr, Bool, true, false, ◌||◌, List, [], ◌∷◌, ◌++◌, Option,
  none, some, arith, Text, ◌==◌, if◌then◌else◌, text_eq, starts_with, contains_char, Bool-cases,
}

-- A character in front of the first part.
abbrev pub onto_first : ℕ → List Text → List Text
onto_first d [] = []
onto_first d (part ∷ parts) = (d ∷ part) ∷ parts

-- `split(c)`: the parts between the separators, always at least one.
unfoldable pub split : ℕ → Text → List Text
split c [] = [] ∷ []
split c (d ∷ s) = let rest = split c s in if d == c then [] ∷ rest else onto_first d rest

-- `splitn(n, c)`, with `n` one more than the number of separators that are used.
unfoldable pub splitn_after : ℕ → ℕ → Text → List Text
splitn_after zero c s = s ∷ []
splitn_after (suc n) c [] = [] ∷ []
splitn_after (suc n) c (d ∷ s) =
    let cut = [] ∷ splitn_after n c s in
    let longer = onto_first d (splitn_after (suc n) c s) in if d == c then cut else longer

-- `s.ends_with(p)`.
unfoldable pub ends_with : Text → Text → Bool
ends_with [] p = text_eq [] p
ends_with (d ∷ s) p = text_eq (d ∷ s) p || ends_with s p

-- `s.contains(p)`.
unfoldable pub contains_text : Text → Text → Bool
contains_text [] p = starts_with [] p
contains_text (d ∷ s) p = starts_with (d ∷ s) p || contains_text s p

-- `s.find(c)`, with the text in front of the place that is found: `&s[..pos]`.
unfoldable pub before_char : ℕ → Text → Option Text
before_char c [] = none
before_char c (d ∷ s) =
    if d == c then some [] else elim (before_char c s) [ none ↦ none | some pre ↦ some (d ∷ pre) ]

-- A part without separators is split off whole.
pub split-append :
    (c : ℕ) (part s : Text)
    → contains_char c part ≡ false
    → split c (part ++ c ∷ s) ≡ part ∷ split c s
unfolding split
split-append c [] s h = ground arith
split-append c (d ∷ part) s h = ground (arith, split-append c part s)

pub split_single : (c : ℕ) (part : Text) → contains_char c part ≡ false → split c part ≡ part ∷ []
unfolding split
split_single c [] h = refl
split_single c (d ∷ part) h = ground (arith, split_single c part)

pub splitn-append :
    (n c : ℕ) (part s : Text)
    → contains_char c part ≡ false
    → splitn_after (suc n) c (part ++ c ∷ s) ≡ part ∷ splitn_after n c s
unfolding splitn_after
splitn-append n c [] s h = ground arith
splitn-append n c (d ∷ part) s h = ground (arith, splitn-append n c part s)

pub before_char-append :
    (c : ℕ) (pre s : Text) → contains_char c pre ≡ false → before_char c (pre ++ c ∷ s) ≡ some pre
unfolding before_char
before_char-append c [] s h = ground arith
before_char-append c (d ∷ pre) s h = ground (arith, before_char-append c pre s)

-- Where the separator occurs, the text parts at its first place.
pub before_char-some :
    (c : ℕ) (s : Text)
    → contains_char c s ≡ true
    → (pre rest : Text) × (s ≡ pre ++ c ∷ rest) × (contains_char c pre ≡ false)
before_char-some c [] h = cc
before_char-some c (d ∷ s) h = elim (Bool-cases (d == c)) [
  | inl e ↦ let same : d ≡ c = ground arith in ([], s, ap (λ (x : ℕ). x ∷ s) same, refl)
  | inr n ↦
      let (pre, rest, e, none_before) = before_char-some c s (ground arith) in
      (d ∷ pre, rest, ap (◌∷◌ d) e, ground arith)
]

onto_first-longer :
    (d : ℕ) (found : List Text) (part next : Text) (parts : List Text)
    → onto_first d found ≡ part ∷ next ∷ parts
    → (p : Text) × (found ≡ p ∷ next ∷ parts) × (part ≡ d ∷ p)
onto_first-longer d [] part next parts h = cc
onto_first-longer d (p ∷ ps) part next parts h = (p, cc, cc)

-- A part that another one follows has no separator, and the rest is split with one separator less.
pub splitn-cut :
    (n c : ℕ) (s part next : Text) (parts : List Text)
    → splitn_after (suc n) c s ≡ part ∷ next ∷ parts
    → (contains_char c part ≡ false) × (t : Text) × (splitn_after n c t ≡ next ∷ parts)
unfolding splitn_after
splitn-cut n c [] part next parts h = cc
splitn-cut n c (d ∷ s) part next parts h = elim (Bool-cases (d == c)) [
  | inl e ↦
      let first : [] ∷ splitn_after n c s ≡ part ∷ next ∷ parts = rw e at h in
      let same : [] ≡ part = cc in (rw (sym same) refl, s, cc)
  | inr m ↦
      let (p, found, e) = onto_first-longer d _ part next parts (rw m at h) in
      let (whole, t, rest) = splitn-cut n c s p next parts found in (rw (e, m, whole) refl, t, rest)
]

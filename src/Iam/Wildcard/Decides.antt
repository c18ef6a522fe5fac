-- ===== src/Iam/Wildcard/Decides.antt =====
-- The search of crates/activable-iam-engine/src/action_matcher.rs against the relation.
use mathlib.Core.Path.{subst}
use native.Mathlib.Numerals.{add-one}
use native.Mathlib.Decide.{ℕ_discrete}
use activable_cloud.Prelude.{
  ℕ, zero, suc, ◌+◌, ◌-◌, ◌≤◌, ◌<◌, ◌≡◌, refl, sym, ap, ◌∙◌, ◌≢◌, ◌↔◌, ◌⊎◌, inl, inr, Bool, true,
  false, ◌||◌, [], ◌∷◌, ◌++◌, Option, some, arith, Text, length, get_elem?, drop, drop-length,
  drop-cons, ◌==◌, Bool-cases,
}
use activable_cloud.Iam.Wildcard.Spec.{
  star, question, Matches, done, run, one, Matches-run_inv, Matches-one_inv, not-Matches-one_nil,
  not-Matches-nil_cons, Matches-star_end,
}
use activable_cloud.Iam.Wildcard.Search.{
  try_positions, at_pattern_char, match_step, match_recursive, wildcard_match,
}

-- The run returned a Boolean, which says whether `G` holds.
abbrev pub Answers : Type 0 → Option Bool → Type 0
Answers G r = (b : Bool) × (r ≡ some b) × ((b ≡ true) ↔ G)

Answers-yes : {G : Type 0} {r : Option Bool} → r ≡ some true → G → Answers G r
Answers-yes e g = (true, e, (λ h. g, λ h. refl))

Answers-no : {G : Type 0} {r : Option Bool} → r ≡ some false → ¬ G → Answers G r
Answers-no e n = (false, e, (λ h. cc, λ g. absurd (n g)))

Answers-iff : {G H : Type 0} {r : Option Bool} → G ↔ H → Answers G r → Answers H r
Answers-iff e (b, q, f) = (b, q, (λ h. e.0 (f.0 h), λ h. f.1 (e.1 h)))

Answers-eq : {G : Type 0} {r r' : Option Bool} → r ≡ r' → Answers G r' → Answers G r
Answers-eq e (b, q, f) = (b, e ∙ q, f)

nil_of_length : (xs : Text) → length xs ≡ 0 → xs ≡ []
nil_of_length [] e = refl
nil_of_length (x ∷ xs) e = absurd (omega arith)

-- The text from `t` on starts with what lies between `t` and `j`.
drop-split : (xs : Text) (t j : ℕ) → t ≤ j → (pre : Text) × (drop t xs ≡ pre ++ drop j xs)
drop-split [] zero zero h = ([], refl)
drop-split [] zero (suc j) h = ([], refl)
drop-split [] (suc t) zero h = elim h [ ]
drop-split [] (suc t) (suc j) h = ([], refl)
drop-split (x ∷ xs) zero zero h = ([], refl)
drop-split (x ∷ xs) zero (suc j) h =
    let (pre, e) = drop-split xs zero j (omega arith) in (x ∷ pre, ap (◌∷◌ x) e)
drop-split (x ∷ xs) (suc t) zero h = elim h [ ]
drop-split (x ∷ xs) (suc t) (suc j) h = drop-split xs t j (omega arith)

drop_prefix :
    (xs : Text) (t : ℕ) (pre s : Text)
    → t ≤ length xs
    → drop t xs ≡ pre ++ s
    → (j : ℕ) × (t ≤ j) × (j ≤ length xs) × (drop j xs ≡ s)
drop_prefix xs t [] s h e = (t, omega arith, h, e)
drop_prefix [] zero (a ∷ pre) s h e = cc
drop_prefix [] (suc t) (a ∷ pre) s h e = elim h [ ]
drop_prefix (x ∷ xs) zero (a ∷ pre) s h e =
    let rest : xs ≡ pre ++ s = ground arith in
    let (j, _, hj, ej) = drop_prefix xs zero pre s (omega arith) rest in
    (suc j, omega arith, omega arith, ej)
drop_prefix (x ∷ xs) (suc t) (a ∷ pre) s h e =
    let (j, lo, hj, ej) = drop_prefix xs t (a ∷ pre) s (omega arith) e in
    (suc j, omega arith, omega arith, ej)

next_lt : {next j : ℕ} → next ≤ j → ¬ (next ≡ j) → next + 1 ≤ j
next_lt lo n = omega arith

-- The positions that are left are tried in turn.
try_positions-Answers :
    (G : ℕ → Type 0) (attempt : ℕ → Option Bool) (n rounds next : ℕ)
    → rounds + next ≡ n + 1
    → ((j : ℕ) → j ≤ n → Answers (G j) (attempt j))
    → Answers ((j : ℕ) × (next ≤ j) × (j ≤ n) × G j) (try_positions attempt rounds next)
unfolding try_positions
try_positions-Answers G attempt n zero next h f = Answers-no refl (λ (j, lo, hi, _). omega arith)
try_positions-Answers G attempt n (suc rounds) next h f =
    let (b, e, g) = f next (omega arith) in
    let (b', e', g') = try_positions-Answers G attempt n rounds (next + 1) (omega arith) f in
    elim (Bool-cases b) [
      | inl hit ↦ Answers-yes (rw (e, try_positions, hit)) (next, omega arith, omega arith, g.0 hit)
      | inr miss ↦ (
        b',
        rw (e, try_positions, miss) e',
        (
          λ h. let (j, lo, hi, w) = g'.0 h in (j, omega arith, hi, w),
          λ (j, lo, hi, w). g'.1 (j, next_lt lo (λ same. cc (g.1 (subst G (sym same) w))), hi, w),
        ),
      )
    ]

-- The calls that a step makes, all one place further in the pattern.
abbrev Calls : (ℕ → Option Bool) → Text → Text → Type 0
Calls next rest text = (j : ℕ) → j ≤ length text → Answers (Matches rest (drop j text)) (next j)

star_positions :
    (c t : ℕ) (rest text : Text)
    → c ≡ star
    → t ≤ length text
    → ((j : ℕ) × (t ≤ j) × (j ≤ length text) × Matches rest (drop j text))
      ↔ Matches (c ∷ rest) (drop t text)
star_positions c t rest text is_star h = (
  λ (j, lo, hi, m). let (pre, e) = drop-split text t j lo in run pre is_star e m,
  λ m.
      let (pre, s, e, m') = Matches-run_inv is_star m in
      let (j, lo, hi, ej) = drop_prefix text t pre s h e in (j, lo, hi, rw ej m'),
)

module _ (recur : ℕ → ℕ → Option Bool) (pattern text : Text) (p t c : ℕ) (rest : Text) where
  -- A pattern that goes on with `c`, and the rest of it.
  at_star-Answers :
      c ≡ star
      → t ≤ length text
      → length pattern ≡ p + 1 + length rest
      → Calls (recur (p + 1)) rest text
      → Answers (Matches (c ∷ rest) (drop t text)) (at_pattern_char recur pattern text p t c)
  unfolding at_pattern_char
  at_star-Answers is_star ht hp calls = elim (Bool-cases (p == length pattern - 1)) [
    | inl last ↦
        let nothing_left : rest ≡ [] = nil_of_length rest (ground arith) in
        Answers-yes (ground arith) (rw nothing_left (Matches-star_end is_star (drop t text)))
    | inr more ↦
        Answers-eq {r' = try_positions (recur (p + 1)) (length text + 1 - t) t} (ground arith) (
          Answers-iff (star_positions c t rest text is_star ht) (
            try_positions-Answers (λ j. Matches rest (drop j text)) (recur (p + 1)) (length text)
              (length text + 1 - t) t (omega arith) calls))
  ]

  at_end-Answers :
      c ≢ star
      → t ≡ length text
      → Answers (Matches (c ∷ rest) (drop t text)) (at_pattern_char recur pattern text p t c)
  unfolding at_pattern_char
  at_end-Answers n at_end =
      Answers-no (ground arith) (rw (at_end, drop-length text) (not-Matches-one_nil n))

  at_one-Answers :
      (d : ℕ)
      → c ≢ star
      → t < length text
      → get_elem? text t ≡ some d
      → Calls (recur (p + 1)) rest text
      → Answers
          (Matches (c ∷ rest) (d ∷ drop (suc t) text))
          (at_pattern_char recur pattern text p t c)
  unfolding at_pattern_char
  at_one-Answers d n ht e calls = elim (Bool-cases (c == question || c == d)) [
    | inl hit ↦
        let same : (c ≡ question) ⊎ (c ≡ d) = ground arith in
        Answers-eq {r' = recur (p + 1) (suc t)} (ground (arith, add-one t))
          (Answers-iff (one n same, λ m. (Matches-one_inv n m).1) (calls (suc t) ht))
    | inr miss ↦
        let other : ¬ ((c ≡ question) ⊎ (c ≡ d)) = ground arith in
        Answers-no (ground arith) (λ m. other (Matches-one_inv n m).0)
  ]

  at_pattern_char-Answers :
      t ≤ length text
      → length pattern ≡ p + 1 + length rest
      → Calls (recur (p + 1)) rest text
      → Answers (Matches (c ∷ rest) (drop t text)) (at_pattern_char recur pattern text p t c)
  at_pattern_char-Answers ht hp calls = elim (ℕ_discrete c star) [
    | yes e ↦ at_star-Answers e ht hp calls
    | no n ↦ elim (ℕ_discrete t (length text)) [
      | yes e ↦ at_end-Answers n e
      | no m ↦
          let (d, e, split) = drop-cons text t (omega arith) in
          rw split (at_one-Answers d n (omega arith) e calls)
    ]
  ]

length-drop : (i : ℕ) (xs : Text) → i ≤ length xs → length xs ≡ i + length (drop i xs)
length-drop zero xs h = omega arith
length-drop (suc i) [] h = elim h [ ]
length-drop (suc i) (x ∷ xs) h = omega (arith, length-drop i xs (omega arith))

match_over-Answers :
    (recur : ℕ → ℕ → Option Bool) (pattern text : Text) (t : ℕ) (rest : Text)
    → rest ≡ drop t text
    → t ≤ length text
    → Answers (Matches [] rest) (match_step recur pattern text (length pattern) t)
unfolding match_step
match_over-Answers recur pattern text t [] e ht =
    let at_end : length text ≡ t = omega (arith, length-drop t text ht, ap {B = ℕ} length e) in
    Answers-yes (ground arith) done
match_over-Answers recur pattern text t (d ∷ rest) e ht =
    let more : t < length text = omega (arith, length-drop t text ht, ap {B = ℕ} length e) in
    Answers-no (ground arith) not-Matches-nil_cons

match_step-Answers :
    (recur : ℕ → ℕ → Option Bool) (pattern text : Text) (p t : ℕ)
    → p ≤ length pattern
    → t ≤ length text
    → (p < length pattern → Calls (recur (p + 1)) (drop (suc p) pattern) text)
    → Answers (Matches (drop p pattern) (drop t text)) (match_step recur pattern text p t)
unfolding match_step
match_step-Answers recur pattern text p t hp ht calls = elim (ℕ_discrete p (length pattern)) [
  | yes e ↦ rw (e, drop-length pattern) (match_over-Answers recur pattern text t _ refl ht)
  | no n ↦
      let (c, e, split) = drop-cons pattern p (omega arith) in
      Answers-eq {r' = at_pattern_char recur pattern text p t c} (ground arith) (
        rw split (
          at_pattern_char-Answers recur pattern text p t c (drop (suc p) pattern) ht
            (omega (arith, length-drop (suc p) pattern (omega arith))) (calls (omega arith))))
]

-- From any position in the two texts `match_recursive` returns a Boolean (the fuel is enough, and no
-- index is out of range), which is true exactly if the rest of the pattern matches the rest of the
-- text. The fuel has to exceed the length of the pattern that is left.
pub match_recursive-Answers :
    (fuel : ℕ) (pattern text : Text) (p t : ℕ)
    → p ≤ length pattern
    → t ≤ length text
    → length pattern < p + fuel
    → Answers (Matches (drop p pattern) (drop t text)) (match_recursive fuel pattern text p t)
unfolding match_recursive
match_recursive-Answers zero pattern text p t hp ht hf = absurd (omega arith)
match_recursive-Answers (suc fuel) pattern text p t hp ht hf =
    match_step-Answers (match_recursive fuel pattern text) pattern text p t hp ht λ lt j hj.
      rw (← add-one p)
        (match_recursive-Answers fuel pattern text (p + 1) j (omega arith) hj (omega arith))

-- `wildcard_match` is true exactly on the texts that the pattern matches.
pub wildcard_match_iff :
    (pattern text : Text) → (wildcard_match pattern text ≡ true) ↔ Matches pattern text
unfolding wildcard_match
wildcard_match_iff pattern text =
    let (b, e, f) =
      match_recursive-Answers (length pattern + 1) pattern text 0 0 (omega arith) (omega arith)
        (omega arith) in
    rw e f

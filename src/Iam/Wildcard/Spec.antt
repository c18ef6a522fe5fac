-- ===== src/Iam/Wildcard/Spec.antt =====
-- What it means for a text to match a wildcard pattern, with no search order in it.
use mathlib.Core.List.{append-nil}
use activable_cloud.Prelude.{
  ℕ, ◌≡◌, refl, sym, ◌≢◌, ◌↔◌, ◌⊎◌, inr, false, [], ◌∷◌, ◌++◌, arith, Text, contains_char,
}

abbrev pub star : ℕ
star = b'*'

abbrev pub question : ℕ
question = b'?'

-- A star stands for any run of characters, `?` for one, and any other character for itself.
pub data Matches : Text → Text → Type 0 where
  done : Matches [] []
  run :
      {c : ℕ} {p s t : Text} (pre : Text)
      → c ≡ star
      → t ≡ pre ++ s
      → Matches p s
      → Matches (c ∷ p) t
  one :
      {c d : ℕ} {p s : Text}
      → c ≢ star
      → (c ≡ question) ⊎ (c ≡ d)
      → Matches p s
      → Matches (c ∷ p) (d ∷ s)

module _ {c : ℕ} {p : Text} where
  pub Matches-run_inv :
      {t : Text} → c ≡ star → Matches (c ∷ p) t → (pre s : Text) × (t ≡ pre ++ s) × Matches p s
  Matches-run_inv e (run {s} pre _ split m) = (pre, s, split, m)
  Matches-run_inv e (one n _ m) = absurd (n e)

  pub Matches-one_inv :
      {d : ℕ} {s : Text}
      → c ≢ star
      → Matches (c ∷ p) (d ∷ s)
      → ((c ≡ question) ⊎ (c ≡ d)) × Matches p s
  Matches-one_inv n (run pre e _ m) = absurd (n e)
  Matches-one_inv n (one _ same m) = (same, m)

  pub not-Matches-one_nil : c ≢ star → ¬ Matches (c ∷ p) []
  not-Matches-one_nil n (run pre e _ m) = n e

pub not-Matches-nil_cons : {d : ℕ} {s : Text} → ¬ Matches [] (d ∷ s)
not-Matches-nil_cons m = elim m [ ]

pub Matches-star_end : {c : ℕ} → c ≡ star → (t : Text) → Matches (c ∷ []) t
Matches-star_end e t = run t e (sym (append-nil t)) done

-- A pattern that holds no wildcard is matched by itself alone.
pub Matches-literal :
    (p t : Text)
    → contains_char star p ≡ false
    → contains_char question p ≡ false
    → Matches p t ↔ (p ≡ t)
Matches-literal [] [] hs hq = (λ m. refl, λ e. done)
Matches-literal [] (d ∷ t) hs hq = (λ m. absurd (not-Matches-nil_cons m), λ e. cc)
Matches-literal (c ∷ p) [] hs hq = (λ m. absurd (not-Matches-one_nil (ground arith) m), λ e. cc)
Matches-literal (c ∷ p) (d ∷ t) hs hq =
    let n : c ≢ star = ground arith in
    let (forth, back) = Matches-literal p t (ground arith) (ground arith) in
    (
      λ m. let (same, rest) = Matches-one_inv n m in let e = forth rest in ground arith,
      λ e. let f : (c ≡ d) × (p ≡ t) = ground arith in one n (inr f.0) (back f.1),
    )

-- ===== src/Graph/Escape/Labels.antt =====
-- Which labels are accepted (crates/activable-graph/src/query_builder.rs).
use activable_cloud.Prelude.{
  ℕ, ◌≡◌, refl, ◌↔◌, Bool, true, false, ◌&&◌, ◌||◌, [], ◌∷◌, arith, Text, all, contains_char,
  contains_char-all, is_ascii_alphabetic, is_ascii_alphanumeric, ◌==◌,
}
use activable_cloud.Prelude.Errors.{ok}
use activable_cloud.Graph.Escape.{check_chars, validate_label}

-- `[A-Za-z0-9_]`.
abbrev pub is_word : ℕ → Bool
is_word c = is_ascii_alphanumeric c || c == b'_'

-- `[A-Za-z][A-Za-z0-9_]*`.
abbrev pub is_label : Text → Bool
is_label [] = false
is_label (c ∷ s) = is_ascii_alphabetic c && all is_word (c ∷ s)

check_chars_iff :
    (label s t : Text) → (check_chars label s ≡ ok t) ↔ ((all is_word s ≡ true) × (label ≡ t))
unfolding check_chars
check_chars_iff label [] t = (λ h. (refl, cc), λ h. rw h.1 refl)
check_chars_iff label (c ∷ s) t =
    let (forth, back) = check_chars_iff label s t in ground (arith, forth, back)

-- Exactly the labels of the form `[A-Za-z][A-Za-z0-9_]*` are accepted, and they are returned as they are.
pub validate_label_iff : (s t : Text) → (validate_label s ≡ ok t) ↔ ((is_label s ≡ true) × (s ≡ t))
unfolding validate_label
validate_label_iff [] t = (λ h. cc, λ h. cc h.0)
validate_label_iff (c ∷ s) t =
    let (forth, back) = check_chars_iff (c ∷ s) (c ∷ s) t in ground (arith, forth, back)

-- A character that is not one of a label's does not occur in it.
pub label-free :
    (c : ℕ) → is_word c ≡ false → (s : Text) → is_label s ≡ true → contains_char c s ≡ false
label-free c n [] h = refl
label-free c n (d ∷ s) h = contains_char-all c is_word (d ∷ s) n (ground arith)

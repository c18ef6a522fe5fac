-- ===== src/Prelude/Strings.antt =====
-- Texts as lists of code points, with the string operations of Rust that the program uses.
use Prim.Native.Nat.{ℕ, ◌+◌}
use Prim.Native.Char.{code}
use Prim.Native.String.{String}
use mathlib.Core.Path.{◌≡◌, refl, ap₂}
use mathlib.Core.Logic.{◌↔◌, inl, inr}
use mathlib.Core.Bool.{Bool, true, false, ◌&&◌, ◌||◌}
use mathlib.Core.List.{List, [], ◌∷◌, ◌++◌, map}
use native.Mathlib.Omega.{arith}
use activable_cloud.Prelude.Tests.{Bool-cases, leb, ◌==◌, if◌then◌else◌}
use activable_cloud.Prelude.Lists.{any, all}

abbrev pub Text : Type 0
Text = List ℕ

abbrev pub codes : String → Text
codes String.[] = []
codes (String.◌∷◌ c s) = code c ∷ codes s

-- `==` of two texts.
abbrev pub text_eq : Text → Text → Bool
text_eq [] [] = true
text_eq [] (b ∷ t) = false
text_eq (a ∷ s) [] = false
text_eq (a ∷ s) (b ∷ t) = a == b && text_eq s t

pub text_eq_iff : (s t : Text) → (text_eq s t ≡ true) ↔ (s ≡ t)
text_eq_iff [] [] = (λ h. refl, λ h. refl)
text_eq_iff [] (b ∷ t) = (λ h. cc, λ h. cc)
text_eq_iff (a ∷ s) [] = (λ h. cc, λ h. cc)
text_eq_iff (a ∷ s) (b ∷ t) = ground (arith, text_eq_iff s t)

pub text_eq_refl : (s : Text) → text_eq s s ≡ true
text_eq_refl s = (text_eq_iff s s).1 refl

-- `contains(char)`.
abbrev pub contains_char : ℕ → Text → Bool
contains_char c = any (λ d. d == c)

-- `to_ascii_lowercase` of a character: what `to_lowercase` does to ASCII.
abbrev pub lower_char : ℕ → ℕ
lower_char c = if leb b'A' c && leb c b'Z' then c + 32 else c

-- `to_lowercase`, on ASCII texts.
abbrev pub to_lowercase : Text → Text
to_lowercase = map lower_char

pub lower_char_idem : (c : ℕ) → lower_char (lower_char c) ≡ lower_char c
lower_char_idem c = ground arith

pub to_lowercase_idem : (s : Text) → to_lowercase (to_lowercase s) ≡ to_lowercase s
to_lowercase_idem [] = refl
to_lowercase_idem (c ∷ s) = ap₂ ◌∷◌ (lower_char_idem c) (to_lowercase_idem s)

-- `eq_ignore_ascii_case`.
abbrev pub eq_ignore_ascii_case : Text → Text → Bool
eq_ignore_ascii_case s t = text_eq (to_lowercase s) (to_lowercase t)

-- `starts_with`.
abbrev pub starts_with : Text → Text → Bool
starts_with s [] = true
starts_with [] (c ∷ p) = false
starts_with (d ∷ s) (c ∷ p) = d == c && starts_with s p

abbrev pub IsPrefix : Text → Text → Type 0
IsPrefix p s = (rest : Text) × (s ≡ p ++ rest)

pub starts_with_iff : (s p : Text) → (starts_with s p ≡ true) ↔ IsPrefix p s
starts_with_iff s [] = (λ h. (s, refl), λ h. refl)
starts_with_iff [] (c ∷ p) = (λ h. cc, λ h. cc)
starts_with_iff (d ∷ s) (c ∷ p) = (
  λ h.
      let both : (d ≡ c) × (starts_with s p ≡ true) = ground arith in
      let (rest, e) = (starts_with_iff s p).0 both.1 in (rest, ap₂ ◌∷◌ both.0 e),
  λ (rest, e).
      let both : (d ≡ c) × (s ≡ p ++ rest) = ground arith in
      let tail = (starts_with_iff s p).1 (rest, both.1) in ground arith,
)

-- `format!`: the constant parts and the values, one after the other.
abbrev pub concat : List Text → Text
concat [] = []
concat (part ∷ parts) = part ++ concat parts

-- `join` of a list of texts.
abbrev pub join : Text → List Text → Text
join sep [] = []
join sep (part ∷ []) = part
join sep (part ∷ next ∷ parts) = part ++ (sep ++ join sep (next ∷ parts))

-- `replace` of a character by a text.
abbrev pub replace : ℕ → Text → Text → Text
replace c by [] = []
replace c by (d ∷ s) = (if d == c then by else d ∷ []) ++ replace c by s

-- `is_ascii_alphabetic` and `is_ascii_alphanumeric`.
abbrev pub is_ascii_alphabetic : ℕ → Bool
is_ascii_alphabetic c = leb b'a' c && leb c b'z' || leb b'A' c && leb c b'Z'

abbrev pub is_ascii_alphanumeric : ℕ → Bool
is_ascii_alphanumeric c = is_ascii_alphabetic c || leb b'0' c && leb c b'9'

-- A character that is not in either part is not in the whole.
pub contains_char-append :
    (c : ℕ) (s t : Text)
    → contains_char c s ≡ false
    → contains_char c t ≡ false
    → contains_char c (s ++ t) ≡ false
contains_char-append c [] t h k = k
contains_char-append c (d ∷ s) t h k = ground (arith, contains_char-append c s t)

-- A character that fails a test is not in a text whose characters all pass it.
pub contains_char-all :
    (c : ℕ) (p : ℕ → Bool) (s : Text) → p c ≡ false → all p s ≡ true → contains_char c s ≡ false
contains_char-all c p [] n h = refl
contains_char-all c p (d ∷ s) n h = elim (Bool-cases (d == c)) [
  | inl e ↦ let same : d ≡ c = ground arith in let passed : p d ≡ true = ground arith in cc
  | inr m ↦ let later = contains_char-all c p s n (ground arith) in ground arith
]

-- ===== src/Prelude/Decimal.antt =====
-- A number in decimal, as `{}` prints it.
use activable_cloud.Prelude.{
  ℕ, zero, suc, ◌+◌, ◌/◌, ◌%◌, [], ◌∷◌, Text, codes, ltb, leb, if◌then◌else◌, ◌≡◌, refl, Bool, true,
  false, ◌&&◌, all, arith, contains_char, contains_char-all,
}

-- The fuel bounds the number of digits.
decimal_digits : ℕ → ℕ → Text → Text
decimal_digits zero n acc = acc
decimal_digits (suc fuel) n acc =
    let digits = (n % 10 + b'0') ∷ acc in
    let more = decimal_digits fuel (n / 10) digits in if ltb n 10 then digits else more

unfoldable pub decimal : ℕ → Text
unfolding decimal_digits
decimal n = decimal_digits (suc n) n []

decimal_example : decimal 1307 ≡ codes "1307"
unfolding decimal
decimal_example = refl

-- `0` to `9`.
abbrev pub is_digit : ℕ → Bool
is_digit c = leb b'0' c && leb c b'9'

decimal_digits-all :
    (fuel n : ℕ) (acc : Text)
    → all is_digit acc ≡ true
    → all is_digit (decimal_digits fuel n acc) ≡ true
unfolding decimal_digits
decimal_digits-all zero n acc h = h
decimal_digits-all (suc fuel) n acc h =
    ground (arith, decimal_digits-all fuel (n / 10) ((n % 10 + b'0') ∷ acc))

-- A number in decimal holds digits only.
pub decimal-free : (c n : ℕ) → is_digit c ≡ false → contains_char c (decimal n) ≡ false
unfolding decimal
decimal-free c n h =
    contains_char-all c is_digit (decimal n) h (decimal_digits-all (suc n) n [] refl)

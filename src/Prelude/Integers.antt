-- ===== src/Prelude/Integers.antt =====
-- Signed integers over the native numbers, with their order as Boolean tests.
use activable_cloud.Prelude.{
  ℕ, suc, ◌≡◌, refl, Bool, true, false, not, ltb, leb, arith, ◌⊎◌, inl, inr,
}

pub data ℤ : Type 0 where
  pos : ℕ → ℤ
  negsuc : ℕ → ℤ

-- `a < b`.
abbrev pub int_ltb : ℤ → ℤ → Bool
int_ltb (pos a) (pos b) = ltb a b
int_ltb (pos a) (negsuc b) = false
int_ltb (negsuc a) (pos b) = true
int_ltb (negsuc a) (negsuc b) = ltb b a

-- `a <= b`.
abbrev pub int_leb : ℤ → ℤ → Bool
int_leb (pos a) (pos b) = leb a b
int_leb (pos a) (negsuc b) = false
int_leb (negsuc a) (pos b) = true
int_leb (negsuc a) (negsuc b) = leb b a

pub int_ltb-suc : (a : ℕ) (b : ℤ) → int_ltb (pos a) b ≡ true → int_leb (pos (suc a)) b ≡ true
int_ltb-suc a (pos b) h = ground arith
int_ltb-suc a (negsuc b) h = cc

pub int_ltb_irrefl : (a : ℤ) → int_ltb a a ≡ false
int_ltb_irrefl (pos a) = ground arith
int_ltb_irrefl (negsuc a) = ground arith

pub int_ltb_asym : (a b : ℤ) → int_ltb a b ≡ true → int_ltb b a ≡ false
int_ltb_asym (pos a) (pos b) h = ground arith
int_ltb_asym (pos a) (negsuc b) h = cc
int_ltb_asym (negsuc a) (pos b) h = refl
int_ltb_asym (negsuc a) (negsuc b) h = ground arith

-- Not to be above is transitive.
pub int_ltb_cotrans : (a b c : ℤ) → int_ltb a c ≡ true → (int_ltb a b ≡ true) ⊎ (int_ltb b c ≡ true)
int_ltb_cotrans (pos a) (pos b) (pos c) h = ground arith
int_ltb_cotrans (pos a) (negsuc b) (pos c) h = inr refl
int_ltb_cotrans (pos a) b (negsuc c) h = cc
int_ltb_cotrans (negsuc a) (pos b) c h = inl refl
int_ltb_cotrans (negsuc a) (negsuc b) (pos c) h = inr refl
int_ltb_cotrans (negsuc a) (negsuc b) (negsuc c) h = ground arith

pub int_leb-not : (a b : ℤ) → int_leb a b ≡ not (int_ltb b a)
int_leb-not (pos a) (pos b) = ground arith
int_leb-not (pos a) (negsuc b) = refl
int_leb-not (negsuc a) (pos b) = refl
int_leb-not (negsuc a) (negsuc b) = ground arith

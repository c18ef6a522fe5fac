-- ===== src/Scheduler/Backoff.antt =====
-- `exponential_backoff_seconds`: crates/activable-scheduler/src/schema.rs. The counter and the cap are
-- natural numbers: negative ones are left out.
use native.Mathlib.Numerals.{unary_clauses}
use activable_cloud.Prelude.{
  ℕ, zero, suc, ◌+◌, ◌-◌, subst, ◌*◌, ◌^◌, ◌≤◌, ◌<◌, ◌≡◌, arith, leb, ltb, if◌then◌else◌,
}

-- `a.min(b)`.
abbrev pub min : ℕ → ℕ → ℕ
min a b = if leb a b then a else b

-- `2^attempts` with the clamp to 30, at most the cap.
unfoldable pub backoff_base : ℕ → ℕ → ℕ
backoff_base attempts cap = min (2 ^ min attempts 30) cap

-- `jitter` is the number that `gen_range(0..base)` draws; without a range to draw from it is 0.
unfoldable pub exponential_backoff_seconds : ℕ → ℕ → ℕ → ℕ
exponential_backoff_seconds jitter attempts cap =
    let base = backoff_base attempts cap in
    let drawn = if ltb 0 base then jitter else 0 in min (base + drawn) cap

min_le_left : (a b : ℕ) → min a b ≤ a
min_le_left a b = ground arith

min_le_right : (a b : ℕ) → min a b ≤ b
min_le_right a b = ground arith

le_refl : (n : ℕ) → n ≤ n
le_refl n = omega arith

twice_le : (m n : ℕ) → m ≤ n → m ≤ n * 2
twice_le m n h = omega arith

pow_more : (a n : ℕ) → 2 ^ a ≤ 2 ^ (a + n)
pow_more a zero = simp unary_clauses (le_refl (2 ^ a))
pow_more a (suc n) = let less = pow_more a n in simp unary_clauses (twice_le _ _ less)

pow_mono : (a b : ℕ) → a ≤ b → 2 ^ a ≤ 2 ^ b
pow_mono a b h =
    let sum : a + (b - a) ≡ b = omega arith in subst (λ x. 2 ^ a ≤ 2 ^ x) sum (pow_more a (b - a))

le_trans : (a b c : ℕ) → a ≤ b → b ≤ c → a ≤ c
le_trans a b c h g = omega arith

base_bound : (attempts cap : ℕ) → backoff_base attempts cap ≤ 1073741824
unfolding backoff_base
base_bound attempts cap =
    le_trans _ _ _ (min_le_left (2 ^ min attempts 30) cap)
      (pow_mono (min attempts 30) 30 (min_le_right attempts 30))

base_cap : (attempts cap : ℕ) → backoff_base attempts cap ≤ cap
unfolding backoff_base
base_cap attempts cap = min_le_right (2 ^ min attempts 30) cap

bounds_of :
    (base jitter cap : ℕ)
    → jitter < base
    → base ≤ cap
    → (base ≤ min (base + (if ltb 0 base then jitter else 0)) cap)
      × (min (base + (if ltb 0 base then jitter else 0)) cap < 2 * base)
      × (min (base + (if ltb 0 base then jitter else 0)) cap ≤ cap)
bounds_of base jitter cap h g = ground arith

-- The sum of the delay and its jitter fits an `i32`; the result is at least the delay, less than twice
-- it, and at most the cap, if the jitter is less than the delay.
pub exponential_backoff_seconds_bounds :
    (jitter attempts cap : ℕ)
    → jitter < backoff_base attempts cap
    → (backoff_base attempts cap + jitter < 2147483648)
      × (backoff_base attempts cap ≤ exponential_backoff_seconds jitter attempts cap)
      × (exponential_backoff_seconds jitter attempts cap < 2 * backoff_base attempts cap)
      × (exponential_backoff_seconds jitter attempts cap ≤ cap)
unfolding exponential_backoff_seconds
exponential_backoff_seconds_bounds jitter attempts cap h =
    let limit = base_bound attempts cap in
    let (least, twice, capped) =
      bounds_of (backoff_base attempts cap) jitter cap h (base_cap attempts cap) in
    (omega arith, least, twice, capped)

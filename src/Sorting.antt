-- ===== src/Sorting.antt =====
-- Rust's `sort_by` and `dedup` over a comparison, as crates/activable-iam-engine uses them to put its
-- results in order.
pub mod Strict
pub mod Kept
use activable_cloud.Prelude.{
  ◌≡◌, refl, ap, ◌↔◌, ◌⊎◌, inl, inr, Bool, true, false, List, [], ◌∷◌, arith, Ordering, compare,
  Text, if◌then◌else◌, Any, All,
}

-- `Ordering::then_with`.
abbrev pub then_with : Ordering → Ordering → Ordering
then_with Ordering.eq o = o
then_with Ordering.lt o = Ordering.lt
then_with Ordering.gt o = Ordering.gt

-- `str::cmp`: the order of the code points, which is that of the bytes in UTF-8.
unfoldable pub text_compare : Text → Text → Ordering
text_compare [] [] = Ordering.eq
text_compare [] (b ∷ t) = Ordering.lt
text_compare (a ∷ s) [] = Ordering.gt
text_compare (a ∷ s) (b ∷ t) = then_with (compare a b) (text_compare s t)

abbrev is_gt : Ordering → Bool
is_gt Ordering.gt = true
is_gt Ordering.eq = false
is_gt Ordering.lt = false

abbrev is_eq : Ordering → Bool
is_eq Ordering.gt = false
is_eq Ordering.eq = true
is_eq Ordering.lt = false

module _ {A : Type 0} (cmp : A → A → Ordering) where
  unfoldable pub insert : A → List A → List A
  insert x [] = x ∷ []
  insert x (y ∷ ys) = if is_gt (cmp x y) then y ∷ insert x ys else x ∷ y ∷ ys

  -- A stable sort: an element goes in front of those that are equal to it.
  unfoldable pub sort_by : List A → List A
  unfolding insert
  sort_by [] = []
  sort_by (x ∷ xs) = insert x (sort_by xs)

-- The run of equal elements that starts with `x`, and what follows it.
unfoldable pub dedup_from {ℓ} : {A : Type ℓ} → (A → A → Bool) → A → List A → List A
dedup_from same x [] = x ∷ []
dedup_from same x (y ∷ ys) = if same y x then dedup_from same x ys else x ∷ dedup_from same y ys

-- `dedup`: of each run of equal elements the first is kept.
unfoldable pub dedup {ℓ} : {A : Type ℓ} → (A → A → Bool) → List A → List A
unfolding dedup_from
dedup same [] = []
dedup same (x ∷ xs) = dedup_from same x xs

-- A comparison that is a strict total order.
pub record IsOrder {A : Type 0} (cmp : A → A → Ordering) : Type 0 where
  pub cmp_eq : (a b : A) → cmp a b ≡ Ordering.eq → a ≡ b
  pub cmp_refl : (a : A) → cmp a a ≡ Ordering.eq
  pub cmp_flip : (a b : A) → cmp a b ≡ Ordering.gt → cmp b a ≡ Ordering.lt
  pub cmp_trans :
      (a b c : A) → cmp a b ≡ Ordering.lt → cmp b c ≡ Ordering.lt → cmp a c ≡ Ordering.lt

text_compare_eq : (s t : Text) → text_compare s t ≡ Ordering.eq → s ≡ t
unfolding text_compare
text_compare_eq [] [] h = refl
text_compare_eq [] (b ∷ t) h = cc
text_compare_eq (a ∷ s) [] h = cc
text_compare_eq (a ∷ s) (b ∷ t) h = ground (arith, text_compare_eq s t)

text_compare_refl : (s : Text) → text_compare s s ≡ Ordering.eq
unfolding text_compare
text_compare_refl [] = refl
text_compare_refl (a ∷ s) = ground (arith, text_compare_refl s)

text_compare_flip : (s t : Text) → text_compare s t ≡ Ordering.gt → text_compare t s ≡ Ordering.lt
unfolding text_compare
text_compare_flip [] [] h = cc
text_compare_flip [] (b ∷ t) h = cc
text_compare_flip (a ∷ s) [] h = refl
text_compare_flip (a ∷ s) (b ∷ t) h = ground (arith, text_compare_flip s t)

text_compare_trans :
    (s t u : Text)
    → text_compare s t ≡ Ordering.lt
    → text_compare t u ≡ Ordering.lt
    → text_compare s u ≡ Ordering.lt
unfolding text_compare
text_compare_trans [] [] u h k = cc
text_compare_trans [] (b ∷ t) [] h k = cc
text_compare_trans [] (b ∷ t) (c ∷ u) h k = refl
text_compare_trans (a ∷ s) [] u h k = cc
text_compare_trans (a ∷ s) (b ∷ t) [] h k = cc
text_compare_trans (a ∷ s) (b ∷ t) (c ∷ u) h k = ground (arith, text_compare_trans s t u)

pub text_compare-IsOrder : IsOrder text_compare
text_compare-IsOrder = record {
  cmp_eq = text_compare_eq;
  cmp_refl = text_compare_refl;
  cmp_flip = text_compare_flip;
  cmp_trans = text_compare_trans;
}

-- Two comparisons in turn, of the parts that a pair of functions reads.
module _ {A : Type 0} (key1 key2 : A → Text) where
  abbrev pub compare_by : A → A → Ordering
  compare_by a b = then_with (text_compare (key1 a) (key1 b)) (text_compare (key2 a) (key2 b))

  pub compare_by-IsOrder :
      ((a b : A) → key1 a ≡ key1 b → key2 a ≡ key2 b → a ≡ b) → IsOrder compare_by
  compare_by-IsOrder ext = record {
    cmp_eq = λ a b h.
        ground
          (arith, ext a b, text_compare_eq (key1 a) (key1 b), text_compare_eq (key2 a) (key2 b));
    cmp_refl = λ a. simp (text_compare_refl (key1 a), text_compare_refl (key2 a));
    cmp_flip = λ a b h. ground (
      arith,
      text_compare_flip (key1 a) (key1 b),
      text_compare_flip (key2 a) (key2 b),
      text_compare_eq (key1 a) (key1 b),
      text_compare_refl (key1 a),
    );
    cmp_trans = λ a b c h k. ground (
      arith,
      text_compare_eq (key1 a) (key1 b),
      text_compare_eq (key1 b) (key1 c),
      text_compare_refl (key1 a),
      text_compare_trans (key1 a) (key1 b) (key1 c),
      text_compare_trans (key2 a) (key2 b) (key2 c),
    );
  }

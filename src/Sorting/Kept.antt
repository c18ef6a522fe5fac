-- ===== src/Sorting/Kept.antt =====
-- Predicates on the elements of lists that are sorted, or freed of repeats.
use Prim.Native.Nat.{Ordering}
use activable_cloud.Prelude.{Bool, List, [], ◌∷◌, All, Bool-cases, inl, inr}
use activable_cloud.Sorting.{insert, sort_by, dedup, dedup_from, is_gt}

module _ {A : Type 0} (P : A → Type 0) where
  insert-All :
      (cmp : A → A → Ordering) (x : A) (xs : List A) → P x → All P xs → All P (insert cmp x xs)
  unfolding insert
  insert-All cmp x [] p ps = (p, tt)
  insert-All cmp x (y ∷ ys) p (q, qs) = elim (Bool-cases (is_gt (cmp x y))) [
    | inl e ↦ rw e (q, insert-All cmp x ys p qs)
    | inr n ↦ rw n (p, (q, qs))
  ]

  pub sort_by-All : (cmp : A → A → Ordering) (xs : List A) → All P xs → All P (sort_by cmp xs)
  unfolding sort_by
  sort_by-All cmp [] ps = tt
  sort_by-All cmp (x ∷ xs) (p, ps) = insert-All cmp x _ p (sort_by-All cmp xs ps)

  dedup_from-All :
      (same : A → A → Bool) (x : A) (xs : List A) → P x → All P xs → All P (dedup_from same x xs)
  unfolding dedup_from
  dedup_from-All same x [] p ps = (p, tt)
  dedup_from-All same x (y ∷ ys) p (q, qs) = elim (Bool-cases (same y x)) [
    | inl e ↦ rw e (dedup_from-All same x ys p qs)
    | inr n ↦ rw n (p, dedup_from-All same y ys q qs)
  ]

  pub dedup-All : (same : A → A → Bool) (xs : List A) → All P xs → All P (dedup same xs)
  unfolding dedup
  dedup-All same [] ps = tt
  dedup-All same (x ∷ xs) (p, ps) = dedup_from-All same x xs p ps

-- ===== src/Sorting/Strict.antt =====
-- Sorted lists without repeats, and what sorting and removing repeats make of a list.
use mathlib.Core.Path.{subst}
use activable_cloud.Prelude.{
  ◌≡◌, refl, sym, ap₂, ◌∙◌, ◌↔◌, ◌⊎◌, inl, inr, Bool, true, List, [], ◌∷◌, arith, Ordering, Any,
  All, All-mono, Bool-cases, ↔_trans,
}
use activable_cloud.Sorting.{insert, sort_by, dedup_from, dedup, IsOrder, is_gt}

-- `x` is an element.
abbrev pub In : {A : Type 0} → A → List A → Type 0
In x = Any (λ y. x ≡ y)

pub All-In : {A : Type 0} (P : A → Type 0) (a : A) (xs : List A) → All P xs → In a xs → P a
All-In P a [] h i = absurd i
All-In P a (x ∷ xs) h (inl e) = subst P (sym e) h.0
All-In P a (x ∷ xs) h (inr i) = All-In P a xs h.1 i

Any-In : {A : Type 0} (P : A → Type 0) (a : A) (xs : List A) → P a → In a xs → Any P xs
Any-In P a [] h i = i
Any-In P a (x ∷ xs) h (inl e) = inl (subst P e h)
Any-In P a (x ∷ xs) h (inr i) = inr (Any-In P a xs h i)

pub Any-subset :
    {A : Type 0} (P : A → Type 0) (xs ys : List A)
    → ((a : A) → In a xs → In a ys)
    → Any P xs
    → Any P ys
Any-subset P [] ys f h = absurd h
Any-subset P (x ∷ xs) ys f (inl h) = Any-In P x ys h (f x (inl refl))
Any-subset P (x ∷ xs) ys f (inr h) = Any-subset P xs ys (λ a i. f a (inr i)) h

module _ {A : Type 0} (same : A → A → Bool)
    (same_iff : (a b : A) → (same a b ≡ true) ↔ (a ≡ b)) where
  dedup_from-In : (a x : A) (ys : List A) → In a (dedup_from same x ys) ↔ ((a ≡ x) ⊎ In a ys)
  unfolding dedup_from
  dedup_from-In a x [] = (λ h. h, λ h. h)
  dedup_from-In a x (y ∷ ys) = elim (Bool-cases (same y x)) [
    | inl e ↦
        let is_x : y ≡ x = (same_iff y x).0 e in
        let (forth, back) = dedup_from-In a x ys in
        rw e (
          λ h. elim (forth h) [ inl p ↦ inl p | inr i ↦ inr (inr i) ],
          elim [
            | inl p ↦ back (inl p)
            | inr h ↦ elim h [ inl p ↦ back (inl (p ∙ is_x)) | inr i ↦ back (inr i) ]
          ],
        )
    | inr n ↦
        let (forth, back) = dedup_from-In a y ys in
        rw n (
          elim [ inl p ↦ inl p | inr i ↦ inr (forth i) ],
          elim [ inl p ↦ inl p | inr i ↦ inr (back i) ],
        )
  ]

  pub dedup-In : (a : A) (xs : List A) → In a (dedup same xs) ↔ In a xs
  unfolding dedup
  dedup-In a [] = (λ h. h, λ h. h)
  dedup-In a (x ∷ xs) = dedup_from-In a x xs

  dedup_from-All :
      (P : A → Type 0) (x : A) (ys : List A) → P x → All P ys → All P (dedup_from same x ys)
  unfolding dedup_from
  dedup_from-All P x [] px h = (px, tt)
  dedup_from-All P x (y ∷ ys) px h = elim (Bool-cases (same y x)) [
    | inl e ↦ rw e (dedup_from-All P x ys px h.1)
    | inr n ↦ rw n (px, dedup_from-All P y ys h.0 h.1)
  ]

module _ {A : Type 0} (cmp : A → A → Ordering) where
  abbrev NotAbove : A → A → Type 0
  NotAbove x y = ¬ (cmp x y ≡ Ordering.gt)

  abbrev pub NonDec : List A → Type 0
  NonDec [] = Unit
  NonDec (x ∷ xs) = All (NotAbove x) xs × NonDec xs

  -- Strictly ascending.
  abbrev pub Strict : List A → Type 0
  Strict [] = Unit
  Strict (x ∷ xs) = All (λ y. cmp x y ≡ Ordering.lt) xs × Strict xs

module _ {A : Type 0} (cmp : A → A → Ordering) (order : IsOrder cmp) where
  insert-In : (a x : A) (ys : List A) → In a (insert cmp x ys) ↔ ((a ≡ x) ⊎ In a ys)
  unfolding insert
  insert-In a x [] = (λ h. h, λ h. h)
  insert-In a x (y ∷ ys) = elim (Bool-cases (is_gt (cmp x y))) [
    | inl e ↦
        let (forth, back) = insert-In a x ys in
        rw e (
          elim [
            | inl p ↦ inr (inl p)
            | inr i ↦ elim (forth i) [ inl p ↦ inl p | inr j ↦ inr (inr j) ]
          ],
          elim [
            | inl p ↦ inr (back (inl p))
            | inr h ↦ elim h [ inl p ↦ inl p | inr j ↦ inr (back (inr j)) ]
          ],
        )
    | inr n ↦ rw n (λ h. h, λ h. h)
  ]

  pub sort_by-In : (a : A) (xs : List A) → In a (sort_by cmp xs) ↔ In a xs
  unfolding sort_by
  sort_by-In a [] = (λ h. h, λ h. h)
  sort_by-In a (x ∷ xs) =
      let (forth, back) = sort_by-In a xs in
      ↔_trans (insert-In a x (sort_by cmp xs)) (
        elim [ inl p ↦ inl p | inr i ↦ inr (forth i) ],
        elim [ inl p ↦ inl p | inr i ↦ inr (back i) ],
      )

  insert-All : (P : A → Type 0) (x : A) (ys : List A) → P x → All P ys → All P (insert cmp x ys)
  unfolding insert
  insert-All P x [] px h = (px, tt)
  insert-All P x (y ∷ ys) px h = elim (Bool-cases (is_gt (cmp x y))) [
    | inl e ↦ rw e (h.0, insert-All P x ys px h.1)
    | inr n ↦ rw n (px, h)
  ]

  NotAbove-lt : (x y : A) → NotAbove cmp x y → (cmp x y ≡ Ordering.lt) ⊎ (x ≡ y)
  NotAbove-lt x y n = ground (arith, order.cmp_eq x y)

  lt-NotAbove : (x y z : A) → cmp x y ≡ Ordering.lt → NotAbove cmp y z → cmp x z ≡ Ordering.lt
  lt-NotAbove x y z h n = elim (NotAbove-lt y z n) [
    | inl k ↦ order.cmp_trans x y z h k
    | inr e ↦ rw (← e) h
  ]

  NotAbove-trans : (x y z : A) → NotAbove cmp x y → NotAbove cmp y z → NotAbove cmp x z
  NotAbove-trans x y z n m = elim (NotAbove-lt x y n) [
    | inl h ↦ λ g. cc (lt-NotAbove x y z h m)
    | inr e ↦ rw e m
  ]

  flip-NotAbove : (x y : A) → is_gt (cmp x y) ≡ true → NotAbove cmp y x
  flip-NotAbove x y e g =
      let gt : cmp x y ≡ Ordering.gt = ground arith in ground (arith, order.cmp_flip x y gt)

  insert-NonDec : (x : A) (ys : List A) → NonDec cmp ys → NonDec cmp (insert cmp x ys)
  unfolding insert
  insert-NonDec x [] h = (tt, tt)
  insert-NonDec x (y ∷ ys) h = elim (Bool-cases (is_gt (cmp x y))) [
    | inl e ↦
        rw e (insert-All (NotAbove cmp y) x ys (flip-NotAbove x y e) h.0, insert-NonDec x ys h.1)
    | inr n ↦
        let first : NotAbove cmp x y = λ g. ground arith in
        rw n (
          (
            first,
            All-mono (NotAbove cmp y) (NotAbove cmp x) (λ z m. NotAbove-trans x y z first m) ys h.0,
          ),
          h,
        )
  ]

  pub sort_by-NonDec : (xs : List A) → NonDec cmp (sort_by cmp xs)
  unfolding sort_by
  sort_by-NonDec [] = tt
  sort_by-NonDec (x ∷ xs) = insert-NonDec x (sort_by cmp xs) (sort_by-NonDec xs)

  module _ (same : A → A → Bool) (same_iff : (a b : A) → (same a b ≡ true) ↔ (a ≡ b)) where
    dedup_from-Strict :
        (x : A) (ys : List A)
        → All (NotAbove cmp x) ys
        → NonDec cmp ys
        → Strict cmp (dedup_from same x ys)
    unfolding dedup_from
    dedup_from-Strict x [] h s = (tt, tt)
    dedup_from-Strict x (y ∷ ys) h s = elim (Bool-cases (same y x)) [
      | inl e ↦ rw e (dedup_from-Strict x ys h.1 s.1)
      | inr n ↦
          let below : cmp x y ≡ Ordering.lt = elim (NotAbove-lt x y h.0) [
            | inl l ↦ l
            | inr p ↦ cc (n, (same_iff y x).1 (sym p))
          ] in
          rw n (
            dedup_from-All same same_iff (λ z. cmp x z ≡ Ordering.lt) y ys below
                (All-mono (NotAbove cmp y) (λ z. cmp x z ≡ Ordering.lt)
                  (λ z m. lt-NotAbove x y z below m) ys s.0),
            dedup_from-Strict y ys s.0 s.1,
          )
    ]

    dedup-Strict : (xs : List A) → NonDec cmp xs → Strict cmp (dedup same xs)
    unfolding dedup
    dedup-Strict [] s = tt
    dedup-Strict (x ∷ xs) s = dedup_from-Strict x xs s.0 s.1

    -- `sort_by`, then `dedup`.
    pub canonical-Strict : (xs : List A) → Strict cmp (dedup same (sort_by cmp xs))
    canonical-Strict xs = dedup-Strict (sort_by cmp xs) (sort_by-NonDec xs)

    pub canonical-In : (a : A) (xs : List A) → In a (dedup same (sort_by cmp xs)) ↔ In a xs
    canonical-In a xs = ↔_trans (dedup-In same same_iff a (sort_by cmp xs)) (sort_by-In a xs)

  lt_irrefl : (x : A) → ¬ (cmp x x ≡ Ordering.lt)
  lt_irrefl x h = cc (order.cmp_refl x)

  -- Elements that are left, when the first is taken off.
  In-tail :
      (a x : A) (xs ys : List A)
      → Strict cmp (x ∷ xs)
      → ((b : A) → In b (x ∷ xs) → In b (x ∷ ys))
      → In a xs
      → In a ys
  In-tail a x xs ys s f i = elim (f a (inr i)) [
    | inl e ↦
        let self : cmp x x ≡ Ordering.lt =
          subst (λ b. cmp x b ≡ Ordering.lt) e (All-In (λ b. cmp x b ≡ Ordering.lt) a xs s.0 i) in
        absurd (lt_irrefl x self)
    | inr j ↦ j
  ]

  heads_equal :
      (x y : A) (xs ys : List A)
      → Strict cmp (x ∷ xs)
      → Strict cmp (y ∷ ys)
      → In x (y ∷ ys)
      → In y (x ∷ xs)
      → x ≡ y
  heads_equal x y xs ys s t (inl e) j = e
  heads_equal x y xs ys s t (inr i) (inl e) = sym e
  heads_equal x y xs ys s t (inr i) (inr j) = absurd (
      lt_irrefl x (
        order.cmp_trans x y x (All-In (λ b. cmp x b ≡ Ordering.lt) y xs s.0 j)
          (All-In (λ b. cmp y b ≡ Ordering.lt) x ys t.0 i)))

  -- Two strictly ascending lists of the same elements are equal.
  pub Strict-unique :
      (xs ys : List A)
      → Strict cmp xs
      → Strict cmp ys
      → ((a : A) → In a xs → In a ys)
      → ((a : A) → In a ys → In a xs)
      → xs ≡ ys
  Strict-unique [] [] s t f g = refl
  Strict-unique [] (y ∷ ys) s t f g = absurd (g y (inl refl))
  Strict-unique (x ∷ xs) [] s t f g = absurd (f x (inl refl))
  Strict-unique (x ∷ xs) (y ∷ ys) s t f g =
      let e : x ≡ y = heads_equal x y xs ys s t (f x (inl refl)) (g y (inl refl)) in
      let tt' = subst (λ z. Strict cmp (z ∷ ys)) (sym e) t in
      let f' = subst (λ z. (a : A) → In a (x ∷ xs) → In a (z ∷ ys)) (sym e) f in
      let g' = subst (λ z. (a : A) → In a (z ∷ ys) → In a (x ∷ xs)) (sym e) g in
      ap₂ ◌∷◌ e
        (Strict-unique xs ys s.1 t.1 (λ a. In-tail a x xs ys s f') (λ a. In-tail a x ys xs tt' g'))

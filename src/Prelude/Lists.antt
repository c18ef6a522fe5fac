-- ===== src/Prelude/Lists.antt =====
-- Lists measured and indexed by native numbers, and predicates on their elements.
use Prim.Native.Nat.{ℕ, zero, suc, ◌+◌, ◌<◌}
use mathlib.Core.Path.{◌≡◌, refl}
use mathlib.Core.Logic.{◌↔◌, ◌⊎◌, inl, inr}
use mathlib.Core.Bool.{Bool, true, false, ◌&&◌, ◌||◌}
use mathlib.Core.List.{List, [], ◌∷◌, ◌++◌, map}
use mathlib.Core.Option.{Option, none, some}
use native.Mathlib.Omega.{arith}
use activable_cloud.Prelude.Tests.{if◌then◌else◌, &&_iff, ||_iff, ↔_trans, Bool-cases}

module _ {ℓ} {A : Type ℓ} where
  abbrev pub length : List A → ℕ
  length [] = 0
  length (x ∷ xs) = suc (length xs)

  abbrev pub get_elem? : List A → ℕ → Option A
  get_elem? [] i = none
  get_elem? (x ∷ xs) zero = some x
  get_elem? (x ∷ xs) (suc i) = get_elem? xs i

  abbrev pub drop : ℕ → List A → List A
  drop zero xs = xs
  drop (suc n) [] = []
  drop (suc n) (x ∷ xs) = drop n xs

  abbrev pub is_empty : List A → Bool
  is_empty [] = true
  is_empty (x ∷ xs) = false

  -- Rust's `iter().any` and `iter().all`.
  abbrev pub any : (A → Bool) → List A → Bool
  any p [] = false
  any p (x ∷ xs) = p x || any p xs

  abbrev pub all : (A → Bool) → List A → Bool
  all p [] = true
  all p (x ∷ xs) = p x && all p xs

  abbrev pub keep : (A → Bool) → List A → List A
  keep p [] = []
  keep p (x ∷ xs) = if p x then x ∷ keep p xs else keep p xs

  pub length-append : (xs ys : List A) → length (xs ++ ys) ≡ length xs + length ys
  length-append [] ys = omega arith
  length-append (x ∷ xs) ys = omega (arith, length-append xs ys)

  pub drop-length : (xs : List A) → drop (length xs) xs ≡ []
  drop-length [] = refl
  drop-length (x ∷ xs) = drop-length xs

  -- An index in range shows the element, and how the rest goes on.
  pub drop-cons :
      (xs : List A) (i : ℕ)
      → i < length xs
      → (x : A) × (get_elem? xs i ≡ some x) × (drop i xs ≡ x ∷ drop (suc i) xs)
  drop-cons [] i h = elim h [ ]
  drop-cons (x ∷ xs) zero h = (x, refl, refl)
  drop-cons (x ∷ xs) (suc i) h = drop-cons xs i (omega arith)

-- Some element satisfies `P`, with the place at which it does.
abbrev pub Any {ℓ} : {A : Type ℓ} → (A → Type 0) → List A → Type 0
Any P [] = ⊥
Any P (x ∷ xs) = P x ⊎ Any P xs

-- Every element satisfies `P`.
abbrev pub All {ℓ} : {A : Type ℓ} → (A → Type 0) → List A → Type 0
All P [] = Unit
All P (x ∷ xs) = P x × All P xs

module _ {ℓ} {A : Type ℓ} (P : A → Type 0) where
  pub any_iff :
      (p : A → Bool) → ((x : A) → (p x ≡ true) ↔ P x) → (xs : List A) → (any p xs ≡ true) ↔ Any P xs
  any_iff p e [] = (λ h. cc, λ h. absurd h)
  any_iff p e (x ∷ xs) =
      let f = any_iff p e xs in
      ↔_trans (||_iff (p x) (any p xs)) (
        elim [ inl h ↦ inl ((e x).0 h) | inr h ↦ inr (f.0 h) ],
        elim [ inl h ↦ inl ((e x).1 h) | inr h ↦ inr (f.1 h) ],
      )

  pub all_iff :
      (p : A → Bool) → ((x : A) → (p x ≡ true) ↔ P x) → (xs : List A) → (all p xs ≡ true) ↔ All P xs
  all_iff p e [] = (λ h. tt, λ h. refl)
  all_iff p e (x ∷ xs) =
      let f = all_iff p e xs in
      ↔_trans (&&_iff (p x) (all p xs)) (λ h. ((e x).0 h.0, f.0 h.1), λ h. ((e x).1 h.0, f.1 h.1))

  pub Any-append : (xs ys : List A) → Any P (xs ++ ys) ↔ (Any P xs ⊎ Any P ys)
  Any-append [] ys = (inr, elim [ inl h ↦ absurd h | inr h ↦ h ])
  Any-append (x ∷ xs) ys = (
    elim [
      | inl h ↦ inl (inl h)
      | inr h ↦ elim ((Any-append xs ys).0 h) [ inl a ↦ inl (inr a) | inr b ↦ inr b ]
    ],
    elim [
      | inl h ↦ elim h [ inl p ↦ inl p | inr a ↦ inr ((Any-append xs ys).1 (inl a)) ]
      | inr b ↦ inr ((Any-append xs ys).1 (inr b))
    ],
  )

  pub Any-mono : (Q : A → Type 0) → ((x : A) → P x → Q x) → (xs : List A) → Any P xs → Any Q xs
  Any-mono Q f [] h = absurd h
  Any-mono Q f (x ∷ xs) (inl p) = inl (f x p)
  Any-mono Q f (x ∷ xs) (inr h) = inr (Any-mono Q f xs h)

  pub All-mono : (Q : A → Type 0) → ((x : A) → P x → Q x) → (xs : List A) → All P xs → All Q xs
  All-mono Q f [] h = tt
  All-mono Q f (x ∷ xs) h = (f x h.0, All-mono Q f xs h.1)

  pub All-append : (xs ys : List A) → All P xs → All P ys → All P (xs ++ ys)
  All-append [] ys h k = k
  All-append (x ∷ xs) ys h k = (h.0, All-append xs ys h.1 k)

  pub All-keep : (p : A → Bool) (xs : List A) → All P xs → All (λ x. P x × (p x ≡ true)) (keep p xs)
  All-keep p [] h = tt
  All-keep p (x ∷ xs) h = elim (Bool-cases (p x)) [
    | inl e ↦ rw e ((h.0, e), All-keep p xs h.1)
    | inr n ↦ rw n (All-keep p xs h.1)
  ]

  pub Any-absurd : ((x : A) → ¬ P x) → (xs : List A) → ¬ Any P xs
  Any-absurd n (x ∷ xs) (inl p) = n x p
  Any-absurd n (x ∷ xs) (inr h) = Any-absurd n xs h
  Any-absurd n [] h = h

pub any-false {ℓ} :
    {A : Type ℓ} (p : A → Bool) (xs : List A) → any p xs ≡ false → All (λ x. p x ≡ false) xs
any-false p [] h = tt
any-false p (x ∷ xs) h =
    let first : p x ≡ false = ground arith in
    let later : any p xs ≡ false = ground arith in (first, any-false p xs later)

pub any_of_false {ℓ} :
    {A : Type ℓ} (p : A → Bool) (xs : List A) → All (λ x. p x ≡ false) xs → any p xs ≡ false
any_of_false p [] h = refl
any_of_false p (x ∷ xs) h = rw (h.0, any_of_false p xs h.1) refl

-- Rust's `flat_map`, and a loop that pushes what each round gives.
abbrev pub flat_map {ℓ κ} : {A : Type ℓ} {B : Type κ} → (A → List B) → List A → List B
flat_map f [] = []
flat_map f (x ∷ xs) = f x ++ flat_map f xs

pub All-flat_map {ℓ κ} :
    {A : Type ℓ} {B : Type κ} (P : A → Type 0) (Q : B → Type 0) (f : A → List B) (xs : List A)
    → ((x : A) → P x → All Q (f x))
    → All P xs
    → All Q (flat_map f xs)
All-flat_map P Q f [] g h = tt
All-flat_map P Q f (x ∷ xs) g h =
    All-append Q (f x) (flat_map f xs) (g x h.0) (All-flat_map P Q f xs g h.1)

pub Any-flat_map {ℓ κ} :
    {A : Type ℓ} {B : Type κ} (P : B → Type 0) (f : A → List B) (xs : List A)
    → Any P (flat_map f xs) ↔ Any (λ x. Any P (f x)) xs
Any-flat_map P f [] = (λ h. h, λ h. h)
Any-flat_map P f (x ∷ xs) =
    let (forth, back) = Any-flat_map P f xs in
    ↔_trans (Any-append P (f x) (flat_map f xs)) (
      elim [ inl h ↦ inl h | inr h ↦ inr (forth h) ],
      elim [ inl h ↦ inl h | inr h ↦ inr (back h) ],
    )

pub Any-map {ℓ κ} :
    {A : Type ℓ} {B : Type κ} (P : B → Type 0) (f : A → B) (xs : List A)
    → Any P (map f xs) ↔ Any (λ x. P (f x)) xs
Any-map P f [] = (λ h. h, λ h. h)
Any-map P f (x ∷ xs) =
    let (forth, back) = Any-map P f xs in
    (elim [ inl h ↦ inl h | inr h ↦ inr (forth h) ], elim [ inl h ↦ inl h | inr h ↦ inr (back h) ])

pub Any-keep {ℓ} :
    {A : Type ℓ} (P : A → Type 0) (p : A → Bool) (xs : List A)
    → Any P (keep p xs) ↔ Any (λ x. (p x ≡ true) × P x) xs
Any-keep P p [] = (λ h. h, λ h. h)
Any-keep P p (x ∷ xs) =
    let (forth, back) = Any-keep P p xs in
    elim (Bool-cases (p x)) [
      | inl e ↦ rw e (
        elim [ inl h ↦ inl (refl, h) | inr h ↦ inr (forth h) ],
        elim [ inl h ↦ inl h.1 | inr h ↦ inr (back h) ],
      )
      | inr n ↦ rw n (λ h. inr (forth h), elim [ inl h ↦ cc h.0 | inr h ↦ back h ])
    ]

pub Any-iff {ℓ} :
    {A : Type ℓ} (P Q : A → Type 0) (xs : List A) → ((x : A) → P x ↔ Q x) → Any P xs ↔ Any Q xs
Any-iff P Q xs e = (Any-mono P Q (λ x. (e x).0) xs, Any-mono Q P (λ x. (e x).1) xs)

-- A fact that does not depend on the element comes out, and an element that is found goes with it.
pub Any-× {ℓ} :
    {A : Type ℓ} (P : A → Type 0) (Q : Type 0) (xs : List A)
    → Any (λ x. P x × Q) xs ↔ (Any P xs × Q)
Any-× P Q [] = (λ h. absurd h, λ h. h.0)
Any-× P Q (x ∷ xs) =
    let (forth, back) = Any-× P Q xs in
    (
      elim [ inl h ↦ (inl h.0, h.1) | inr h ↦ (inr (forth h).0, (forth h).1) ],
      λ (a, q). elim a [ inl h ↦ inl (h, q) | inr h ↦ inr (back (h, q)) ],
    )

-- Every element is somewhere in its list.
pub members : {A : Type 0} (xs : List A) → All (λ x. Any (λ y. y ≡ x) xs) xs
members [] = tt
members (x ∷ xs) = (
  inl refl,
  All-mono (λ z. Any (λ y. y ≡ z) xs) (λ z. Any (λ y. y ≡ z) (x ∷ xs)) (λ z. inr) xs (members xs),
)

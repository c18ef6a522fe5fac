-- ===== src/Scheduler/Order.antt =====
-- The order in which `claim` looks for a row (crates/activable-scheduler/src/store.rs).
use activable_cloud.Prelude.{
  ◌≡◌, subst, refl, ◌⊎◌, inl, inr, true, false, [], ◌∷◌, none, some, arith, Bool-cases,
  Option-cases, All, All-mono,
}
use activable_cloud.Prelude.Integers.{int_ltb_asym, int_ltb_irrefl, int_ltb_cotrans}
use activable_cloud.Scheduler.Model.{Job}
use activable_cloud.Scheduler.Store.{Table, before, first_of}
use activable_cloud.Scheduler.Tables.{Row}

pub first_of-none : (jobs : Table) → first_of jobs ≡ none → jobs ≡ []
first_of-none [] h = refl
first_of-none (k ∷ ks) h = ground arith

pub some_inj : {j k : Job} → some j ≡ some k → j ≡ k
some_inj h = cc

pub first_of_later :
    (k l j : Job) (ks : Table)
    → first_of ks ≡ some l
    → first_of (k ∷ ks) ≡ some j
    → ((before l k ≡ true) × (l ≡ j)) ⊎ ((before l k ≡ false) × (k ≡ j))
first_of_later k l j ks e h = elim (Bool-cases (before l k)) [
  | inl b ↦ inl (b, some_inj (rw (e, b) at h))
  | inr n ↦ inr (n, some_inj (rw (e, n) at h))
]

pub first_of-Row : (jobs : Table) (j : Job) → first_of jobs ≡ some j → Row j jobs
first_of-Row [] j h = cc
first_of-Row (k ∷ ks) j h = elim (Option-cases (first_of ks)) [
  | inl e ↦ inl cc
  | inr (l, e) ↦ elim (first_of_later k l j ks e h) [
    | inl b ↦ inr (subst (λ x. Row x ks) b.1 (first_of-Row ks l e))
    | inr n ↦ inl n.1
  ]
]

before_irrefl : (j : Job) → before j j ≡ false
before_irrefl j = rw (int_ltb_irrefl j.priority) (ground arith)

before_cotrans : (j k l : Job) → before j l ≡ true → (before j k ≡ true) ⊎ (before k l ≡ true)
before_cotrans j k l h = ground (
  arith,
  int_ltb_cotrans j.priority k.priority l.priority,
  int_ltb_cotrans k.priority l.priority j.priority,
  int_ltb_cotrans l.priority j.priority k.priority,
)

before_asym : (j k : Job) → before j k ≡ true → before k j ≡ false
before_asym j k h = ground (arith, int_ltb_asym j.priority k.priority)

not_before : (j k l : Job) → before k l ≡ false → before j k ≡ false → before j l ≡ false
not_before j k l h g = elim (Bool-cases (before j l)) [
  | inl b ↦ elim (before_cotrans j k l b) [ inl e ↦ cc | inr e ↦ cc ]
  | inr n ↦ n
]

-- No row is before the first one.
pub first_of-least :
    (jobs : Table) (j : Job) → first_of jobs ≡ some j → All (λ k. before k j ≡ false) jobs
first_of-least [] j h = tt
first_of-least (k ∷ ks) j h = elim (Option-cases (first_of ks)) [
  | inl e ↦
      let none_left : ks ≡ [] = first_of-none ks e in
      let same : k ≡ j = cc in rw (none_left, same) (before_irrefl j, tt)
  | inr (l, e) ↦
      let least = first_of-least ks l e in
      elim (first_of_later k l j ks e h) [
        | inl b ↦
            subst (λ x. All (λ y. before y x ≡ false) (k ∷ ks)) b.1 (before_asym l k b.0, least)
        | inr n ↦
            subst (λ x. All (λ y. before y x ≡ false) (k ∷ ks)) n.1
              (before_irrefl k, All-mono _ _ (λ y. not_before y l k n.0) ks least)
      ]
]

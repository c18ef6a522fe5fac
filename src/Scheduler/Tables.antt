-- ===== src/Scheduler/Tables.antt =====
-- Properties of the jobs table that concern several rows, and what updates do to them
-- (crates/activable-scheduler/src/store.rs and src/schema.rs).
use activable_cloud.Prelude.{
  ◌≡◌, subst, refl, inl, inr, Bool, true, false, ◌&&◌, [], ◌∷◌, ◌++◌, Option, none, some, arith,
  Text, text_eq, any, if◌then◌else◌, Bool-cases, Any, All,
}
use activable_cloud.Scheduler.Model.{Job, is_active}
use activable_cloud.Scheduler.Store.{Table, update, has_id, conflicts, same_key}

-- Two rows that the primary key and the dedup index let stand beside each other.
pub record Apart (j k : Job) : Type 0 where
  pub ids : has_id j.id k ≡ false
  pub keys : (is_active j.status && conflicts j.job_type j.dedup_key k) ≡ false

-- Every row is apart from each later one.
abbrev pub AllApart : Table → Type 0
AllApart [] = Unit
AllApart (j ∷ js) = All (Apart j) js × AllApart js

-- The row as an update leaves it.
abbrev pub after : (Job → Bool) → (Job → Job) → Job → Job
after chosen set j = if chosen j then set j else j

-- The assignments leave the columns of both indexes.
pub record KeepsKeys (set : Job → Job) : Type 0 where
  pub id_kept : (j : Job) → (set j).id ≡ j.id
  pub type_kept : (j : Job) → (set j).job_type ≡ j.job_type
  pub dedup_kept : (j : Job) → (set j).dedup_key ≡ j.dedup_key

false_mono :
    (a b c d e : Bool)
    → (a ≡ false → c ≡ false)
    → (b ≡ false → d ≡ false)
    → (a && (b && e)) ≡ false
    → (c && (d && e)) ≡ false
false_mono a b c d e f g h = ground arith

module _ (chosen : Job → Bool) (set : Job → Job) where
  -- A row that the dedup index does not hold is not held after the update.
  abbrev pub StaysOver : Job → Type 0
  StaysOver j = is_active j.status ≡ false → is_active (after chosen set j).status ≡ false

  after-KeepsKeys : KeepsKeys set → KeepsKeys (after chosen set)
  after-KeepsKeys q = record {
    id_kept = λ j. ground (arith, q.id_kept j);
    type_kept = λ j. ground (arith, q.type_kept j);
    dedup_kept = λ j. ground (arith, q.dedup_kept j);
  }

  Apart-after :
      (j k : Job)
      → KeepsKeys (after chosen set)
      → StaysOver j
      → StaysOver k
      → Apart j k
      → Apart (after chosen set j) (after chosen set k)
  Apart-after j k q f g a = record { ids = rw (q.id_kept j, q.id_kept k) a.ids; keys = keys_after }
    where
      keys_after :
          (is_active (after chosen set j).status
            && conflicts
                (after chosen set j).job_type
                (after chosen set j).dedup_key
                (after chosen set k))
          ≡ false
      keys_after =
          rw (q.type_kept j, q.dedup_kept j, q.type_kept k, q.dedup_kept k)
            (false_mono _ _ _ _ _ f g a.keys)

  All-Apart-after :
      (j : Job) (js : Table)
      → KeepsKeys (after chosen set)
      → StaysOver j
      → All StaysOver js
      → All (Apart j) js
      → All (Apart (after chosen set j)) (update chosen set js)
  All-Apart-after j [] q f g h = h
  All-Apart-after j (k ∷ js) q f (g, gs) (a, h) =
      (Apart-after j k q f g a, All-Apart-after j js q f gs h)

  all_apart :
      (jobs : Table)
      → KeepsKeys (after chosen set)
      → All StaysOver jobs
      → AllApart jobs
      → AllApart (update chosen set jobs)
  all_apart [] q f h = h
  all_apart (j ∷ js) q (f, fs) (a, h) = (All-Apart-after j js q f fs a, all_apart js q fs h)

  pub AllApart-update :
      (jobs : Table)
      → KeepsKeys set
      → All StaysOver jobs
      → AllApart jobs
      → AllApart (update chosen set jobs)
  AllApart-update jobs q = all_apart jobs (after-KeepsKeys q)

  pub All-update :
      (P : Job → Type 0) (jobs : Table)
      → All (λ j. chosen j ≡ true → P (set j)) jobs
      → All P jobs
      → All P (update chosen set jobs)
  All-update P [] f h = tt
  All-update P (j ∷ js) (f, fs) (p, ps) = elim (Bool-cases (chosen j)) [
    | inl e ↦ (rw e (f e), All-update P js fs ps)
    | inr n ↦ (rw n p, All-update P js fs ps)
  ]

pub All-snoc : (P : Job → Type 0) (js : Table) (k : Job) → All P js → P k → All P (js ++ k ∷ [])
All-snoc P [] k h p = (p, tt)
All-snoc P (j ∷ js) k (h0, h) p = (h0, All-snoc P js k h p)

-- A new row at the end of the table.
pub AllApart-snoc :
    (jobs : Table) (k : Job) → AllApart jobs → All (λ j. Apart j k) jobs → AllApart (jobs ++ k ∷ [])
AllApart-snoc [] k h a = (tt, tt)
AllApart-snoc (j ∷ js) k (h0, h) (a0, a) = (All-snoc (Apart j) js k h0 a0, AllApart-snoc js k h a)

-- `j` is a row of the table.
abbrev pub Row : Job → Table → Type 0
Row j = Any (λ k. k ≡ j)

pub All-Row : (P : Job → Type 0) (jobs : Table) (j : Job) → All P jobs → Row j jobs → P j
All-Row P (k ∷ ks) j (p, ps) (inl e) = subst P e p
All-Row P (k ∷ ks) j (p, ps) (inr r) = All-Row P ks j ps r
All-Row P [] j ps r = absurd r

pub Row-All : (P : Job → Type 0) (jobs : Table) → ((j : Job) → Row j jobs → P j) → All P jobs
Row-All P [] f = tt
Row-All P (k ∷ ks) f = (f k (inl refl), Row-All P ks (λ j r. f j (inr r)))

pub text_eq_sym : (s t : Text) → text_eq s t ≡ text_eq t s
text_eq_sym [] [] = refl
text_eq_sym [] (c ∷ t) = refl
text_eq_sym (c ∷ s) [] = refl
text_eq_sym (c ∷ s) (d ∷ t) = ground (arith, text_eq_sym s t)

same_key_sym : (k l : Option Text) → same_key k l ≡ same_key l k
same_key_sym none none = refl
same_key_sym none (some l) = refl
same_key_sym (some k) none = refl
same_key_sym (some k) (some l) = text_eq_sym k l

still_false : (a b c : Bool) → (a && c) ≡ false → (a && (b && c)) ≡ false
still_false a b c h = ground arith

-- A new row that neither index refuses is apart from the rows that are there.
pub Apart-fresh :
    (jobs : Table) (k : Job)
    → any (conflicts k.job_type k.dedup_key) jobs ≡ false
    → any (has_id k.id) jobs ≡ false
    → All (λ j. Apart j k) jobs
Apart-fresh [] k n m = tt
Apart-fresh (j ∷ js) k n m = (
  record {
    ids = ground arith;
    keys =
        rw (text_eq_sym k.job_type j.job_type, same_key_sym k.dedup_key j.dedup_key)
          (still_false (is_active j.status) (is_active k.status)
            (text_eq j.job_type k.job_type && same_key j.dedup_key k.dedup_key) (ground arith));
  },
  Apart-fresh js k (ground arith) (ground arith),
)

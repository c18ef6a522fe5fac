-- ===== src/Scheduler/Claim.antt =====
-- Which row `claim` takes (crates/activable-scheduler/src/store.rs).
use activable_cloud.Prelude.{
  suc, ◌≡◌, subst, refl, sym, ap, ◌∙◌, ◌≢◌, ◌↔◌, inl, inr, Bool, true, false, List, [], ◌∷◌, Option,
  none, some, arith, Text, any, keep, ◌==◌, ==_refl, if◌then◌else◌, Bool-cases, Option-cases, All,
  Any-keep, Any-mono, Any-×,
}
use activable_cloud.Prelude.Errors.{Result, ok, err}
use activable_cloud.Scheduler.Model.{
  JobStatus, is_active, Uuid, DateTime, Job, SchedulerError, database, is_pending,
}
use activable_cloud.Scheduler.Store.{
  Table, update, returning, has_id, claimable, before, first_of, claim_row, fits_int4, take, claim,
}
use activable_cloud.Scheduler.Order.{first_of-none, first_of-Row, first_of-least, some_inj}
use activable_cloud.Scheduler.Tables.{AllApart, StaysOver, AllApart-update, Row, All-Row, Row-All}

module _ (set : Job → Job) where
  -- The update by an id shows the one row that has it.
  pub returning-Row :
      (jobs : Table) (j : Job)
      → AllApart jobs
      → Row j jobs
      → returning (has_id j.id) set jobs ≡ some (set j)
  returning-Row (k ∷ ks) j (a, later) (inl e) =
      subst (λ x. returning (has_id x.id) set (k ∷ ks) ≡ some (set x)) e (rw (==_refl k.id) refl)
  returning-Row (k ∷ ks) j (a, later) (inr r) =
      let apart = (All-Row _ ks j a r).ids in
      let other : (k.id == j.id) ≡ false = ground arith in rw other (returning-Row ks j later r)
  returning-Row [] j a r = absurd r

-- A row with the id of a row is that row.
pub same_Row :
    (jobs : Table) (j k : Job) → AllApart jobs → Row j jobs → Row k jobs → j.id ≡ k.id → j ≡ k
same_Row (l ∷ ls) j k (a, later) (inl e) (inl f) h = sym e ∙ f
same_Row (l ∷ ls) j k (a, later) (inl e) (inr s) h =
    let same : l.id ≡ j.id = ap (λ x. x.id) e in
    let other : (k.id == l.id) ≡ false = (All-Row _ ls k a s).ids in
    let equal : k.id ≡ l.id = sym (same ∙ h) in
    let no : (l.id == l.id) ≡ false = subst (λ x. (x == l.id) ≡ false) equal other in
    let yes : (l.id == l.id) ≡ true = ==_refl l.id in cc
same_Row (l ∷ ls) j k (a, later) (inr r) (inl f) h =
    let same : l.id ≡ k.id = ap (λ x. x.id) f in
    let other : (j.id == l.id) ≡ false = (All-Row _ ls j a r).ids in
    let equal : j.id ≡ l.id = h ∙ sym same in
    let no : (l.id == l.id) ≡ false = subst (λ x. (x == l.id) ≡ false) equal other in
    let yes : (l.id == l.id) ≡ true = ==_refl l.id in cc
same_Row (l ∷ ls) j k (a, later) (inr r) (inr s) h = same_Row ls j k later r s h
same_Row [] j k a r s h = absurd r

pub kept_Row :
    (p : Job → Bool) (jobs : Table) (j : Job) → Row j (keep p jobs) → Row j jobs × (p j ≡ true)
kept_Row p jobs j r =
    (Any-× (λ k. k ≡ j) (p j ≡ true) jobs).0
      (Any-mono _ _ (λ k (h, e). (e, subst (λ x. p x ≡ true) e h)) jobs ((Any-keep _ p jobs).0 r))

if_ok :
    (fits : Bool) (t u after : Table) (shown : Option Job) (claimed : Job) (e : SchedulerError)
    → Path
        (Table × Result SchedulerError (Option Job))
        (if fits then (t, ok shown) else (u, err e))
        (after, ok (some claimed))
    → (after ≡ t) × (shown ≡ some claimed)
if_ok true t u after shown claimed e h = (cc, cc)
if_ok false t u after shown claimed e h = cc

take_ok :
    (refusal worker : Text) (now : DateTime) (jobs : Table) (next : Option Job) (after : Table)
    (claimed : Job)
    → take refusal worker now jobs next ≡ (after, ok (some claimed))
    → (j : Job) × (next ≡ some j)
      × (after ≡ update (has_id j.id) (claim_row worker now) jobs)
      × (returning (has_id j.id) (claim_row worker now) jobs ≡ some claimed)
unfolding take
take_ok refusal worker now jobs none after claimed h = cc
take_ok refusal worker now jobs (some j) after claimed h =
    let (table, shown) = if_ok (fits_int4 (suc j.attempts)) _ jobs after _ claimed _ h in
    (j, refl, table, shown)

-- What `claim` gives a worker: a pending row of its types that is due and not locked, before which no
-- other such row is, changed by the assignments and by nothing else, in a table with no other change.
-- The table is one that its indexes allow.
pub claim_first :
    (refusal : Text) (locked : Uuid → Bool) (types : List Text) (worker : Text) (now : DateTime)
    (jobs after : Table) (claimed : Job)
    → AllApart jobs
    → claim refusal locked types worker now jobs ≡ (after, ok (some claimed))
    → (j : Job) × Row j jobs
      × (claimable locked types now j ≡ true)
      × All (λ k. before k j ≡ false) (keep (claimable locked types now) jobs)
      × (claimed ≡ claim_row worker now j)
      × (after ≡ update (has_id j.id) (claim_row worker now) jobs)
unfolding claim
claim_first refusal locked types worker now jobs after claimed a h =
    let (j, e, table, shown) = take_ok refusal worker now jobs _ after claimed h in
    let (row, chosen) = kept_Row (claimable locked types now) jobs j (first_of-Row _ j e) in
    let is = some_inj (sym (returning-Row (claim_row worker now) jobs j a row) ∙ shown) in
    (j, row, chosen, first_of-least _ j e, sym is, table)

keep_none_iff : (p : Job → Bool) (jobs : Table) → (keep p jobs ≡ []) ↔ (any p jobs ≡ false)
keep_none_iff p [] = (λ h. refl, λ h. refl)
keep_none_iff p (j ∷ js) = ground (arith, keep_none_iff p js)

take-some :
    (refusal worker : Text) (now : DateTime) (jobs : Table) (j claimed : Job)
    → returning (has_id j.id) (claim_row worker now) jobs ≡ some claimed
    → (take refusal worker now jobs (some j)).1 ≢ ok none
unfolding take
take-some refusal worker now jobs j claimed h e = elim (Bool-cases (fits_int4 (suc j.attempts))) [
  | inl b ↦
      let bad : Path (Result SchedulerError (Option Job)) (ok (some claimed)) (ok none) =
        rw (take, b, h) at e in
      cc
  | inr n ↦
      let bad : Path (Result SchedulerError (Option Job)) (err (database refusal)) (ok none) =
        rw (take, n) at e in
      cc
]

-- `claim` gives no job, and no error, exactly when no row is claimable.
-- The table is one that its indexes allow.
pub claim_idle_iff :
    (refusal : Text) (locked : Uuid → Bool) (types : List Text) (worker : Text) (now : DateTime)
    (jobs : Table)
    → AllApart jobs
    → ((claim refusal locked types worker now jobs).1 ≡ ok none)
      ↔ (any (claimable locked types now) jobs ≡ false)
unfolding claim take
claim_idle_iff refusal locked types worker now jobs a = (forth, back)
  where
    back :
        any (claimable locked types now) jobs ≡ false
        → (claim refusal locked types worker now jobs).1 ≡ ok none
    back n = rw ((keep_none_iff (claimable locked types now) jobs).1 n) refl

    forth :
        (claim refusal locked types worker now jobs).1 ≡ ok none
        → any (claimable locked types now) jobs ≡ false
    forth h = elim (Option-cases (first_of (keep (claimable locked types now) jobs))) [
      | inl e ↦ (keep_none_iff (claimable locked types now) jobs).0 (first_of-none _ e)
      | inr (j, e) ↦
          let (row, chosen) = kept_Row (claimable locked types now) jobs j (first_of-Row _ j e) in
          let shown = returning-Row (claim_row worker now) jobs j a row in
          let taken : (take refusal worker now jobs (some j)).1 ≡ ok none =
            subst (λ o. (take refusal worker now jobs o).1 ≡ ok none) e h in
          absurd (take-some refusal worker now jobs j _ shown taken)
    ]

pending_active : (s : JobStatus) → is_pending s ≡ true → is_active s ≡ false → ⊥
pending_active s p e = ground arith

pub pending_claimable :
    (locked : Uuid → Bool) (types : List Text) (now : DateTime) (j : Job)
    → claimable locked types now j ≡ true
    → is_pending j.status ≡ true
pending_claimable locked types now j h = ground arith

-- The update of `claim` keeps the rows apart: the row that it starts was pending.
pub claim_apart :
    (worker : Text) (now : DateTime) (jobs : Table) (j : Job)
    → AllApart jobs
    → Row j jobs
    → is_pending j.status ≡ true
    → AllApart (update (has_id j.id) (claim_row worker now) jobs)
claim_apart worker now jobs j a row p =
    AllApart-update (has_id j.id) (claim_row worker now) jobs
      (record { id_kept = λ k. refl; type_kept = λ k. refl; dedup_kept = λ k. refl })
      (Row-All _ jobs over) a
  where
    over : (k : Job) → Row k jobs → StaysOver (has_id j.id) (claim_row worker now) k
    over k r e = elim (Bool-cases (k.id == j.id)) [
      | inl b ↦
          let equal : j.id ≡ k.id = ground arith in
          let same : j ≡ k = same_Row jobs j k a row r equal in
          let still : is_pending k.status ≡ true = subst (λ x. is_pending x.status ≡ true) same p in
          absurd (pending_active k.status still e)
      | inr n ↦ rw n e
    ]

-- The job that a claim starts is no longer pending.
claimed_busy :
    (id : Uuid) (worker : Text) (now : DateTime) (jobs : Table)
    → All
        (λ k. k.id ≡ id → is_pending k.status ≡ false)
        (update (has_id id) (claim_row worker now) jobs)
claimed_busy id worker now [] = tt
claimed_busy id worker now (j ∷ js) = (
  elim (Bool-cases (j.id == id)) [ inl b ↦ rw b (λ e. refl) | inr n ↦ rw n (λ e. ground arith) ],
  claimed_busy id worker now js,
)

-- A job that a worker has claimed is not given out by the next claim, whoever makes it.
-- The table is one that its indexes allow.
pub claim_twice :
    (refusal : Text) (locked locked' : Uuid → Bool) (types types' : List Text)
    (worker worker' : Text) (now now' : DateTime) (jobs after last : Table) (c d : Job)
    → AllApart jobs
    → claim refusal locked types worker now jobs ≡ (after, ok (some c))
    → claim refusal locked' types' worker' now' after ≡ (last, ok (some d))
    → c.id ≢ d.id
claim_twice refusal locked locked' types types' worker worker' now now' jobs after last c d a h g
      same =
    let (j, row, free, least, is_c, table) =
      claim_first refusal locked types worker now jobs after c a h in
    let still = claim_apart worker now jobs j a row (pending_claimable locked types now j free) in
    let apart : AllApart after = subst AllApart (sym table) still in
    let (k, row', free', least', is_d, table') =
      claim_first refusal locked' types' worker' now' after last d apart g in
    let busy =
      All-Row _ after k (subst (All _) (sym table) (claimed_busy j.id worker now jobs)) row' in
    let ids : k.id ≡ j.id = sym (ap (λ x. x.id) is_d) ∙ (sym same ∙ ap (λ x. x.id) is_c) in
    let starts : is_pending k.status ≡ true = pending_claimable locked' types' now' k free' in
    let runs : is_pending k.status ≡ false = busy ids in cc

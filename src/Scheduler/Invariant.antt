-- ===== src/Scheduler/Invariant.antt =====
-- The invariant of the jobs table, and the steps that workers, the reaper and clients take on it
-- (crates/activable-scheduler/src/store.rs).
use activable_cloud.Prelude.{
  ℕ, suc, ◌≡◌, subst, refl, inl, inr, Bool, true, List, [], Option, some, arith, Text, any, keep,
  Bool-cases, Option-cases, All, All-mono,
}
use activable_cloud.Prelude.Integers.{ℤ}
use activable_cloud.Json.{Value}
use activable_cloud.Scheduler.Model.{Uuid, DateTime, Job, is_pending, is_running, is_active}
use activable_cloud.Scheduler.Store.{
  Table, conflicts, has_id, has_running_id, claimable, first_of, claim_row, complete_row, fail_row,
  heartbeat_row, is_blocked, update, fits_int4, take, enqueue, claim, complete, fail,
  update_heartbeat,
}
use activable_cloud.Scheduler.Rows.{
  IsValidJob, new_job-IsValidJob, claim_row-IsValidJob, complete_row-IsValidJob,
  fail_row-IsValidJob, heartbeat_row-IsValidJob,
}
use activable_cloud.Scheduler.Tables.{
  AllApart, KeepsKeys, StaysOver, AllApart-update, All-update, AllApart-snoc, Apart-fresh, All-snoc,
  Row, All-Row, Row-All,
}
use activable_cloud.Scheduler.Claim.{claim_apart, same_Row, kept_Row, pending_claimable}
use activable_cloud.Scheduler.Order.{first_of-Row}

pub record IsValid (jobs : Table) : Type 0 where
  pub apart : AllApart jobs
  pub rows : All IsValidJob jobs

-- One operation on the table, by any process and with any outcome.
pub data Step (jobs : Table) : Table → Type 0 where
  enqueues :
      (refusal : Text) (fresh : Uuid) (now : DateTime) (job_type : Text) (payload : Value)
      (key : Option Text) (priority max_attempts : ℤ)
      → Step jobs (enqueue refusal fresh now job_type payload key priority max_attempts jobs).0
  claims :
      (refusal : Text) (locked : Uuid → Bool) (types : List Text) (worker : Text) (now : DateTime)
      → Step jobs (claim refusal locked types worker now jobs).0
  completes :
      (id : Uuid) (result : Value) (now : DateTime) → Step jobs (complete id result now jobs).0
  fails :
      (refusal : Text) (base jitter : ℕ) (id : Uuid) (error : Text) (retryable : Bool)
      (now : DateTime)
      → Step jobs (fail refusal base jitter id error retryable now jobs).0
  beats : (id : Uuid) (now : DateTime) → Step jobs (update_heartbeat id now jobs)

-- The tables that any sequence of operations makes of an empty one.
pub data Reachable : Table → Type 0 where
  empty : Reachable []
  step : {jobs after : Table} → Reachable jobs → Step jobs after → Reachable after

enqueue-IsValid :
    (refusal : Text) (fresh : Uuid) (now : DateTime) (job_type : Text) (payload : Value)
    (key : Option Text) (priority max_attempts : ℤ) (jobs : Table)
    → IsValid jobs
    → IsValid (enqueue refusal fresh now job_type payload key priority max_attempts jobs).0
unfolding enqueue
enqueue-IsValid refusal fresh now job_type payload key priority max_attempts jobs v =
    elim (Bool-cases (any (conflicts job_type key) jobs)) [
      | inl c ↦ rw (enqueue, c) v
      | inr n ↦ elim (Bool-cases (any (has_id fresh) jobs)) [
        | inl d ↦ rw (enqueue, n, d) v
        | inr m ↦
            rw (enqueue, n, m)
              (record {
                apart = AllApart-snoc jobs _ v.apart (Apart-fresh jobs _ n m);
                rows =
                    All-snoc _ jobs _ v.rows
                      (new_job-IsValidJob fresh now job_type payload key priority max_attempts);
              })
      ]
    ]

update-IsValid :
    (chosen : Job → Bool) (set : Job → Job) (jobs : Table)
    → KeepsKeys set
    → ((j : Job) → chosen j ≡ true → is_active (set j).status ≡ true → is_active j.status ≡ true)
    → ((j : Job) → chosen j ≡ true → IsValidJob j → IsValidJob (set j))
    → IsValid jobs
    → IsValid (update chosen set jobs)
update-IsValid chosen set jobs keeps over valid v = record {
  apart = AllApart-update chosen set jobs keeps (Row-All _ jobs (λ j r. stays j)) v.apart;
  rows = All-update chosen set _ jobs (All-mono _ _ (λ j h c. valid j c h) jobs v.rows) v.rows;
}
  where
    stays : (j : Job) → StaysOver chosen set j
    stays j e = elim (Bool-cases (chosen j)) [
      | inl c ↦ rw c (let f = over j c in ground arith)
      | inr n ↦ rw n e
    ]

take-IsValid :
    (refusal worker : Text) (now : DateTime) (jobs : Table) (j : Job)
    → Row j jobs
    → is_pending j.status ≡ true
    → IsValid jobs
    → IsValid (take refusal worker now jobs (some j)).0
unfolding take
take-IsValid refusal worker now jobs j row p v = elim (Bool-cases (fits_int4 (suc j.attempts))) [
  | inl b ↦ rw b (record {
    apart = claim_apart worker now jobs j v.apart row p;
    rows = All-update _ _ _ jobs (Row-All _ jobs started) v.rows;
  })
  | inr n ↦ rw n v
]
  where
    started : (k : Job) → Row k jobs → has_id j.id k ≡ true → IsValidJob (claim_row worker now k)
    started k r b =
        let equal : j.id ≡ k.id = ground arith in
        let same = same_Row jobs j k v.apart row r equal in
        claim_row-IsValidJob worker now k (subst (λ x. is_pending x.status ≡ true) same p)
          (All-Row _ jobs k v.rows r)

pub claim-IsValid :
    (refusal : Text) (locked : Uuid → Bool) (types : List Text) (worker : Text) (now : DateTime)
    (jobs : Table)
    → IsValid jobs
    → IsValid (claim refusal locked types worker now jobs).0
unfolding claim take
claim-IsValid refusal locked types worker now jobs v =
    elim (Option-cases (first_of (keep (claimable locked types now) jobs))) [
      | inl e ↦ rw (claim, e) v
      | inr (j, e) ↦
          let (row, chosen) = kept_Row (claimable locked types now) jobs j (first_of-Row _ j e) in
          rw (claim, e)
            (take-IsValid refusal worker now jobs j row
              (pending_claimable locked types now j chosen) v)
    ]

pub complete-IsValid :
    (id : Uuid) (result : Value) (now : DateTime) (jobs : Table)
    → IsValid jobs
    → IsValid (complete id result now jobs).0
unfolding complete
complete-IsValid id result now jobs =
    update-IsValid (has_id id) (complete_row result now) jobs
      (record { id_kept = λ j. refl; type_kept = λ j. refl; dedup_kept = λ j. refl }) (λ j c h. cc)
      (λ j c v. complete_row-IsValidJob result now j v)

running_found : (id : Uuid) (j : Job) → has_running_id id j ≡ true → is_running j.status ≡ true
running_found id j h = ground arith

running_active : (id : Uuid) (j : Job) → has_running_id id j ≡ true → is_active j.status ≡ true
running_active id j h = ground arith

pub fail-IsValid :
    (refusal : Text) (base jitter : ℕ) (id : Uuid) (error : Text) (retryable : Bool)
    (now : DateTime) (jobs : Table)
    → IsValid jobs
    → IsValid (fail refusal base jitter id error retryable now jobs).0
unfolding fail
fail-IsValid refusal base jitter id error retryable now jobs v =
    elim (Bool-cases (any (is_blocked base jitter id retryable) jobs)) [
      | inl e ↦ rw (fail, e) v
      | inr n ↦
          rw (fail, n)
            (update-IsValid (has_running_id id) (fail_row error retryable base jitter now) jobs
              (record { id_kept = λ j. refl; type_kept = λ j. refl; dedup_kept = λ j. refl })
              (λ j c h. running_active id j c)
              (λ j c w.
                fail_row-IsValidJob error retryable base jitter now j (running_found id j c) w)
              v)
    ]

update_heartbeat-IsValid :
    (id : Uuid) (now : DateTime) (jobs : Table)
    → IsValid jobs
    → IsValid (update_heartbeat id now jobs)
unfolding update_heartbeat
update_heartbeat-IsValid id now jobs =
    update-IsValid (has_running_id id) (heartbeat_row now) jobs
      (record { id_kept = λ j. refl; type_kept = λ j. refl; dedup_kept = λ j. refl })
      (λ j c h. running_active id j c)
      (λ j c v. heartbeat_row-IsValidJob now j (running_found id j c) v)

-- Every operation keeps the invariant.
pub Step-IsValid : (jobs after : Table) → Step jobs after → IsValid jobs → IsValid after
Step-IsValid jobs _ (enqueues refusal fresh now job_type payload key priority max_attempts) =
    enqueue-IsValid refusal fresh now job_type payload key priority max_attempts jobs
Step-IsValid jobs _ (claims refusal locked types worker now) =
    claim-IsValid refusal locked types worker now jobs
Step-IsValid jobs _ (completes id result now) = complete-IsValid id result now jobs
Step-IsValid jobs _ (fails refusal base jitter id error retryable now) =
    fail-IsValid refusal base jitter id error retryable now jobs
Step-IsValid jobs _ (beats id now) = update_heartbeat-IsValid id now jobs

-- In every table that the queue can come to, ids are unique, no two pending or running rows of one
-- type have one dedup key, and every row is valid.
pub Reachable-IsValid : (jobs : Table) → Reachable jobs → IsValid jobs
Reachable-IsValid _ empty = record { apart = tt; rows = tt }
Reachable-IsValid _ (step {jobs} {after} r s) = Step-IsValid jobs after s (Reachable-IsValid jobs r)

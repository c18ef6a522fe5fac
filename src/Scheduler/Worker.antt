-- ===== src/Scheduler/Worker.antt =====
-- One round of a worker's loop: crates/activable-scheduler/src/worker.rs and src/handler.rs.
pub mod Recorded
use activable_cloud.Prelude.{
  ℕ, ◌≡◌, ◌≢◌, subst, sym, ap, inl, inr, Bool, true, false, List, [], ◌∷◌, map, Option, none, some,
  Text, codes, text_eq, any, if◌then◌else◌, Bool-cases, Option-cases, &&_iff,
}
use activable_cloud.Prelude.Integers.{ℤ}
use activable_cloud.Prelude.Errors.{Result, ok, err}
use activable_cloud.Json.{Value}
use activable_cloud.Scheduler.Model.{Uuid, DateTime, Job, SchedulerError}
use activable_cloud.Scheduler.Store.{Table, claim, complete, complete_row, fail, found}
use activable_cloud.Scheduler.Tables.{AllApart, Row, text_eq_sym}
use activable_cloud.Scheduler.Claim.{claim_first, returning-Row}
use activable_cloud.Scheduler.Invariant.{IsValid, claim-IsValid, complete-IsValid, fail-IsValid}

pub record JobError : Type 0 where
  pub retryable : Bool
  pub message : Text

-- How the task of a handler ends: with its result, with its error, by a panic, or cancelled.
pub data Outcome : Type 0 where
  succeeded : Value → Outcome
  errored : JobError → Outcome
  panicked : Outcome
  cancelled : Outcome

pub record JobHandler : Type 0 where
  pub job_type : Text
  pub handle : Value → Outcome
  pub max_attempts : ℤ

-- `self.handlers.iter().find(…)`.
abbrev pub find_handler : Text → List JobHandler → Option JobHandler
find_handler job_type [] = none
find_handler job_type (h ∷ rest) =
    if text_eq h.job_type job_type then some h else find_handler job_type rest

-- `overflow`, `base` and `jitter` are those of `fail`; `finished` is the time at which the outcome is recorded.
module _ (overflow : Text) (base jitter : ℕ) (finished : DateTime) where
  unfoldable pub record_outcome : Uuid → Outcome → Table → Table
  record_outcome id (succeeded output) jobs = (complete id output finished jobs).0
  record_outcome id (errored e) jobs =
      (fail overflow base jitter id e.message e.retryable finished jobs).0
  record_outcome id panicked jobs =
      (fail overflow base jitter id (codes "handler panicked") false finished jobs).0
  record_outcome id cancelled jobs = jobs

  -- A claimed job is dispatched; `during` is what else happens to the table until the outcome is
  -- recorded, the heartbeats of the job among it.
  unfoldable pub dispatch :
      List JobHandler → (Table → Table) → Table → Result SchedulerError (Option Job) → Table
  dispatch handlers during jobs (ok (some job)) = elim (find_handler job.job_type handlers) [
    | some h ↦ record_outcome job.id (h.handle job.payload) (during jobs)
    | none ↦
        (fail overflow base jitter job.id (codes "no handler found for job type") false finished
          (during jobs)).0
  ]
  dispatch handlers during jobs _ = jobs

  unfoldable pub work :
      List JobHandler → (Table → Table) → Text → (Uuid → Bool) → Text → DateTime → Table → Table
  work handlers during refusal locked worker now jobs =
      let (claimed, outcome) =
        claim refusal locked (map (λ h. h.job_type) handlers) worker now jobs in
      dispatch handlers during claimed outcome

  record_outcome-IsValid :
      (id : Uuid) (outcome : Outcome) (jobs : Table)
      → IsValid jobs
      → IsValid (record_outcome id outcome jobs)
  unfolding record_outcome
  record_outcome-IsValid id (succeeded output) jobs = complete-IsValid id output finished jobs
  record_outcome-IsValid id (errored e) jobs =
      fail-IsValid overflow base jitter id e.message e.retryable finished jobs
  record_outcome-IsValid id panicked jobs =
      fail-IsValid overflow base jitter id _ false finished jobs
  record_outcome-IsValid id cancelled jobs = λ v. v

  dispatch-IsValid :
      (handlers : List JobHandler) (during : Table → Table) (jobs : Table)
      (outcome : Result SchedulerError (Option Job))
      → ((t : Table) → IsValid t → IsValid (during t))
      → IsValid jobs
      → IsValid (dispatch handlers during jobs outcome)
  unfolding dispatch
  dispatch-IsValid handlers during jobs (ok (some job)) keeps v =
      elim (Option-cases (find_handler job.job_type handlers)) [
        | inl e ↦
            rw (dispatch, e)
              (fail-IsValid overflow base jitter job.id _ false finished _ (keeps jobs v))
        | inr (h, e) ↦
            rw (dispatch, e) (record_outcome-IsValid job.id (h.handle job.payload) _ (keeps jobs v))
      ]
  dispatch-IsValid handlers during jobs (ok none) keeps v = v
  dispatch-IsValid handlers during jobs (err e) keeps v = v

  -- A round of a worker keeps the invariant, whatever its handlers do, panics and cancellation
  -- included, if the other processes keep it meanwhile.
  pub work-IsValid :
      (handlers : List JobHandler) (during : Table → Table) (refusal : Text) (locked : Uuid → Bool)
      (worker : Text) (now : DateTime) (jobs : Table)
      → ((t : Table) → IsValid t → IsValid (during t))
      → IsValid jobs
      → IsValid (work handlers during refusal locked worker now jobs)
  unfolding work
  work-IsValid handlers during refusal locked worker now jobs keeps v =
      dispatch-IsValid handlers during _ _ keeps (claim-IsValid refusal locked _ worker now jobs v)

find_listed :
    (job_type : Text) (handlers : List JobHandler)
    → any (text_eq job_type) (map (λ h. h.job_type) handlers) ≡ true
    → find_handler job_type handlers ≢ none
find_listed job_type [] h e = cc
find_listed job_type (first ∷ rest) h e = elim (Bool-cases (text_eq first.job_type job_type)) [
  | inl same ↦ let bad : some first ≡ none = rw same at e in cc
  | inr other ↦
      let later : any (text_eq job_type) (map (λ h. h.job_type) rest) ≡ true =
        rw (text_eq_sym job_type first.job_type, other) at h in
      find_listed job_type rest later (rw other at e)
]

-- A worker has a handler for every job that it claims.
-- The table is one that its indexes allow.
pub claimed_handler :
    (refusal : Text) (locked : Uuid → Bool) (handlers : List JobHandler) (worker : Text)
    (now : DateTime) (jobs after : Table) (job : Job)
    → AllApart jobs
    → claim refusal locked (map (λ h. h.job_type) handlers) worker now jobs ≡ (after, ok (some job))
    → find_handler job.job_type handlers ≢ none
claimed_handler refusal locked handlers worker now jobs after job a h =
    let (j, row, free, least, is, table) =
      claim_first refusal locked _ worker now jobs after job a h in
    let listed : any (text_eq j.job_type) (map (λ g. g.job_type) handlers) ≡ true =
      ((&&_iff _ _).0 ((&&_iff _ _).0 ((&&_iff _ _).0 free).1).1).0 in
    subst (λ t. find_handler t handlers ≢ none) (sym (ap (λ x. x.job_type) is))
      (find_listed j.job_type handlers listed)

-- `complete` ends the job with the id whatever its status is, one that has failed or waits for its
-- next attempt too.
-- The table is one that its indexes allow.
pub complete_any_status :
    (result : Value) (now : DateTime) (jobs : Table) (j : Job)
    → AllApart jobs
    → Row j jobs
    → (complete j.id result now jobs).1 ≡ ok (complete_row result now j)
unfolding complete
complete_any_status result now jobs j a r =
    ap (found j.id) (returning-Row (complete_row result now) jobs j a r)

-- ===== src/Scheduler/Rows.antt =====
-- The rows of the jobs table on their own, and the assignments of the queries
-- (crates/activable-scheduler/src/store.rs).
use activable_cloud.Prelude.{
  ℕ, ◌≡◌, refl, Bool, true, false, not, ◌&&◌, ◌||◌, Option, none, some, arith, Text, leb, ◌==◌,
  if◌then◌else◌,
}
use activable_cloud.Prelude.Integers.{ℤ, pos, int_ltb, int_leb}
use activable_cloud.Json.{Value}
use activable_cloud.Scheduler.Model.{
  pending, running, completed, failed, Uuid, DateTime, Job, is_pending, is_running,
}
use activable_cloud.Scheduler.Store.{new_job, claim_row, complete_row, fail_row, heartbeat_row}

abbrev pub is_set {ℓ} : {A : Type ℓ} → Option A → Bool
is_set none = false
is_set (some a) = true

-- A job is started again only while attempts are left, so the first attempt is the only one that
-- `max_attempts` does not bound.
unfoldable pub attempts_bounded : Job → Bool
attempts_bounded j =
    if is_pending j.status
    then (j.attempts == 0) || int_ltb (pos j.attempts) j.max_attempts
    else leb j.attempts 1 || int_leb (pos j.attempts) j.max_attempts

-- A running job has a worker and a heartbeat, and exactly the jobs that are over have an end.
unfoldable pub times_agree : Job → Bool
times_agree j = elim j.status [
  | pending ↦ not (is_set j.finished_at)
  | running ↦ is_set j.claimed_by && (is_set j.heartbeat_at && not (is_set j.finished_at))
  | completed ↦ is_set j.finished_at
  | failed ↦ is_set j.finished_at
]

pub record IsValidJob (j : Job) : Type 0 where
  pub bounded : attempts_bounded j ≡ true
  pub agree : times_agree j ≡ true

pub new_job-IsValidJob :
    (id : Uuid) (now : DateTime) (job_type : Text) (payload : Value) (key : Option Text)
    (priority max : ℤ)
    → IsValidJob (new_job id now job_type payload key priority max)
unfolding attempts_bounded times_agree
new_job-IsValidJob id now job_type payload key priority max = record {
  bounded = refl;
  agree = refl;
}

pub claim_row-IsValidJob :
    (worker : Text) (now : DateTime) (j : Job)
    → is_pending j.status ≡ true
    → IsValidJob j
    → IsValidJob (claim_row worker now j)
unfolding attempts_bounded times_agree
claim_row-IsValidJob worker now j p v = record { bounded = ground (arith); agree = ground (arith) }

pub complete_row-IsValidJob :
    (result : Value) (now : DateTime) (j : Job)
    → IsValidJob j
    → IsValidJob (complete_row result now j)
unfolding attempts_bounded times_agree
complete_row-IsValidJob result now j v = record { bounded = ground (arith); agree = ground (arith) }

pub fail_row-IsValidJob :
    (error : Text) (retryable : Bool) (base jitter : ℕ) (now : DateTime) (j : Job)
    → is_running j.status ≡ true
    → IsValidJob j
    → IsValidJob (fail_row error retryable base jitter now j)
unfolding attempts_bounded times_agree
fail_row-IsValidJob error retryable base jitter now j r v = record {
  bounded = ground (arith);
  agree = ground (arith);
}

pub heartbeat_row-IsValidJob :
    (now : DateTime) (j : Job)
    → is_running j.status ≡ true
    → IsValidJob j
    → IsValidJob (heartbeat_row now j)
unfolding attempts_bounded times_agree
heartbeat_row-IsValidJob now j r v = record { bounded = ground (arith); agree = ground (arith) }

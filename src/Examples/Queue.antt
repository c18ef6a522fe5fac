-- ===== src/Examples/Queue.antt =====
-- The job queue on a small table (crates/activable-scheduler).
use activable_cloud.Prelude.{
  ℕ, ◌+◌, ◌*◌, ◌≤◌, ◌<◌, ◌≡◌, ◌≢◌, ◌↔◌, ◌⊎◌, refl, inl, inr, Bool, true, false, ◌&&◌, [], ◌∷◌, none,
  some, arith, Text, codes, any, keep, Any, All, length,
}
use activable_cloud.Prelude.Integers.{pos, int_ltb}
use activable_cloud.Prelude.Errors.{ok, err}
use activable_cloud.Json.{null}
use activable_cloud.Scheduler.Model.{Uuid, DateTime, Job, not_found, database, pending, failed}
use activable_cloud.Scheduler.Store.{
  Table, new_job, update, has_id, has_running_id, claimable, before, claim_row, max_backoff, take,
  fits_int4, out_of_range, overflows, enqueue, claim, fail, find_stale_running,
}
use activable_cloud.Scheduler.Tables.{AllApart, Row}
use activable_cloud.Scheduler.Rows.{attempts_bounded, times_agree}
use activable_cloud.Scheduler.Claim.{claim_first, claim_twice}
use activable_cloud.Scheduler.Invariant.{
  IsValid, enqueues, claims, Reachable, empty, step, Reachable-IsValid,
}
use activable_cloud.Scheduler.Failure.{fail_running, fail_not_found_iff}
use activable_cloud.Scheduler.Reaper.{tick}
use activable_cloud.Scheduler.Reaper.Alone.{alone, InRange, tick-alone}
use activable_cloud.Scheduler.Worker.{JobHandler, panicked, work}
use activable_cloud.Scheduler.Worker.Recorded.{Records, work-Records}
use activable_cloud.Scheduler.Backoff.{
  backoff_base, exponential_backoff_seconds, exponential_backoff_seconds_bounds,
}

abbrev ingest : Text
ingest = codes "account_ingest"

-- Two waiting jobs, the second one more urgent.
abbrev first : Job
first = new_job 1 10 ingest null (some (codes "a")) (pos 5) (pos 3)

abbrev second : Job
second = new_job 2 20 ingest null (some (codes "b")) (pos 1) (pos 3)

abbrev waiting : Table
waiting = first ∷ second ∷ []

abbrev started : Job
started = claim_row (codes "w") 30 second

abbrev busy : Table
busy = first ∷ started ∷ []

abbrev both : Table
both = claim_row (codes "v") 40 first ∷ started ∷ []

abbrev unlocked : Uuid → Bool
unlocked id = false

waiting_apart : AllApart waiting
waiting_apart = ((record { ids = refl; keys = refl }, tt), (tt, tt))

busy_apart : AllApart busy
busy_apart = ((record { ids = refl; keys = refl }, tt), (tt, tt))

first_claim : claim [] unlocked (ingest ∷ []) (codes "w") 30 waiting ≡ (busy, ok (some started))
unfolding claim take fits_int4
first_claim = refl

second_claim :
    claim [] unlocked (ingest ∷ []) (codes "v") 40 busy
    ≡ (both, ok (some (claim_row (codes "v") 40 first)))
unfolding claim take fits_int4
second_claim = refl

claim_twice_example : started.id ≢ (claim_row (codes "v") 40 first).id
claim_twice_example =
    claim_twice [] unlocked unlocked (ingest ∷ []) (ingest ∷ []) (codes "w") (codes "v") 30 40
      waiting busy both started (claim_row (codes "v") 40 first) waiting_apart first_claim
      second_claim

claim_first_example :
    (j : Job) × Row j waiting
    × (claimable unlocked (ingest ∷ []) 30 j ≡ true)
    × All (λ k. before k j ≡ false) (keep (claimable unlocked (ingest ∷ []) 30) waiting)
    × (started ≡ claim_row (codes "w") 30 j)
    × (busy ≡ update (has_id j.id) (claim_row (codes "w") 30) waiting)
claim_first_example =
    claim_first [] unlocked (ingest ∷ []) (codes "w") 30 waiting busy started waiting_apart
      first_claim

busy-IsValid : IsValid busy
unfolding attempts_bounded times_agree
busy-IsValid = record {
  apart = busy_apart;
  rows = (record { bounded = refl; agree = refl }, (record { bounded = refl; agree = refl }, tt));
}

reached :
    Reachable
      (claim [] unlocked
        (ingest ∷ [])
        (codes "w")
        30
        (enqueue [] 1 10 ingest null none (pos 0) (pos 3) []).0).0
reached =
    step (step empty (enqueues [] 1 10 ingest null none (pos 0) (pos 3)))
      (claims [] unlocked (ingest ∷ []) (codes "w") 30)

reachable_example :
    IsValid
      (claim [] unlocked
        (ingest ∷ [])
        (codes "w")
        30
        (enqueue [] 1 10 ingest null none (pos 0) (pos 3) []).0).0
reachable_example = Reachable-IsValid _ reached

-- A first attempt is in range, and the attempt 1024 is not.
in_range : out_of_range 2000000 0 1 ≡ false
unfolding out_of_range
in_range = refl

beyond_range : out_of_range 2000000 0 1024 ≡ true
unfolding out_of_range
beyond_range = refl

-- After 1023 attempts a base of one second is in range, and one of two seconds is not.
last_in_range : (out_of_range 1000000 0 1023 ≡ false) × (out_of_range 2000000 0 1023 ≡ true)
unfolding out_of_range
last_in_range = (refl, refl)

fail_running_example :
    (((true && int_ltb (pos started.attempts) started.max_attempts) ≡ true)
      × (out_of_range 2000000 0 started.attempts ≡ true)
      × (fail [] 2000000 0 2 (codes "timeout") true 50 busy ≡ (busy, err (database []))))
    ⊎ ((k : Job) × ((fail [] 2000000 0 2 (codes "timeout") true 50 busy).1 ≡ ok k)
        × (k.attempts ≡ started.attempts)
        × (k.last_error ≡ some (codes "timeout"))
        × (((k.status ≡ pending)
              × (true ≡ true)
              × (int_ltb (pos started.attempts) started.max_attempts ≡ true)
              × (out_of_range 2000000 0 started.attempts ≡ false)
              × (at : DateTime) × (k.next_attempt_at ≡ some at)
              × (50 ≤ at)
              × (at ≤ 50 + max_backoff))
            ⊎ ((k.status ≡ failed)
                × ((true && int_ltb (pos started.attempts) started.max_attempts) ≡ false)
                × (k.finished_at ≡ some 50))))
fail_running_example =
    fail_running [] 2000000 0 (codes "timeout") true 50 busy started busy_apart (inr (inl refl))
      refl

fail_not_found_example :
    (fail [] 2000000 0 1 (codes "timeout") true 50 busy ≡ (busy, err (not_found 1)))
    ↔ (any (has_running_id 1) busy ≡ false)
fail_not_found_example = fail_not_found_iff [] 2000000 0 1 (codes "timeout") true 50 busy

abbrev clock : Uuid → DateTime
clock id = 500

abbrev draw : Uuid → ℕ
draw id = 7

InRange-busy : InRange 2000000 draw busy
unfolding out_of_range
InRange-busy = (refl, (refl, tt))

tick-alone_example :
    ((tick [] alone clock 2000000 draw (ingest ∷ []) 60 500 busy).1
      ≡ length (find_stale_running (ingest ∷ []) 60 500 busy))
    × All
        (λ id.
          any (has_running_id id) (tick [] alone clock 2000000 draw (ingest ∷ []) 60 500 busy).0
          ≡ false)
        (find_stale_running (ingest ∷ []) 60 500 busy)
tick-alone_example =
    tick-alone [] clock 2000000 draw (ingest ∷ []) 60 500 busy busy_apart InRange-busy

stale_run : find_stale_running (ingest ∷ []) 60 500 busy ≡ 2 ∷ []
unfolding find_stale_running
stale_run = refl

-- A handler that panics.
abbrev panics : JobHandler
panics = record { job_type = ingest; handle = λ payload. panicked; max_attempts = pos 3 }

abbrev quiet : Table → Table
quiet jobs = jobs

started-InRange : overflows 2000000 0 true started ≡ false
unfolding out_of_range
started-InRange = refl

work-Records_example :
    (h : JobHandler) × Any (λ g. g ≡ h) (panics ∷ [])
    × (h.job_type ≡ ingest)
    × Records 600
        (h.handle null)
        started
        busy
        (work [] 2000000 0 600 (panics ∷ []) quiet [] unlocked (codes "w") 30 waiting)
work-Records_example =
    work-Records [] 2000000 0 600 (panics ∷ []) quiet [] unlocked (codes "w") 30 waiting busy
      started started waiting_apart first_claim busy_apart (inr (inl refl)) refl refl
      started-InRange

small_jitter : 5 < backoff_base 3 600
unfolding backoff_base
small_jitter = omega arith

backoff_example :
    (backoff_base 3 600 + 5 < 2147483648)
    × (backoff_base 3 600 ≤ exponential_backoff_seconds 5 3 600)
    × (exponential_backoff_seconds 5 3 600 < 2 * backoff_base 3 600)
    × (exponential_backoff_seconds 5 3 600 ≤ 600)
backoff_example = exponential_backoff_seconds_bounds 5 3 600 small_jitter

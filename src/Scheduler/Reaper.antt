-- ===== src/Scheduler/Reaper.antt =====
-- The reaper: crates/activable-scheduler/src/reaper.rs.
pub mod Alone
use activable_cloud.Prelude.{
  ℕ, suc, inl, inr, ◌≤◌, ◌≡◌, subst, refl, ◌∙◌, Bool, true, false, &&_iff, ◌||◌, List, [], ◌∷◌, map,
  arith, Text, codes, length, any, keep, ◌==◌, ==_refl, if◌then◌else◌, Bool-cases, All, All-mono,
}
use activable_cloud.Prelude.Errors.{Result, ok, err}
use activable_cloud.Scheduler.Model.{Uuid, DateTime, Job, SchedulerError, is_running}
use activable_cloud.Scheduler.Store.{
  Table, has_running_id, fail_row, retries, is_stale, fail, find_stale_running,
}
use activable_cloud.Scheduler.Tables.{AllApart, Apart}
use activable_cloud.Scheduler.Invariant.{IsValid, fail-IsValid}

abbrev pub is_ok : Result SchedulerError Job → Bool
is_ok (ok j) = true
is_ok (err e) = false

counts_one : (b : Bool) {n m : ℕ} → n ≤ m → (if b then suc n else n) ≤ suc m
counts_one true h = omega arith
counts_one false h = omega arith

abbrev pub reason : Text
reason = codes "stale heartbeat"

-- What happens around the calls of `fail`: the other processes' work on the table before each of
-- them, its time, the jitter that it draws, and the text of an error of the database.
module _ (refusal : Text) (between : Uuid → Table → Table) (moment : Uuid → DateTime) (base : ℕ)
    (jitter : Uuid → ℕ) where
  -- The loop over the ids, with the count of those that were reaped.
  unfoldable pub reap : List Uuid → Table → Table × ℕ
  reap [] jobs = (jobs, 0)
  reap (id ∷ ids) jobs =
      let (after, outcome) =
        fail refusal base (jitter id) id reason true (moment id) (between id jobs) in
      let (last, reaped) = reap ids after in (last, if is_ok outcome then suc reaped else reaped)

  unfoldable pub tick : List Text → ℕ → DateTime → Table → Table × ℕ
  tick job_types threshold now jobs = reap (find_stale_running job_types threshold now jobs) jobs

  reap-IsValid :
      ((id : Uuid) (jobs : Table) → IsValid jobs → IsValid (between id jobs))
      → (ids : List Uuid) (jobs : Table) → IsValid jobs
      → IsValid (reap ids jobs).0
  unfolding reap
  reap-IsValid keeps [] jobs v = v
  reap-IsValid keeps (id ∷ ids) jobs v =
      reap-IsValid keeps ids _
        (fail-IsValid refusal base (jitter id) id _ true (moment id) _ (keeps id jobs v))

  reap_count : (ids : List Uuid) (jobs : Table) → (reap ids jobs).1 ≤ length ids
  unfolding reap
  reap_count [] jobs = omega arith
  reap_count (id ∷ ids) jobs = counts_one _ (reap_count ids _)

  -- Whatever the other processes do between the reaper's calls, as long as they keep the invariant, a
  -- tick keeps it, and it counts no more jobs than were stale.
  pub tick-IsValid :
      (job_types : List Text) (threshold : ℕ) (now : DateTime) (jobs : Table)
      → ((id : Uuid) (t : Table) → IsValid t → IsValid (between id t))
      → IsValid jobs
      → IsValid (tick job_types threshold now jobs).0
        × ((tick job_types threshold now jobs).1
            ≤ length (find_stale_running job_types threshold now jobs))
  unfolding tick
  tick-IsValid job_types threshold now jobs keeps v =
      (reap-IsValid keeps _ jobs v, reap_count _ jobs)

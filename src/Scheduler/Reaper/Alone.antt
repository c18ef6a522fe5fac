-- ===== src/Scheduler/Reaper/Alone.antt =====
-- A tick of the reaper while no other process works on the table
-- (crates/activable-scheduler/src/reaper.rs).
use activable_cloud.Prelude.{
  ℕ, inl, inr, ◌≡◌, subst, sym, refl, ◌∙◌, Bool, true, false, &&_iff, ◌||◌, List, [], ◌∷◌, map,
  arith, Text, length, any, keep, ◌==◌, ==_iff, ap, ◌&&◌, ==_refl, Bool-cases, All, All-mono,
}
use activable_cloud.Scheduler.Model.{Uuid, DateTime, Job, is_running}
use activable_cloud.Scheduler.Store.{
  Table, update, returning, found, overflows, is_blocked, has_running_id, fail_row, retries,
  is_stale, fail, find_stale_running,
}
use activable_cloud.Scheduler.Tables.{AllApart, Apart}
use activable_cloud.Scheduler.Reaper.{is_ok, reason, reap, tick}

-- The table as a failure of a stale job leaves it where no delay is out of range.
abbrev failed_in : ℕ → ℕ → Uuid → Text → DateTime → Table → Table
failed_in base jitter id error now =
    update (has_running_id id) (fail_row error true base jitter now)

-- A failure of one job leaves which of the others run, and ends its own run.
fails_other :
    (base jitter : ℕ) (id other : Uuid) (error : Text) (now : DateTime) (jobs : Table)
    → (other == id) ≡ false
    → any (has_running_id other) (failed_in base jitter id error now jobs)
      ≡ any (has_running_id other) jobs
fails_other base jitter id other error now [] n = refl
fails_other base jitter id other error now (j ∷ js) n =
    let rest = fails_other base jitter id other error now js n in
    elim (Bool-cases (has_running_id id j)) [
      | inl e ↦ let apart : (j.id == other) ≡ false = ground arith in rw (e, apart, rest) refl
      | inr m ↦ rw (m, rest) refl
    ]

fail_stops :
    (base jitter : ℕ) (error : Text) (now : DateTime) (j : Job)
    → is_running j.status ≡ true
    → is_running (fail_row error true base jitter now j).status ≡ false
fail_stops base jitter error now j r = elim (Bool-cases (retries true j)) [
  | inl e ↦ rw e refl
  | inr n ↦ rw (n, r) refl
]

fails_own :
    (base jitter : ℕ) (id : Uuid) (error : Text) (now : DateTime) (jobs : Table)
    → any (has_running_id id) (failed_in base jitter id error now jobs) ≡ false
fails_own base jitter id error now [] = refl
fails_own base jitter id error now (j ∷ js) =
    let rest = fails_own base jitter id error now js in
    elim (Bool-cases (has_running_id id j)) [
      | inl e ↦
          let (own, runs) = (&&_iff (j.id == id) (is_running j.status)).0 e in
          rw (e, own, fail_stops base jitter error now j runs, rest) refl
      | inr m ↦ rw (m, m, rest) refl
    ]

fails_ok :
    (set : Job → Job) (id : Uuid) (jobs : Table)
    → any (has_running_id id) jobs ≡ true
    → is_ok (found id (returning (has_running_id id) set jobs)) ≡ true
fails_ok set id [] h = cc
fails_ok set id (j ∷ js) h = elim (Bool-cases (has_running_id id j)) [
  | inl e ↦ rw e refl
  | inr n ↦ rw n (fails_ok set id js (rw n at h))
]

both_false : (a b c : Bool) → b ≡ false → c ≡ false → (a && b || c) ≡ false
both_false a b c h k = ground arith

first_false : (a b c : Bool) → a ≡ false → c ≡ false → (a && b || c) ≡ false
first_false a b c h k = ground arith

-- No running job of the table whose failure may be retried has a delay that is out of range.
abbrev pub InRange : ℕ → (Uuid → ℕ) → Table → Type 0
InRange base jitter = All (λ j. overflows base (jitter j.id) true j ≡ false)

InRange-free :
    (base : ℕ) (jitter : Uuid → ℕ) (id : Uuid) (jobs : Table)
    → InRange base jitter jobs
    → any (is_blocked base (jitter id) id true) jobs ≡ false
InRange-free base jitter id [] h = refl
InRange-free base jitter id (j ∷ js) (h, hs) =
    let rest = InRange-free base jitter id js hs in
    elim (Bool-cases (has_running_id id j)) [
      | inl e ↦
          let same : j.id ≡ id =
            (==_iff j.id id).0 ((&&_iff (j.id == id) (is_running j.status)).0 e).0 in
          let own : overflows base (jitter id) true j ≡ false =
            subst (λ x. overflows base (jitter x) true j ≡ false) same h in
          both_false _ _ _ own rest
      | inr n ↦ first_false _ _ _ n rest
    ]

-- So a failure is recorded, and the table after it is in range again.
fail-InRange :
    (refusal : Text) (base : ℕ) (jitter : Uuid → ℕ) (id : Uuid) (error : Text) (now : DateTime)
    (jobs : Table)
    → InRange base jitter jobs
    → fail refusal base (jitter id) id error true now jobs ≡ (
      failed_in base (jitter id) id error now jobs,
      found id (returning (has_running_id id) (fail_row error true base (jitter id) now) jobs),
    )
unfolding fail
fail-InRange refusal base jitter id error now jobs h =
    rw (fail, InRange-free base jitter id jobs h) refl

InRange-failed_in :
    (base : ℕ) (jitter : Uuid → ℕ) (id : Uuid) (error : Text) (now : DateTime) (jobs : Table)
    → InRange base jitter jobs
    → InRange base jitter (failed_in base (jitter id) id error now jobs)
InRange-failed_in base jitter id error now [] h = tt
InRange-failed_in base jitter id error now (j ∷ js) (h, hs) =
    let rest = InRange-failed_in base jitter id error now js hs in
    elim (Bool-cases (has_running_id id j)) [
      | inl e ↦
          let runs = ((&&_iff (j.id == id) (is_running j.status)).0 e).1 in
          rw e (rw (fail_stops base (jitter id) error now j runs) refl, rest)
      | inr n ↦ rw n (h, rest)
    ]

still_run :
    (base jitter : ℕ) (id : Uuid) (error : Text) (now : DateTime) (jobs : Table) (ids : List Uuid)
    → All (λ other. (other == id) ≡ false) ids
    → All (λ other. any (has_running_id other) jobs ≡ true) ids
    → All (λ other. any (has_running_id other) (failed_in base jitter id error now jobs) ≡ true) ids
still_run base jitter id error now jobs [] f r = tt
still_run base jitter id error now jobs (other ∷ ids) (f, fs) (r, rs) = (
  fails_other base jitter id other error now jobs f ∙ r,
  still_run base jitter id error now jobs ids fs rs,
)

-- Distinct ids, each of a running job.
abbrev pub Fresh : List Uuid → Type 0
Fresh [] = Unit
Fresh (id ∷ ids) = All (λ other. (other == id) ≡ false) ids × Fresh ids

-- No other process at work.
abbrev pub alone : Uuid → Table → Table
alone id jobs = jobs

module _ (refusal : Text) (moment : Uuid → DateTime) (base : ℕ) (jitter : Uuid → ℕ) where
  -- The table as one round of the loop leaves it.
  abbrev failed_by : Uuid → Table → Table
  failed_by id = failed_in base (jitter id) id reason (moment id)

  reap-cons :
      (id : Uuid) (ids : List Uuid) (jobs : Table)
      → InRange base jitter jobs
      → (reap refusal alone moment base jitter (id ∷ ids) jobs).0
        ≡ (reap refusal alone moment base jitter ids (failed_by id jobs)).0
  unfolding reap
  reap-cons id ids jobs d =
      ap (λ r. (reap refusal alone moment base jitter ids r.0).0)
        (fail-InRange refusal base jitter id reason (moment id) jobs d)

  reaps-All :
      (ids : List Uuid) (jobs : Table)
      → InRange base jitter jobs
      → Fresh ids
      → All (λ id. any (has_running_id id) jobs ≡ true) ids
      → (reap refusal alone moment base jitter ids jobs).1 ≡ length ids
  unfolding reap
  reaps-All [] jobs d f r = refl
  reaps-All (id ∷ ids) jobs d (f, fs) (r, rs) =
      let set = fail_row reason true base (jitter id) (moment id) in
      let done = fails_ok set id jobs r in
      let rest =
        reaps-All ids (failed_by id jobs) (InRange-failed_in base jitter id _ (moment id) jobs d) fs
          (still_run base (jitter id) id reason (moment id) jobs ids f rs) in
      rw (fail-InRange refusal base jitter id reason (moment id) jobs d, done, rest) refl

  stays_stopped :
      (id : Uuid) (ids : List Uuid) (jobs : Table)
      → InRange base jitter jobs
      → any (has_running_id id) jobs ≡ false
      → any (has_running_id id) (reap refusal alone moment base jitter ids jobs).0 ≡ false
  unfolding reap
  stays_stopped id [] jobs d h = h
  stays_stopped id (next ∷ ids) jobs d h =
      ap (any (has_running_id id)) (reap-cons next ids jobs d)
      ∙ stays_stopped id ids (failed_by next jobs)
          (InRange-failed_in base jitter next reason (moment next) jobs d)
          (elim (Bool-cases (id == next)) [
            | inl e ↦
                let same : next ≡ id = ground arith in
                subst (λ x. any (has_running_id x) (failed_by next jobs) ≡ false) same
                  (fails_own base (jitter next) next reason (moment next) jobs)
            | inr n ↦ fails_other base (jitter next) next id reason (moment next) jobs n ∙ h
          ])

  stops-All :
      (ids : List Uuid) (jobs : Table)
      → InRange base jitter jobs
      → All
          (λ id. any (has_running_id id) (reap refusal alone moment base jitter ids jobs).0 ≡ false)
          ids
  stops-All [] jobs d = tt
  stops-All (id ∷ ids) jobs d =
      let next = InRange-failed_in base jitter id reason (moment id) jobs d in
      subst (λ t. All (λ other. any (has_running_id other) t ≡ false) (id ∷ ids))
        (sym (reap-cons id ids jobs d))
        (
          stays_stopped id ids (failed_by id jobs) next
              (fails_own base (jitter id) id reason (moment id) jobs),
          stops-All ids (failed_by id jobs) next,
        )

||_true : (a b : Bool) → b ≡ true → (a || b) ≡ true
||_true a b h = ground arith

stale_running :
    (types : List Text) (threshold : ℕ) (now : DateTime) (jobs : Table)
    → All (λ id. any (has_running_id id) jobs ≡ true) (find_stale_running types threshold now jobs)
unfolding find_stale_running
stale_running types threshold now [] = tt
stale_running types threshold now (j ∷ js) =
    let rest = stale_running types threshold now js in
    let later =
      All-mono _ (λ id. any (has_running_id id) (j ∷ js) ≡ true)
        (λ id h. ||_true (has_running_id id j) _ h) _ rest in
    elim (Bool-cases (is_stale types threshold now j)) [
      | inl e ↦
          let runs : is_running j.status ≡ true = ((&&_iff _ _).0 e).0 in
          rw e (rw (==_refl j.id, runs) refl, later)
      | inr n ↦ rw n later
    ]

Apart-ids :
    (j : Job) (p : Job → Bool) (js : Table)
    → All (Apart j) js
    → All (λ other. (other == j.id) ≡ false) (map (λ k. k.id) (keep p js))
Apart-ids j p [] a = tt
Apart-ids j p (k ∷ ks) (a, later) = elim (Bool-cases (p k)) [
  | inl e ↦ rw e (a.ids, Apart-ids j p ks later)
  | inr n ↦ rw n (Apart-ids j p ks later)
]

stale-Fresh :
    (types : List Text) (threshold : ℕ) (now : DateTime) (jobs : Table)
    → AllApart jobs
    → Fresh (find_stale_running types threshold now jobs)
unfolding find_stale_running
stale-Fresh types threshold now [] a = tt
stale-Fresh types threshold now (j ∷ js) (a, later) =
    let rest = stale-Fresh types threshold now js later in
    elim (Bool-cases (is_stale types threshold now j)) [
      | inl e ↦ rw e (Apart-ids j (is_stale types threshold now) js a, rest)
      | inr n ↦ rw n rest
    ]

-- Where no other process works on the table, a tick reaps every stale job, and none of them is running after it. The table is one that its indexes allow, and no running job that may be retried has a delay out of the range of double precision.
pub tick-alone :
    (refusal : Text) (moment : Uuid → DateTime) (base : ℕ) (jitter : Uuid → ℕ)
    (job_types : List Text) (threshold : ℕ) (now : DateTime) (jobs : Table)
    → AllApart jobs
    → InRange base jitter jobs
    → ((tick refusal alone moment base jitter job_types threshold now jobs).1
        ≡ length (find_stale_running job_types threshold now jobs))
      × All
          (λ id.
            any
              (has_running_id id)
              (tick refusal alone moment base jitter job_types threshold now jobs).0
            ≡ false)
          (find_stale_running job_types threshold now jobs)
unfolding tick
tick-alone refusal moment base jitter job_types threshold now jobs a d = (
  reaps-All refusal moment base jitter _ jobs d (stale-Fresh job_types threshold now jobs a)
      (stale_running job_types threshold now jobs),
  stops-All refusal moment base jitter _ jobs d,
)

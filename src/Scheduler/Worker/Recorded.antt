-- ===== src/Scheduler/Worker/Recorded.antt =====
-- What a round of a worker records (crates/activable-scheduler/src/worker.rs).
use activable_cloud.Prelude.{
  ℕ, ◌≡◌, subst, sym, refl, ap, ◌∙◌, ◌⊎◌, inl, inr, Bool, true, false, ◌&&◌, List, [], ◌∷◌, map,
  some, Text, codes, text_eq, text_eq_iff, Any, ◌==◌, ==_refl, Bool-cases, Option-cases, arith,
}
use activable_cloud.Prelude.Integers.{pos, int_ltb}
use activable_cloud.Prelude.Errors.{ok}
use activable_cloud.Scheduler.Model.{pending, running, completed, failed, Uuid, DateTime, Job}
use activable_cloud.Scheduler.Store.{
  Table, update, has_id, has_running_id, overflows, claim, complete, complete_row, fail, fail_row,
}
use activable_cloud.Scheduler.Tables.{AllApart, Row}
use activable_cloud.Scheduler.Failure.{blocked_running}
use activable_cloud.Scheduler.Worker.{
  Outcome, succeeded, errored, panicked, cancelled, JobHandler, find_handler, record_outcome,
  dispatch, work, claimed_handler,
}

-- An update sets a row that it chooses, and keeps one that it does not.
Row-set :
    (chosen : Job → Bool) (set : Job → Job) (jobs : Table) (j : Job)
    → Row j jobs
    → chosen j ≡ true
    → Row (set j) (update chosen set jobs)
Row-set chosen set (k ∷ ks) j (inl e) c =
    inl (rw (subst (λ x. chosen x ≡ true) (sym e) c) (ap set e))
Row-set chosen set (k ∷ ks) j (inr r) c = inr (Row-set chosen set ks j r c)
Row-set chosen set [] j r c = absurd r

Row-kept :
    (chosen : Job → Bool) (set : Job → Job) (jobs : Table) (j : Job)
    → Row j jobs
    → chosen j ≡ false
    → Row j (update chosen set jobs)
Row-kept chosen set (k ∷ ks) j (inl e) c = inl (rw (subst (λ x. chosen x ≡ false) (sym e) c) e)
Row-kept chosen set (k ∷ ks) j (inr r) c = inr (Row-kept chosen set ks j r c)
Row-kept chosen set [] j r c = absurd r

-- The handler that is found is one of the list, for the type.
find_handler-Any :
    (job_type : Text) (handlers : List JobHandler) {h : JobHandler}
    → find_handler job_type handlers ≡ some h
    → Any (λ g. g ≡ h) handlers × (h.job_type ≡ job_type)
find_handler-Any job_type [] e = cc
find_handler-Any job_type (g ∷ gs) e = elim (Bool-cases (text_eq g.job_type job_type)) [
  | inl y ↦
      let same : g ≡ _ = cc (rw y at e) in
      (inl same, subst (λ x. x.job_type ≡ job_type) same ((text_eq_iff g.job_type job_type).0 y))
  | inr n ↦ let (later, of_type) = find_handler-Any job_type gs (rw n at e) in (inr later, of_type)
]

-- What becomes of the row of a running job by the outcome of its handler.
abbrev pub Recorded : DateTime → Outcome → Job → Job → Type 0
Recorded finished (succeeded output) k after =
    (after.status ≡ completed) × (after.result ≡ some output) × (after.finished_at ≡ some finished)
Recorded finished (errored e) k after =
    (after.last_error ≡ some e.message)
    × (((after.status ≡ pending)
          × ((e.retryable && int_ltb (pos k.attempts) k.max_attempts) ≡ true))
        ⊎ ((after.status ≡ failed)
            × ((e.retryable && int_ltb (pos k.attempts) k.max_attempts) ≡ false)))
Recorded finished panicked k after =
    (after.last_error ≡ some (codes "handler panicked")) × (after.status ≡ failed)
Recorded finished cancelled k after = after ≡ k

-- The row of the job has become one, and the other rows have stayed.
abbrev pub Records : DateTime → Outcome → Job → Table → Table → Type 0
Records finished outcome k jobs after =
    ((l : Job) × Row l after × (l.id ≡ k.id) × Recorded finished outcome k l)
    × ((other : Job) → Row other jobs → (other.id == k.id) ≡ false → Row other after)

other_not_running : (id : Uuid) (j : Job) → (j.id == id) ≡ false → has_running_id id j ≡ false
other_not_running id j h = ground arith

overflows_less :
    (base jitter : ℕ) (retryable : Bool) (k : Job)
    → overflows base jitter true k ≡ false
    → overflows base jitter retryable k ≡ false
overflows_less base jitter true k h = h
overflows_less base jitter false k h = ground arith

module _ (overflow : Text) (base jitter : ℕ) (finished : DateTime) where
  -- A failure that is not out of range sets the row.
  fail-sets :
      (error : Text) (retryable : Bool) (jobs : Table) (k : Job)
      → AllApart jobs
      → Row k jobs
      → k.status ≡ running
      → overflows base jitter true k ≡ false
      → (fail overflow base jitter k.id error retryable finished jobs).0
        ≡ update (has_running_id k.id) (fail_row error retryable base jitter finished) jobs
  unfolding fail
  fail-sets error retryable jobs k a r runs h =
      let free =
        blocked_running base jitter retryable jobs k a r (rw runs refl)
        ∙ overflows_less base jitter retryable k h in
      rw (fail, free) refl

  fail-keeps :
      (error : Text) (retryable : Bool) (jobs : Table) (k : Job)
      → Row k jobs
      → k.status ≡ running
      → Row
          (fail_row error retryable base jitter finished k)
          (update (has_running_id k.id) (fail_row error retryable base jitter finished) jobs)
        × ((other : Job)
            → Row other jobs
            → (other.id == k.id) ≡ false
            → Row other
                (update (has_running_id k.id) (fail_row error retryable base jitter finished) jobs))
  fail-keeps error retryable jobs k r runs =
      let set = fail_row error retryable base jitter finished in
      (
        Row-set (has_running_id k.id) set jobs k r (rw (==_refl k.id, runs) refl),
        λ other s n.
            Row-kept (has_running_id k.id) set jobs other s (other_not_running k.id other n),
      )

  record_outcome-Records :
      (outcome : Outcome) (jobs : Table) (k : Job)
      → AllApart jobs
      → Row k jobs
      → k.status ≡ running
      → overflows base jitter true k ≡ false
      → Records finished outcome k jobs
          (record_outcome overflow base jitter finished k.id outcome jobs)
  unfolding record_outcome complete
  record_outcome-Records (succeeded output) jobs k a r runs h =
      let set = complete_row output finished in
      (
        (set k, Row-set (has_id k.id) set jobs k r (==_refl k.id), refl, (refl, refl, refl)),
        λ other s n. Row-kept (has_id k.id) set jobs other s n,
      )
  record_outcome-Records (errored e) jobs k a r runs h =
      let (row, others) = fail-keeps e.message e.retryable jobs k r runs in
      subst (λ t. Records finished (errored e) k jobs t)
        (sym (fail-sets e.message e.retryable jobs k a r runs h))
        (
          (
            fail_row e.message e.retryable base jitter finished k,
            row,
            refl,
            (
              refl,
              elim (Bool-cases (e.retryable && int_ltb (pos k.attempts) k.max_attempts)) [
                | inl t ↦ inl (rw (runs, t) refl, t)
                | inr n ↦ inr (rw (runs, n) refl, n)
              ],
            ),
          ),
          others,
        )
  record_outcome-Records panicked jobs k a r runs h =
      let (row, others) = fail-keeps (codes "handler panicked") false jobs k r runs in
      subst (λ t. Records finished panicked k jobs t)
        (sym (fail-sets (codes "handler panicked") false jobs k a r runs h))
        (
          (
            fail_row (codes "handler panicked") false base jitter finished k,
            row,
            refl,
            (refl, rw runs refl),
          ),
          others,
        )
  record_outcome-Records cancelled jobs k a r runs h = ((k, r, refl, refl), λ other s n. s)

  dispatch-found :
      (handlers : List JobHandler) (during : Table → Table) (after : Table) (job : Job)
      (handler : JobHandler)
      → find_handler job.job_type handlers ≡ some handler
      → dispatch overflow base jitter finished handlers during after (ok (some job))
        ≡ record_outcome overflow base jitter finished job.id
            (handler.handle job.payload)
            (during after)
  unfolding dispatch
  dispatch-found handlers during after job handler e = rw (dispatch, e) refl

  -- A worker that claims a job has a handler of its type, and what it records is the outcome of that handler on the payload: completed with the output, waiting or failed as the error says, failed by a panic, and nothing when it is cancelled; the other rows stay. This is so where the job still runs in the table that the other processes have made meanwhile, its delay is in range, and the indexes allow the tables.
  pub work-Records :
      (handlers : List JobHandler) (during : Table → Table) (refusal : Text) (locked : Uuid → Bool)
      (worker : Text) (now : DateTime) (jobs after : Table) (job k : Job)
      → AllApart jobs
      → claim refusal locked (map (λ h. h.job_type) handlers) worker now jobs
        ≡ (after, ok (some job))
      → AllApart (during after)
      → Row k (during after)
      → k.id ≡ job.id
      → k.status ≡ running
      → overflows base jitter true k ≡ false
      → (h : JobHandler) × Any (λ g. g ≡ h) handlers
        × (h.job_type ≡ job.job_type)
        × Records finished
            (h.handle job.payload)
            k
            (during after)
            (work overflow base jitter finished handlers during refusal locked worker now jobs)
  unfolding work
  work-Records handlers during refusal locked worker now jobs after job k a claimed b r same runs
        h =
      elim (Option-cases (find_handler job.job_type handlers)) [
        | inl e ↦
            absurd (claimed_handler refusal locked handlers worker now jobs after job a claimed e)
        | inr (handler, e) ↦
            let (listed, of_type) = find_handler-Any job.job_type handlers e in
            let recorded =
              record_outcome-Records (handler.handle job.payload) (during after) k b r runs h in
            (
              handler,
              listed,
              of_type,
              subst (λ t. Records finished (handler.handle job.payload) k (during after) t)
                  (sym (
                    ap (λ p. dispatch overflow base jitter finished handlers during p.0 p.1) claimed
                    ∙ dispatch-found handlers during after job handler e))
                  (subst
                    (λ id. Records finished (handler.handle job.payload) k (during after) (
                      record_outcome overflow base jitter finished id (handler.handle job.payload)
                        (during after)))
                    same recorded),
            )
      ]

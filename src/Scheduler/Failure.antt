-- ===== src/Scheduler/Failure.antt =====
-- What `fail` does to a job (crates/activable-scheduler/src/store.rs).
use activable_cloud.Prelude.{
  ℕ, ◌+◌, ◌*◌, ◌^◌, ◌≤◌, ◌≡◌, subst, refl, ap, ap₂, ◌↔◌, ◌⊎◌, inl, inr, Bool, true, false, not,
  ◌&&◌, ◌||◌, [], ◌∷◌, some, arith, Text, any, All, ◌==◌, ==_refl, leb, leb→le, &&_iff, Bool-cases,
}
use activable_cloud.Prelude.Integers.{pos, int_ltb, int_leb-not}
use activable_cloud.Prelude.Errors.{ok, err}
use activable_cloud.Scheduler.Model.{
  pending, running, failed, Uuid, DateTime, Job, not_found, database, is_running,
}
use activable_cloud.Scheduler.Store.{
  Table, update, returning, found, has_running_id, is_blocked, overflows, out_of_range, fail_row,
  backoff, max_backoff, fail,
}
use activable_cloud.Scheduler.Tables.{AllApart, Apart, Row, All-Row}

pub update_none :
    (chosen : Job → Bool) (set : Job → Job) (jobs : Table)
    → any chosen jobs ≡ false
    → update chosen set jobs ≡ jobs
update_none chosen set [] h = refl
update_none chosen set (j ∷ js) h = ground (arith, update_none chosen set js)

found_none_iff :
    (chosen : Job → Bool) (set : Job → Job) (id : Uuid) (jobs : Table)
    → (found id (returning chosen set jobs) ≡ err (not_found id)) ↔ (any chosen jobs ≡ false)
found_none_iff chosen set id [] = (λ h. refl, λ h. refl)
found_none_iff chosen set id (j ∷ js) = elim (Bool-cases (chosen j)) [
  | inl e ↦ rw e (λ h. cc, λ h. cc)
  | inr n ↦ rw n (found_none_iff chosen set id js)
]

any-blocked :
    (p q : Job → Bool) (jobs : Table) → any p jobs ≡ false → any (λ j. p j && q j) jobs ≡ false
any-blocked p q [] h = refl
any-blocked p q (j ∷ js) h = ground (arith, any-blocked p q js)

-- `fail` says `NotFound`, and leaves the table as it is, exactly when no running job has the id.
pub fail_not_found_iff :
    (refusal : Text) (base jitter : ℕ) (id : Uuid) (error : Text) (retryable : Bool)
    (now : DateTime) (jobs : Table)
    → (fail refusal base jitter id error retryable now jobs ≡ (jobs, err (not_found id)))
      ↔ (any (has_running_id id) jobs ≡ false)
unfolding fail
fail_not_found_iff refusal base jitter id error retryable now jobs =
    let set = fail_row error retryable base jitter now in
    let (forth, back) = found_none_iff (has_running_id id) set id jobs in
    elim (Bool-cases (any (is_blocked base jitter id retryable) jobs)) [
      | inl e ↦
          rw (fail, e)
            (
              λ h. cc,
              λ n.
                  let no =
                    any-blocked (has_running_id id) (overflows base jitter retryable) jobs n in
                  cc,
            )
      | inr m ↦
          rw (fail, m)
            (
              λ h. forth (ap (λ p. p.1) h),
              λ n. ap₂ (λ t r. (t, r)) (update_none (has_running_id id) set jobs n) (back n),
            )
    ]

returning_running :
    (set : Job → Job) (jobs : Table) (j : Job)
    → AllApart jobs
    → Row j jobs
    → is_running j.status ≡ true
    → returning (has_running_id j.id) set jobs ≡ some (set j)
returning_running set (k ∷ ks) j (a, later) (inl e) r =
    subst
      (λ x.
        is_running x.status ≡ true → returning (has_running_id x.id) set (k ∷ ks) ≡ some (set x))
      e (λ runs. rw (==_refl k.id, runs) refl) r
returning_running set (k ∷ ks) j (a, later) (inr row) r =
    let apart = (All-Row _ ks j a row).ids in
    let other : (k.id == j.id) ≡ false = ground arith in
    rw other (returning_running set ks j later row r)
returning_running set [] j a row r = absurd row

backoff_bounds : (base jitter attempts : ℕ) → leb (backoff base jitter attempts) max_backoff ≡ true
backoff_bounds base jitter attempts =
    elim (Bool-cases (leb (base * 2 ^ attempts + jitter) max_backoff)) [
      | inl e ↦ rw e e
      | inr n ↦ rw n refl
    ]

or_false : (b : Bool) → (b || false) ≡ b
or_false true = refl
or_false false = refl

exhausted : (a b : Bool) → (a && b) ≡ false → (not a || not b) ≡ true
exhausted a b h = ground arith

-- No other row has the id of the row.
others_free :
    (base jitter : ℕ) (retryable : Bool) (j : Job) (ks : Table)
    → All (Apart j) ks
    → any (is_blocked base jitter j.id retryable) ks ≡ false
others_free base jitter retryable j [] a = refl
others_free base jitter retryable j (k ∷ ks) (a, later) =
    rw (a.ids, others_free base jitter retryable j ks later) refl

-- The failure of a running job is an error of the database exactly if its own delay is out of range.
pub blocked_running :
    (base jitter : ℕ) (retryable : Bool) (jobs : Table) (j : Job)
    → AllApart jobs
    → Row j jobs
    → is_running j.status ≡ true
    → any (is_blocked base jitter j.id retryable) jobs ≡ overflows base jitter retryable j
blocked_running base jitter retryable (k ∷ ks) j (a, later) (inl e) r =
    subst
      (λ x.
        is_running x.status ≡ true
        → any (is_blocked base jitter x.id retryable) (k ∷ ks) ≡ overflows base jitter retryable x)
      e (λ runs. rw (==_refl k.id, runs, others_free base jitter retryable k ks a) (or_false _)) r
blocked_running base jitter retryable (k ∷ ks) j (a, later) (inr row) r =
    let apart = (All-Row _ ks j a row).ids in
    let other : (k.id == j.id) ≡ false = ground arith in
    rw other (blocked_running base jitter retryable ks j later row r)
blocked_running base jitter retryable [] j a row r = absurd row

-- A running job whose error may be retried, and which has attempts left, waits for the next attempt, at most an hour away, unless its delay is out of the range of double precision: then the call is an error of the database that leaves the table as it is. Without a retry it is over. The table is one that its indexes allow.
pub fail_running :
    (refusal : Text) (base jitter : ℕ) (error : Text) (retryable : Bool) (now : DateTime)
    (jobs : Table) (j : Job)
    → AllApart jobs
    → Row j jobs
    → j.status ≡ running
    → (((retryable && int_ltb (pos j.attempts) j.max_attempts) ≡ true)
        × (out_of_range base jitter j.attempts ≡ true)
        × (fail refusal base jitter j.id error retryable now jobs ≡ (jobs, err (database refusal))))
      ⊎ ((k : Job) × ((fail refusal base jitter j.id error retryable now jobs).1 ≡ ok k)
          × (k.attempts ≡ j.attempts)
          × (k.last_error ≡ some error)
          × (((k.status ≡ pending)
                × (retryable ≡ true)
                × (int_ltb (pos j.attempts) j.max_attempts ≡ true)
                × (out_of_range base jitter j.attempts ≡ false)
                × (at : DateTime) × (k.next_attempt_at ≡ some at)
                × (now ≤ at)
                × (at ≤ now + max_backoff))
              ⊎ ((k.status ≡ failed)
                  × ((retryable && int_ltb (pos j.attempts) j.max_attempts) ≡ false)
                  × (k.finished_at ≡ some now))))
unfolding fail
fail_running refusal base jitter error retryable now jobs j a row e =
    let set = fail_row error retryable base jitter now in
    let left = retryable && int_ltb (pos j.attempts) j.max_attempts in
    let shown = ap (found j.id) (returning_running set jobs j a row (rw e refl)) in
    let blocked = blocked_running base jitter retryable jobs j a row (rw e refl) in
    elim (Bool-cases left) [
      | inl t ↦ elim (Bool-cases (out_of_range base jitter j.attempts)) [
        | inl o ↦
            let stuck : any (is_blocked base jitter j.id retryable) jobs ≡ true =
              rw (e, t, o) at blocked in
            inl (t, o, rw (fail, stuck) refl)
        | inr o ↦
            let free : any (is_blocked base jitter j.id retryable) jobs ≡ false =
              rw (e, t, o) at blocked in
            let (may, more) = (&&_iff retryable (int_ltb (pos j.attempts) j.max_attempts)).0 t in
            let bound = leb→le _ _ (backoff_bounds base jitter j.attempts) in
            inr (
              set j,
              rw (fail, free) shown,
              refl,
              refl,
              inl (
                  rw (e, t)
                    (
                      refl,
                      may,
                      more,
                      o,
                      now + backoff base jitter j.attempts,
                      refl,
                      omega arith,
                      omega arith,
                    )),
            )
      ]
      | inr n ↦
          let free : any (is_blocked base jitter j.id retryable) jobs ≡ false =
            rw (e, n) at blocked in
          inr (
            set j,
            rw (fail, free) shown,
            refl,
            refl,
            inr (
                rw (e, n, int_leb-not j.max_attempts (pos j.attempts), exhausted _ _ n)
                  (refl, refl, refl)),
          )
    ]

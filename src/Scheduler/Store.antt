-- ===== src/Scheduler/Store.antt =====
-- The queries on the jobs table: crates/activable-scheduler/src/store.rs. Each operation takes the
-- table before it and gives the table after it; `now` is the time of its transaction.
use activable_cloud.Prelude.{
  ℕ, suc, ◌+◌, ◌*◌, ◌^◌, Bool, true, false, not, ◌&&◌, ◌||◌, List, [], ◌∷◌, ◌++◌, map, Option, none,
  some, Text, text_eq, any, keep, ltb, leb, ◌==◌, if◌then◌else◌,
}
use activable_cloud.Prelude.Integers.{ℤ, pos, int_ltb, int_leb}
use activable_cloud.Prelude.Errors.{Result, ok, err}
use activable_cloud.Json.{Value}
use activable_cloud.Scheduler.Model.{
  pending, running, completed, failed, Uuid, DateTime, Job, SchedulerError, database, not_found,
  is_pending, is_running, is_active,
}

abbrev pub Table : Type 0
Table = List Job

-- `UPDATE jobs SET … WHERE …`.
abbrev pub update : (Job → Bool) → (Job → Job) → Table → Table
update chosen set = map (λ j. if chosen j then set j else j)

-- The first row of `RETURNING`, which shows the rows as they are after the update.
abbrev pub returning : (Job → Bool) → (Job → Job) → Table → Option Job
returning chosen set [] = none
returning chosen set (j ∷ js) = if chosen j then some (set j) else returning chosen set js

abbrev pub has_id : Uuid → Job → Bool
has_id id j = j.id == id

abbrev pub same_key : Option Text → Option Text → Bool
same_key (some k) (some l) = text_eq k l
same_key _ _ = false

-- The row that the dedup index holds against a new row of this type and key.
abbrev pub conflicts : Text → Option Text → Job → Bool
conflicts job_type dedup_key j =
    is_active j.status && (text_eq j.job_type job_type && same_key j.dedup_key dedup_key)

-- The row that is inserted.
abbrev pub new_job : Uuid → DateTime → Text → Value → Option Text → ℤ → ℤ → Job
new_job id now job_type payload dedup_key priority max_attempts = record {
  id = id;
  job_type = job_type;
  payload = payload;
  dedup_key = dedup_key;
  status = pending;
  attempts = 0;
  max_attempts = max_attempts;
  priority = priority;
  created_at = now;
  claimed_by = none;
  claimed_at = none;
  started_at = none;
  finished_at = none;
  heartbeat_at = none;
  next_attempt_at = none;
  last_error = none;
  result = none;
  run_at = none;
}

-- `fresh` is the id that the database draws, and `refusal` the text of its error for a key that occurs.
unfoldable pub enqueue :
    Text
    → Uuid
    → DateTime
    → Text
    → Value
    → Option Text
    → ℤ
    → ℤ
    → Table
    → Table × Result SchedulerError (Option Uuid)
enqueue refusal fresh now job_type payload dedup_key priority max_attempts jobs =
    let job = new_job fresh now job_type payload dedup_key priority max_attempts in
    if any (conflicts job_type dedup_key) jobs
    then (jobs, ok none)
    else if any (has_id fresh) jobs
    then (jobs, err (database refusal))
    else (jobs ++ job ∷ [], ok (some fresh))

abbrev pub due : DateTime → Option DateTime → Bool
due now none = true
due now (some at) = leb at now

-- The rows that the inner query of `claim` may pick; `locked` are those that `SKIP LOCKED` skips.
abbrev pub claimable : (Uuid → Bool) → List Text → DateTime → Job → Bool
claimable locked job_types now j =
    not (locked j.id)
    && (is_pending j.status && (any (text_eq j.job_type) job_types && due now j.next_attempt_at))

-- `ORDER BY priority ASC, created_at ASC`: the first row is before the second.
abbrev pub before : Job → Job → Bool
before j k =
    int_ltb j.priority k.priority
    || (not (int_ltb k.priority j.priority) && ltb j.created_at k.created_at)

-- The first row in the order; rows that are equal in it stay as the table has them.
abbrev pub first_of : Table → Option Job
first_of [] = none
first_of (j ∷ js) = elim (first_of js) [
  | none ↦ some j
  | some k ↦ if before k j then some k else some j
]

abbrev pub claim_row : Text → DateTime → Job → Job
claim_row worker_id now j = record j {
  status = running;
  claimed_by = some worker_id;
  claimed_at = some now;
  started_at = some now;
  attempts = suc j.attempts;
  heartbeat_at = some now;
}

unfoldable pub fits_int4 : ℕ → Bool
fits_int4 n = ltb n 2147483648

-- The outer update of `claim`, on the row that the inner query gives. The counter of attempts is an
-- `int`, whose overflow is an error of the database, with the text `refusal`.
unfoldable pub take :
    Text → Text → DateTime → Table → Option Job → Table × Result SchedulerError (Option Job)
take refusal worker_id now jobs none = (jobs, ok none)
take refusal worker_id now jobs (some j) =
    let set = claim_row worker_id now in
    if fits_int4 (suc j.attempts)
    then (update (has_id j.id) set jobs, ok (returning (has_id j.id) set jobs))
    else (jobs, err (database refusal))

unfoldable pub claim :
    Text
    → (Uuid → Bool)
    → List Text
    → Text
    → DateTime
    → Table
    → Table × Result SchedulerError (Option Job)
claim refusal locked job_types worker_id now jobs =
    take refusal worker_id now jobs (first_of (keep (claimable locked job_types now) jobs))

abbrev pub complete_row : Value → DateTime → Job → Job
complete_row result now j = record j {
  status = completed;
  result = some result;
  finished_at = some now;
}

-- `rows.first()`, where no row is `NotFound`.
abbrev pub found : Uuid → Option Job → Result SchedulerError Job
found id none = err (not_found id)
found id (some j) = ok j

unfoldable pub complete : Uuid → Value → DateTime → Table → Table × Result SchedulerError Job
complete id result now jobs = (
  update (has_id id) (complete_row result now) jobs,
  found id (returning (has_id id) (complete_row result now) jobs),
)

-- `LEAST(base * 2^attempts + random() * base, 3600)` seconds, in microseconds.
abbrev pub max_backoff : ℕ
max_backoff = 3600000000

abbrev pub backoff : ℕ → ℕ → ℕ → ℕ
backoff base jitter attempts =
    let delay = base * 2 ^ attempts + jitter in if leb delay max_backoff then delay else max_backoff

-- The error of double precision: `power(2, attempts)`, or the delay in seconds, is no finite number.
-- The delay is exact but for the rounding of the jitter, which could make a delay below the limit by
-- less than half a unit of the last place an error as well.
unfoldable pub out_of_range : ℕ → ℕ → ℕ → Bool
out_of_range base jitter attempts =
    if leb 1024 attempts then true else leb (1000000 * 2 ^ 1024) (base * 2 ^ attempts + jitter)

abbrev pub retries : Bool → Job → Bool
retries retryable j = is_running j.status && (retryable && int_ltb (pos j.attempts) j.max_attempts)

-- The assignments of `fail`, each with its `CASE`.
abbrev pub fail_row : Text → Bool → ℕ → ℕ → DateTime → Job → Job
fail_row error retryable base jitter now j = record j {
  status =
      if retries retryable j then pending else if is_running j.status then failed else j.status;
  next_attempt_at =
      if retries retryable j
      then some (now + backoff base jitter j.attempts)
      else j.next_attempt_at;
  last_error = some error;
  finished_at =
      if is_running j.status && (not retryable || int_leb j.max_attempts (pos j.attempts))
      then some now
      else j.finished_at;
}

abbrev pub has_running_id : Uuid → Job → Bool
has_running_id id j = j.id == id && is_running j.status

-- The delay of the row is computed, and is out of range.
abbrev pub overflows : ℕ → ℕ → Bool → Job → Bool
overflows base jitter retryable j = retries retryable j && out_of_range base jitter j.attempts

abbrev pub is_blocked : ℕ → ℕ → Uuid → Bool → Job → Bool
is_blocked base jitter id retryable j = has_running_id id j && overflows base jitter retryable j

-- `base` is the configured backoff and `jitter` what `random()` adds, in microseconds; `refusal` is the
-- text of the error of the database, which leaves the table as it is.
unfoldable pub fail :
    Text → ℕ → ℕ → Uuid → Text → Bool → DateTime → Table → Table × Result SchedulerError Job
fail refusal base jitter id error retryable now jobs =
    let set = fail_row error retryable base jitter now in
    if any (is_blocked base jitter id retryable) jobs
    then (jobs, err (database refusal))
    else (update (has_running_id id) set jobs, found id (returning (has_running_id id) set jobs))

abbrev pub heartbeat_row : DateTime → Job → Job
heartbeat_row now j = record j { heartbeat_at = some now }

unfoldable pub update_heartbeat : Uuid → DateTime → Table → Table
update_heartbeat id now = update (has_running_id id) (heartbeat_row now)

-- `heartbeat_at < now() - threshold`, with the threshold in microseconds, which is not true of a row without a heartbeat.
abbrev pub is_stale : List Text → ℕ → DateTime → Job → Bool
is_stale job_types threshold now j =
    is_running j.status
    && (any (text_eq j.job_type) job_types
        && elim j.heartbeat_at [ none ↦ false | some at ↦ ltb (at + threshold) now ])

unfoldable pub find_stale_running : List Text → ℕ → DateTime → Table → List Uuid
find_stale_running job_types threshold now jobs =
    map (λ j. j.id) (keep (is_stale job_types threshold now) jobs)

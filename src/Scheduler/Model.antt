-- ===== src/Scheduler/Model.antt =====
-- The jobs and their states: crates/activable-scheduler/src/model.rs.
use activable_cloud.Prelude.{
  ℕ, ◌≡◌, refl, Bool, true, false, ◌||◌, Option, none, some, Text, codes, text_eq, if◌then◌else◌,
}
use activable_cloud.Prelude.Integers.{ℤ}
use activable_cloud.Json.{Value}

pub data JobStatus : Type 0 where
  pending : JobStatus
  running : JobStatus
  completed : JobStatus
  failed : JobStatus

unfoldable pub as_str : JobStatus → Text
as_str pending = codes "pending"
as_str running = codes "running"
as_str completed = codes "completed"
as_str failed = codes "failed"

unfoldable pub from_sql_str : Text → Option JobStatus
from_sql_str s =
    if text_eq s (codes "pending")
    then some pending
    else if text_eq s (codes "running")
    then some running
    else if text_eq s (codes "completed")
    then some completed
    else if text_eq s (codes "failed")
    then some failed
    else none

-- Ids are numbers, and times are numbers of microseconds.
abbrev pub Uuid : Type 0
Uuid = ℕ

abbrev pub DateTime : Type 0
DateTime = ℕ

-- `attempts` is never negative: it starts at 0 and is only increased.
pub record Job : Type 0 where
  pub id : Uuid
  pub job_type : Text
  pub payload : Value
  pub dedup_key : Option Text
  pub status : JobStatus
  pub attempts : ℕ
  pub max_attempts : ℤ
  pub priority : ℤ
  pub created_at : DateTime
  pub claimed_by : Option Text
  pub claimed_at : Option DateTime
  pub started_at : Option DateTime
  pub finished_at : Option DateTime
  pub heartbeat_at : Option DateTime
  pub next_attempt_at : Option DateTime
  pub last_error : Option Text
  pub result : Option Value
  pub run_at : Option DateTime

pub data SchedulerError : Type 0 where
  pool : Text → SchedulerError
  database : Text → SchedulerError
  row_parse : Text → SchedulerError
  not_found : Uuid → SchedulerError
  schema_init : Text → SchedulerError

-- `status = 'pending'` and `status = 'running'` of the queries.
abbrev pub is_pending : JobStatus → Bool
is_pending pending = true
is_pending _ = false

abbrev pub is_running : JobStatus → Bool
is_running running = true
is_running _ = false

-- `status IN ('pending', 'running')` of the dedup index.
abbrev pub is_active : JobStatus → Bool
is_active s = is_pending s || is_running s

-- What is written to the table as a status is read back as it was.
pub from_sql_str-as_str : (s : JobStatus) → from_sql_str (as_str s) ≡ some s
unfolding from_sql_str as_str
from_sql_str-as_str pending = refl
from_sql_str-as_str running = refl
from_sql_str-as_str completed = refl
from_sql_str-as_str failed = refl

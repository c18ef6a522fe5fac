-- ===== src/Scheduler/Facade.antt =====
-- Starting and shutting down: crates/activable-scheduler/src/scheduler.rs, with the pool of
-- src/worker.rs and the signal of src/reaper.rs. What the creation of the tables answers is a
-- parameter; durations are numbers, and a task is counted from its spawning until it is awaited. Every
-- scheduler is built with a pool and a reaper, so they stand without their `Option`.
use activable_cloud.Prelude.{
  ℕ, ◌+◌, ◌<◌, ◌≡◌, refl, Bool, true, false, List, arith, Text, codes, if◌then◌else◌, Bool-cases,
  inl, inr,
}
use activable_cloud.Prelude.Errors.{Result, ok, err}
use activable_cloud.Scheduler.Model.{SchedulerError, database}
use activable_cloud.Scheduler.Worker.{JobHandler}
use activable_cloud.Scheduler.Registry.{
  HandlerRegistry, new_registry, register, registered_types, handlers, has_no_handler,
}

pub record WorkerPool : Type 0 where
  pub pool_handlers : List JobHandler
  pub concurrency : ℕ
  pub shutdown : Bool
  pub worker_handles : ℕ
  pub heartbeat_interval : ℕ
  pub poll_ms : ℕ

pub record Reaper : Type 0 where
  pub job_types : List Text
  pub reap_threshold_seconds : ℕ
  pub check_interval : ℕ
  pub stopped : Bool

pub record Scheduler : Type 0 where
  pub registry : HandlerRegistry
  pub pool : WorkerPool
  pub reaper : Reaper
  pub has_reaper_handle : Bool

pub record SchedulerBuilder : Type 0 where
  pub registry : HandlerRegistry
  pub concurrency : ℕ
  pub poll_ms : ℕ
  pub heartbeat_interval : ℕ
  pub reap_threshold_seconds : ℕ
  pub reap_check_interval : ℕ

-- The defaults; durations in seconds.
abbrev pub new_builder : SchedulerBuilder
new_builder = record {
  registry = new_registry;
  concurrency = 2;
  poll_ms = 500;
  heartbeat_interval = 5;
  reap_threshold_seconds = 60;
  reap_check_interval = 10;
}

abbrev pub with_handler : JobHandler → SchedulerBuilder → SchedulerBuilder
with_handler handler b = record b { registry = register handler b.registry }

-- The other setters of the builder.
abbrev with_concurrency : ℕ → SchedulerBuilder → SchedulerBuilder
with_concurrency value b = record b { concurrency = value }

abbrev with_poll_ms : ℕ → SchedulerBuilder → SchedulerBuilder
with_poll_ms value b = record b { poll_ms = value }

abbrev with_heartbeat_interval : ℕ → SchedulerBuilder → SchedulerBuilder
with_heartbeat_interval value b = record b { heartbeat_interval = value }

abbrev with_reap_threshold_seconds : ℕ → SchedulerBuilder → SchedulerBuilder
with_reap_threshold_seconds value b = record b { reap_threshold_seconds = value }

abbrev with_reap_check_interval : ℕ → SchedulerBuilder → SchedulerBuilder
with_reap_check_interval value b = record b { reap_check_interval = value }

-- `WorkerPool::new`, with the polling and heartbeat intervals that are set behind it.
abbrev pub new_pool : List JobHandler → ℕ → ℕ → ℕ → WorkerPool
new_pool pool_handlers concurrency poll_ms heartbeat_interval = record {
  pool_handlers = pool_handlers;
  concurrency = concurrency;
  shutdown = false;
  worker_handles = 0;
  heartbeat_interval = heartbeat_interval;
  poll_ms = poll_ms;
}

unfoldable pub build : SchedulerBuilder → Result SchedulerError Scheduler
build b =
    if has_no_handler b.registry
    then err (database (codes "no handlers registered with scheduler"))
    else ok (record {
      registry = b.registry;
      pool = new_pool (handlers b.registry) b.concurrency b.poll_ms b.heartbeat_interval;
      reaper = record {
        job_types = registered_types b.registry;
        reap_threshold_seconds = b.reap_threshold_seconds;
        check_interval = b.reap_check_interval;
        stopped = false;
      };
      has_reaper_handle = false;
    })

-- `WorkerPool::start`: a task for each worker, each with the flag of the pool.
abbrev pub start_pool : WorkerPool → WorkerPool
start_pool p = record p { worker_handles = p.worker_handles + p.concurrency }

-- `WorkerPool::shutdown`: the flag is set, and the tasks are awaited.
abbrev pub shutdown_pool : WorkerPool → WorkerPool
shutdown_pool p = record p { shutdown = true; worker_handles = 0 }

abbrev pub shutdown_signal : Reaper → Reaper
shutdown_signal r = record r { stopped = true }

-- Where the tables were created, the pool is started and the reaper is spawned.
abbrev pub start_with :
    Result SchedulerError (Unit {0}) → Scheduler → Result SchedulerError (Unit {0}) × Scheduler
start_with (err e) s = (err e, s)
start_with (ok u) s = (ok tt, record s { pool = start_pool s.pool; has_reaper_handle = true })

unfoldable pub start :
    Result SchedulerError (Unit {0}) → Scheduler → Result SchedulerError (Unit {0}) × Scheduler
start ensure_schema s =
    if s.has_reaper_handle
    then (err (database (codes "scheduler already started")), s)
    else start_with ensure_schema s

unfoldable pub shutdown : Scheduler → Result SchedulerError (Unit {0}) × Scheduler
shutdown s = (
  ok tt,
  record s {
    pool = shutdown_pool s.pool;
    reaper = shutdown_signal s.reaper;
    has_reaper_handle = false;
  },
)

-- Workers that claim jobs run, and a reaper: both leave their loops where their flag is set.
pub record IsServing (s : Scheduler) : Type 0 where
  pub has_workers : 0 < s.pool.worker_handles
  pub workers_go_on : s.pool.shutdown ≡ false
  pub reaper_runs : s.has_reaper_handle ≡ true
  pub reaper_goes_on : s.reaper.stopped ≡ false

-- A scheduler that is built with at least one worker serves once it is started and its tables are there.
pub start-IsServing :
    (b : SchedulerBuilder) (s : Scheduler)
    → build b ≡ ok s
    → 0 < b.concurrency
    → ((start (ok tt) s).0 ≡ ok tt) × IsServing (start (ok tt) s).1
unfolding build start
start-IsServing b s h workers = ground arith

-- Starting a scheduler that was started is refused and changes nothing.
pub start_twice :
    (first second : Result SchedulerError (Unit {0})) (s : Scheduler)
    → (start first s).0 ≡ ok tt
    → start second (start first s).1
      ≡ (err (database (codes "scheduler already started")), (start first s).1)
unfolding start
start_twice (err e) second s h = elim (Bool-cases s.has_reaper_handle) [
  | inl y ↦ cc (rw y at h)
  | inr n ↦ cc (rw n at h)
]
start_twice (ok u) second s h = elim (Bool-cases s.has_reaper_handle) [
  | inl y ↦ cc (rw y at h)
  | inr n ↦ rw n refl
]

-- A scheduler that is started again after a shutdown answers that it was started, and does not serve.
pub start-shutdown :
    (s : Scheduler)
    → ((start (ok tt) (shutdown s).1).0 ≡ ok tt) × ¬ IsServing (start (ok tt) (shutdown s).1).1
unfolding start shutdown
start-shutdown s = (refl, λ serving. cc (serving.workers_go_on))

-- The flags that the loops of the workers and of the reaper look at before each round are both set.
pub record IsStopped (s : Scheduler) : Type 0 where
  pub workers_leave : s.pool.shutdown ≡ true
  pub reaper_leaves : s.reaper.stopped ≡ true

-- A scheduler that is built with at least one worker answers its first start, where its tables are there, and serves. A shutdown leaves no task of it. Started again it answers that it was started, with as many workers and a reaper, while the flags tell all of them to leave.
pub start_again :
    (b : SchedulerBuilder) (s : Scheduler)
    → build b ≡ ok s
    → 0 < b.concurrency
    → let first = start (ok tt) s in
      let ended = shutdown first.1 in
      let second = start (ok tt) ended.1 in
      ((first.0 ≡ ok tt) × IsServing first.1)
      × ((ended.0 ≡ ok tt)
          × (ended.1.pool.worker_handles ≡ 0)
          × (ended.1.has_reaper_handle ≡ false))
      × ((second.0 ≡ ok tt)
          × (second.1.pool.worker_handles ≡ b.concurrency)
          × (second.1.has_reaper_handle ≡ true)
          × IsStopped second.1)
unfolding build start shutdown
start_again b s h workers = (
  start-IsServing b s h workers,
  (refl, refl, refl),
  (refl, ground arith, refl, record { workers_leave = refl; reaper_leaves = refl }),
)

-- ===== src/Worker.antt =====
-- queue/worker.go: what a worker pool is configured with, the state that it keeps, and the calls of
-- its storage. The storage is an interface; jobs, middlewares and event handlers are user code.
pub mod Setup
pub mod Fetch
pub mod Run
pub mod Leading
pub mod Crons
pub mod Intervals
pub mod OnSqlite
pub mod Loop
use orkai_runiq.Common.{
  ℕ, ◌==◌, ℤ, Text, text_eq, Bool, true, false, Option, none, some, List, [], ◌∷◌, ◌++◌,
  if◌then◌else◌, suc,
}
use orkai_runiq.Queue.{JobEnvelope}
use orkai_runiq.Sql.{World, Exec, pure, ◌>>=◌, ok}
use orkai_runiq.Sqlite.Tables.{CronJob, ProcessRow}
use orkai_runiq.Autoscaler.{Pool}
use orkai_runiq.Crypto.{Library}

-- What a worker pool calls. Ping and GetStats are not among the calls of queue/worker.go.
pub record WorkerPoolStorage (S : Type 0) : Type 0 where
  pub enqueue : JobEnvelope → Exec S Unit
  pub dequeue : Text → List Text → Exec S (Option JobEnvelope)
  pub ack : Text → Exec S Unit
  pub fail : Text → Text → Exec S Unit
  pub poll_scheduled : Text → Exec S Unit
  pub postpone_job : Text → Text → ℤ → Exec S Unit
  pub register_process : ProcessRow → Exec S Unit
  pub lock_cron_execution : Text → ℕ → Exec S Bool
  pub get_running_jobs_count : Text → Exec S ℕ
  pub check_rate_limit : Text → ℤ → ℤ → Exec S Bool
  pub is_queue_paused : Text → Exec S Bool
  pub register_cron_jobs : List CronJob → Exec S Unit
  pub purge_expired_dlq : ℤ → Exec S Unit
  pub fail_expired_batches : Exec S Unit
  pub get_cron_schedules : Exec S (List CronJob)
  pub acquire_leader : Text → ℤ → Exec S Bool
  pub release_leader : Text → Exec S Unit
  pub archive_jobs : ℤ → Exec S ℕ

-- How user code ends: it returns nil, returns an error with this text, or panics with this text.
pub data Performed : Type 0 where
  returned : Performed
  returned_error : Text → Performed
  panicked : Text → Performed

-- A job may use the storage. It does not change the envelope that it is given.
abbrev pub JobHandler : Type 0 → Type 0
JobHandler S = JobEnvelope → World S → Performed × World S

abbrev pub Job : Type 0 → Type 0
Job S = List ℕ → World S → Performed × World S

pub record HandlerConfig : Type 0 where
  pub max_concurrency : ℤ
  pub rate_limit : ℤ
  pub rate_period : ℤ

pub data EventType : Type 0 where
  job_enqueued job_completed job_failed job_dead : EventType

pub record Event : Type 0 where
  pub kind : EventType
  pub job : JobEnvelope
  pub error : Option Text

pub record IntervalJob : Type 0 where
  pub payload : List ℕ
  pub interval : ℤ
  pub name : Text
  pub queue : Text

-- A time zone: its name, and its offset from UTC in seconds at an instant.
pub record Location : Type 0 where
  pub name : Text
  pub offset : ℕ → ℤ

-- A CronJob with its field Location, which is not stored.
pub record LocatedCron : Type 0 where
  pub cron : CronJob
  pub location : Option Location

-- The fields of a pool that are set before it starts, and the libraries that it calls. An event
-- handler is known by a number. A Go map is a list with one entry for each key.
pub record WorkerPool (S : Type 0) : Type 0 where
  pub storage : WorkerPoolStorage S
  pub first_queues : List Text
  pub cron_jobs : List LocatedCron
  pub middlewares : List (JobHandler S → JobHandler S)
  pub process_id : Text
  pub registry : List (Text × Job S)
  pub configs : List (Text × HandlerConfig)
  pub weights : List (Text × ℤ)
  pub event_handlers : List (EventType × ℕ)
  pub concurrency : ℤ
  pub dlq_ttl : ℤ
  pub leader_ttl : ℤ
  pub archival_age : ℤ
  pub archival_interval : ℤ
  pub encryption_key : Text
  pub interval_jobs : List IntervalJob
  pub tags : List Text
  pub library : Library
  -- the text of an error of DecryptPayload
  pub crypto_error : Text
  -- time.LoadLocation, which reads the time zone database
  pub load_location : Text → Option Location

-- What changes while the pool runs. `sizes` is the part of the autoscaler, if there is one, `handled`
-- the calls of event handlers so far.
pub record PoolState (S : Type 0) : Type 0 where
  pub stored : S
  pub fetch_counter : ℕ
  pub is_leader : Bool
  pub last_interval_ticks : List (Text × ℕ)
  pub last_minute : Option ℕ
  pub sizes : Option Pool
  pub handled : List (ℕ × Event)

-- m[key]
unfoldable pub find_key : {V : Type 0} → Text → List (Text × V) → Option V
find_key key [] = none
find_key key ((k, v) ∷ m) = if text_eq k key then some v else find_key key m

-- m[key] = value
unfoldable pub put_key : {V : Type 0} → Text → V → List (Text × V) → List (Text × V)
put_key key value [] = (key, value) ∷ []
put_key key value ((k, v) ∷ m) =
    if text_eq k key then (key, value) ∷ m else (k, v) ∷ put_key key value m

abbrev pub same_event : EventType → EventType → Bool
same_event job_enqueued job_enqueued = true
same_event job_completed job_completed = true
same_event job_failed job_failed = true
same_event job_dead job_dead = true
same_event _ _ = false

-- The calls of the handlers of an event, in the order in which they were registered.
unfoldable pub calls_for : List (EventType × ℕ) → Event → List (ℕ × Event)
calls_for [] event = []
calls_for ((kind, h) ∷ hs) event =
    if same_event kind event.kind then (h, event) ∷ calls_for hs event else calls_for hs event

module _ {S : Type 0} where
  -- The world as the storage sees it, and back.
  abbrev pub inside : World (PoolState S) → World S
  inside w = record { outside = w.outside; step = w.step; db = w.db.stored }

  abbrev pub around : World (PoolState S) → World S → World (PoolState S)
  around w v = record { outside = v.outside; step = v.step; db = record w.db { stored = v.db } }

  -- A call of the storage.
  unfoldable pub call : {A : Type 0} → Exec S A → Exec (PoolState S) A
  call m w = let (r, v) = m (inside w) in (r, around w v)

  -- A change of the pool's own state.
  abbrev pub modify : (PoolState S → PoolState S) → Exec (PoolState S) Unit
  modify f w = (ok tt, record w { db = f w.db })

  abbrev pub inspect : {A : Type 0} → (PoolState S → A) → Exec (PoolState S) A
  inspect f w = (ok (f w.db), w)

module _ {S : Type 0} (pool : WorkerPool S) where
  unfoldable pub trigger_event : EventType → JobEnvelope → Option Text → Exec (PoolState S) Unit
  unfolding calls_for
  trigger_event kind env error = modify λ s. record s {
    handled =
        s.handled
        ++ calls_for pool.event_handlers (record { kind = kind; job = env; error = error });
  }

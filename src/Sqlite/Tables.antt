-- ===== src/Sqlite/Tables.antt =====
-- The tables of queue/sqlite.go (`sqliteTables`) as lists of rows, oldest row first.
use orkai_runiq.Common.{ℕ, ◌*◌, ◌/◌, ℤ, Text, text_eq, Bool, true, false, Option, none, List, []}
use orkai_runiq.Helpers.{second}

pub data Status : Type 0 where
  pending running processed dead blocked failed : Status

-- Instants are nanoseconds since the epoch; `none` is NULL.
pub record JobRow : Type 0 where
  pub job_id : Text
  pub queue : Text
  pub name : Text
  pub args : List ℕ
  pub trace_id : Text
  pub span_id : Text
  pub status : Status
  pub attempts : ℕ
  pub max_attempts : ℤ
  pub error_message : Text
  pub created_at : ℕ
  pub updated_at : ℕ
  pub locked_at : Option ℕ
  pub run_at : Option ℕ
  pub unique_key : Text
  pub batch_id : Text
  pub priority : ℤ
  pub tags : Text

pub record LockRow : Type 0 where
  pub lock_key : Text
  pub job_id : Text
  pub expires_at : ℕ

pub data BatchStatus : Type 0 where
  opened sealed completed failed : BatchStatus

pub record BatchRow : Type 0 where
  pub batch_id : Text
  pub callback_queue : Text
  pub callback_name : Text
  pub callback_args : List ℕ
  pub total_jobs : ℤ
  pub pending_jobs : ℤ
  pub status : BatchStatus
  pub expires_at : Option ℕ

pub record DependencyRow : Type 0 where
  pub job_id : Text
  pub parent_job_id : Text

pub record RateRow : Type 0 where
  pub job_name : Text
  pub request_timestamp : ℕ

pub record CronLockRow : Type 0 where
  pub cron_name : Text
  pub execution_minute : ℕ
  pub acquired_at : ℕ

-- The row with lease_key 'leader'.
pub record LeaseRow : Type 0 where
  pub holder_id : Text
  pub expires_at : ℕ

-- The queues of a process are stored as JSON, which is read back as it was.
pub record ProcessRow : Type 0 where
  pub process_id : Text
  pub concurrency : ℤ
  pub queues : List Text
  pub heartbeat_at : ℕ
  pub min_concurrency : ℤ
  pub max_concurrency : ℤ

-- The columns of runiq_cron_schedules and runiq_cron_jobs that the code reads or writes are those of
-- a CronJob; runiq_cron_jobs does not use `paused`.
pub record CronJob : Type 0 where
  pub payload : List ℕ
  pub spec : Text
  pub name : Text
  pub queue : Text
  pub timezone : Text
  pub paused : Bool

pub record CronRow : Type 0 where
  pub cron : CronJob
  pub updated_at : ℕ

pub record Db : Type 0 where
  pub jobs : List JobRow
  pub archived_jobs : List JobRow
  pub unique_locks : List LockRow
  pub batches : List BatchRow
  pub dependencies : List DependencyRow
  pub paused_queues : List Text
  pub rate_limits : List RateRow
  pub cron_locks : List CronLockRow
  pub leader : Option LeaseRow
  pub processes : List ProcessRow
  pub cron_schedules : List CronRow
  pub cron_jobs : List CronRow

abbrev pub empty : Db
empty = record {
  jobs = [];
  archived_jobs = [];
  unique_locks = [];
  batches = [];
  dependencies = [];
  paused_queues = [];
  rate_limits = [];
  cron_locks = [];
  leader = none;
  processes = [];
  cron_schedules = [];
  cron_jobs = [];
}

-- CURRENT_TIMESTAMP has a resolution of one second.
abbrev pub current_timestamp : ℕ → ℕ
current_timestamp now = now / second * second

-- strftime('%s', t) as a number.
abbrev pub epoch_seconds : ℕ → ℕ
epoch_seconds t = t / second

-- WHERE job_id = ?
abbrev pub has_job_id : Text → JobRow → Bool
has_job_id id r = text_eq r.job_id id

abbrev pub has_lock_key : Text → LockRow → Bool
has_lock_key key r = text_eq r.lock_key key

abbrev pub has_batch_id : Text → BatchRow → Bool
has_batch_id id r = text_eq r.batch_id id

abbrev pub is_pending : Status → Bool
is_pending pending = true
is_pending _ = false

abbrev pub is_running : Status → Bool
is_running running = true
is_running _ = false

abbrev pub is_dead : Status → Bool
is_dead dead = true
is_dead _ = false

-- status IN ('dead', 'failed')
abbrev pub is_dead_or_failed : Status → Bool
is_dead_or_failed dead = true
is_dead_or_failed failed = true
is_dead_or_failed _ = false

-- status IN ('processed', 'dead')
abbrev pub is_archivable : Status → Bool
is_archivable processed = true
is_archivable dead = true
is_archivable _ = false

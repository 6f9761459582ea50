-- ===== src/Worker/OnSqlite.antt =====
-- A worker pool over the SQLite storage.
pub mod Outcomes
pub mod Elections
pub mod Recurring
use orkai_runiq.Common.{ℕ}
use orkai_runiq.Sql.{pure}
use orkai_runiq.Sqlite.Tables.{Db}
use orkai_runiq.Sqlite.Jobs
use orkai_runiq.Sqlite.Outcome
use orkai_runiq.Sqlite.Process
use orkai_runiq.Sqlite.Registry
use orkai_runiq.Sqlite.Schedules
use orkai_runiq.Sqlite.Admin
use orkai_runiq.Sqlite.Batch
use orkai_runiq.Worker.{WorkerPoolStorage}

-- PollScheduled of SQLite does nothing. The fuel is that of the cascade in Fail.
abbrev pub sqlite_pool_storage : ℕ → WorkerPoolStorage Db
sqlite_pool_storage fuel = record {
  enqueue = Jobs.enqueue;
  dequeue = Jobs.dequeue;
  ack = Outcome.ack;
  fail = Outcome.fail fuel;
  poll_scheduled = λ queue. pure tt;
  postpone_job = λ id queue. Process.postpone_job id;
  register_process = Registry.register_process;
  lock_cron_execution = Process.lock_cron_execution;
  get_running_jobs_count = Process.get_running_jobs_count;
  check_rate_limit = Process.check_rate_limit;
  is_queue_paused = Admin.is_queue_paused;
  register_cron_jobs = Schedules.register_cron_jobs;
  purge_expired_dlq = Admin.purge_expired_dlq;
  fail_expired_batches = Batch.fail_expired_batches;
  get_cron_schedules = Schedules.get_cron_schedules;
  acquire_leader = Process.acquire_leader;
  release_leader = Process.release_leader;
  archive_jobs = Admin.archive_jobs;
}

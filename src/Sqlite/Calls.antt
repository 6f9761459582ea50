-- ===== src/Sqlite/Calls.antt =====
-- The calls that processes make of the SQLite storage: queue/queue.go, the storage interfaces.
use orkai_runiq.Common.{ℕ, ℤ, Text, Bool, true, false, Option, List}
use orkai_runiq.Queue.{JobEnvelope}
use orkai_runiq.Sql.{Exec, void}
use orkai_runiq.Sqlite.Tables.{ProcessRow, CronJob, Db}
use orkai_runiq.Sqlite.Registry.{register_process, heartbeat_process, get_active_processes}
use orkai_runiq.Sqlite.Schedules.{save_cron_schedule, delete_cron_schedule, register_cron_jobs}
use orkai_runiq.Sqlite.Jobs.{enqueue, dequeue}
use orkai_runiq.Sqlite.Outcome.{ack, fail, cancel}
use orkai_runiq.Sqlite.Workflow.{enqueue_workflow}
use orkai_runiq.Sqlite.Batch.{create_batch, enqueue_in_batch, submit_batch, fail_expired_batches}
use orkai_runiq.Sqlite.Admin.{
  retry, retry_modified, retry_all_failed, purge_all_failed, purge_expired_dlq, clear_queue,
  pause_queue, resume_queue, bulk_retry, bulk_cancel, bulk_purge, archive_jobs,
}
use orkai_runiq.Sqlite.Process.{
  acquire_leader, release_leader, lock_cron_execution, check_rate_limit, postpone_job,
}

pub data Call : Type 0 where
  enqueues : JobEnvelope → Call
  dequeues : Text → List Text → Call
  acks : Text → Call
  fails : Text → Text → Call
  cancels : Text → Call
  enqueues_workflow : List JobEnvelope → Call
  creates_batch : Text → JobEnvelope → Option ℕ → Call
  enqueues_in_batch : Text → JobEnvelope → Call
  submits_batch : Text → Call
  fails_expired_batches : Call
  retries : Text → Call
  retries_modified : Text → List ℕ → Call
  retries_all_failed : Call
  purges_all_failed : Call
  purges_expired_dlq : ℤ → Call
  clears_queue : Text → Call
  pauses_queue : Text → Call
  resumes_queue : Text → Call
  bulk_retries : List Text → Call
  bulk_cancels : List Text → Call
  bulk_purges : List Text → Call
  archives_jobs : ℤ → Call
  acquires_leader : Text → ℤ → Call
  releases_leader : Text → Call
  locks_cron_execution : Text → ℕ → Call
  checks_rate_limit : Text → ℤ → ℤ → Call
  postpones_job : Text → ℤ → Call
  registers_process : ProcessRow → Call
  heartbeats_process : Text → Call
  gets_active_processes : Call
  saves_cron_schedule : CronJob → Call
  deletes_cron_schedule : Text → Call
  registers_cron_jobs : List CronJob → Call

-- The fuel is that of the cascade in Fail and Cancel.
unfoldable pub perform : ℕ → Call → Exec Db Unit
perform fuel (enqueues env) = enqueue env
perform fuel (dequeues queue tags) = void (dequeue queue tags)
perform fuel (acks id) = ack id
perform fuel (fails id message) = fail fuel id message
perform fuel (cancels id) = cancel fuel id
perform fuel (enqueues_workflow jobs) = enqueue_workflow jobs
perform fuel (creates_batch id callback expires_at) = create_batch id callback expires_at
perform fuel (enqueues_in_batch id env) = enqueue_in_batch id env
perform fuel (submits_batch id) = submit_batch id
perform fuel fails_expired_batches = fail_expired_batches
perform fuel (retries id) = retry id
perform fuel (retries_modified id args) = retry_modified id args
perform fuel retries_all_failed = retry_all_failed
perform fuel purges_all_failed = purge_all_failed
perform fuel (purges_expired_dlq ttl) = purge_expired_dlq ttl
perform fuel (clears_queue queue) = clear_queue queue
perform fuel (pauses_queue queue) = pause_queue queue
perform fuel (resumes_queue queue) = resume_queue queue
perform fuel (bulk_retries ids) = bulk_retry ids
perform fuel (bulk_cancels ids) = bulk_cancel ids
perform fuel (bulk_purges ids) = bulk_purge ids
perform fuel (archives_jobs age) = void (archive_jobs age)
perform fuel (acquires_leader client ttl) = void (acquire_leader client ttl)
perform fuel (releases_leader client) = release_leader client
perform fuel (locks_cron_execution name at) = void (lock_cron_execution name at)
perform fuel (checks_rate_limit name limit period) = void (check_rate_limit name limit period)
perform fuel (postpones_job id delay) = postpone_job id delay
perform fuel (registers_process r) = register_process r
perform fuel (heartbeats_process id) = heartbeat_process id
perform fuel gets_active_processes = void get_active_processes
perform fuel (saves_cron_schedule c) = save_cron_schedule c
perform fuel (deletes_cron_schedule name) = delete_cron_schedule name
perform fuel (registers_cron_jobs crons) = register_cron_jobs crons

-- The calls that write, outside a transaction, before a statement that may still fail.
abbrev pub writes_early : Call → Bool
writes_early (enqueues env) = true
writes_early (locks_cron_execution name at) = true
writes_early gets_active_processes = true
writes_early _ = false

-- ===== src/Sqlite/Transactions.antt =====
-- The failed calls of the SQLite storage: queue/sqlite*.go.
use orkai_runiq.Common.{ℕ, ℤ, ◌≡◌, false, Text, Option, List, [], ◌∷◌}
use orkai_runiq.Queue.{JobEnvelope}
use orkai_runiq.Sql.{
  Error, err, World, ReadsOnly, IsAtomic, Keeps-ReadsOnly, keeps_rules, atomic_rules, IsAtomic-void,
  exec, attempt, or_zero, query_row,
}
use orkai_runiq.Sqlite.Tables.{CronJob, Db}
use orkai_runiq.Sqlite.Registry.{register_process, heartbeat_process}
use orkai_runiq.Sqlite.Schedules.{save_cron_schedule, delete_cron_schedule, register_cron_jobs}
use orkai_runiq.Sqlite.Jobs.{dequeue}
use orkai_runiq.Sqlite.Burial.{no_keys, select_keys, find_job}
use orkai_runiq.Sqlite.Outcome.{ack, fail, cancel}
use orkai_runiq.Sqlite.Workflow.{enqueue_workflow}
use orkai_runiq.Sqlite.Batch.{create_batch, enqueue_in_batch, submit_batch, fail_expired_batches}
use orkai_runiq.Sqlite.Admin.{
  bulk_retry, bulk_cancel, bulk_purge, clear_queue, archive_jobs, retry, retry_modified,
  retry_all_failed, purge_all_failed, purge_expired_dlq, pause_queue, resume_queue,
}
use orkai_runiq.Sqlite.Calls.{
  Call, enqueues, locks_cron_execution, gets_active_processes, perform, writes_early,
}
use orkai_runiq.Sqlite.Process.{acquire_leader, check_rate_limit, release_leader, postpone_job}

select_keys-ReadsOnly : (id : Text) → ReadsOnly (or_zero no_keys (select_keys id))
unfolding select_keys
select_keys-ReadsOnly id = Keeps-ReadsOnly _ (λ s. search keeps_rules)

attempt-ReadsOnly : (id : Text) → ReadsOnly (attempt (select_keys id))
unfolding select_keys
attempt-ReadsOnly id = Keeps-ReadsOnly _ (λ s. search keeps_rules)

find_job-ReadsOnly : (id : Text) → ReadsOnly (query_row (find_job id))
find_job-ReadsOnly id = Keeps-ReadsOnly _ (λ s. search keeps_rules)

dequeue-IsAtomic : (queue : Text) (tags : List Text) → IsAtomic (dequeue queue tags)
unfolding dequeue
dequeue-IsAtomic queue tags = search atomic_rules

ack-IsAtomic : (id : Text) → IsAtomic (ack id)
unfolding ack
ack-IsAtomic id = search (atomic_rules, select_keys-ReadsOnly)

fail-IsAtomic : (fuel : ℕ) (id message : Text) → IsAtomic (fail fuel id message)
unfolding fail
fail-IsAtomic fuel id message = search (atomic_rules, find_job-ReadsOnly)

cancel-IsAtomic : (fuel : ℕ) (id : Text) → IsAtomic (cancel fuel id)
unfolding cancel
cancel-IsAtomic fuel id = search (atomic_rules, attempt-ReadsOnly)

enqueue_workflow-IsAtomic : (jobs : List JobEnvelope) → IsAtomic (enqueue_workflow jobs)
unfolding enqueue_workflow
enqueue_workflow-IsAtomic [] = search atomic_rules
enqueue_workflow-IsAtomic (job ∷ jobs) = search atomic_rules

enqueue_in_batch-IsAtomic :
    (batch_id : Text) (env : JobEnvelope) → IsAtomic (enqueue_in_batch batch_id env)
unfolding enqueue_in_batch
enqueue_in_batch-IsAtomic batch_id env = search atomic_rules

submit_batch-IsAtomic : (id : Text) → IsAtomic (submit_batch id)
unfolding submit_batch
submit_batch-IsAtomic id = search atomic_rules

bulk_retry-IsAtomic : (ids : List Text) → IsAtomic (bulk_retry ids)
unfolding bulk_retry
bulk_retry-IsAtomic [] = search atomic_rules
bulk_retry-IsAtomic (id ∷ ids) = search atomic_rules

bulk_cancel-IsAtomic : (ids : List Text) → IsAtomic (bulk_cancel ids)
unfolding bulk_cancel
bulk_cancel-IsAtomic [] = search atomic_rules
bulk_cancel-IsAtomic (id ∷ ids) = search atomic_rules

bulk_purge-IsAtomic : (ids : List Text) → IsAtomic (bulk_purge ids)
unfolding bulk_purge
bulk_purge-IsAtomic [] = search atomic_rules
bulk_purge-IsAtomic (id ∷ ids) = search atomic_rules

clear_queue-IsAtomic : (queue : Text) → IsAtomic (clear_queue queue)
unfolding clear_queue
clear_queue-IsAtomic queue = search atomic_rules

archive_jobs-IsAtomic : (age : ℤ) → IsAtomic (archive_jobs age)
unfolding archive_jobs
archive_jobs-IsAtomic age = search atomic_rules

acquire_leader-IsAtomic : (client : Text) (ttl : ℤ) → IsAtomic (acquire_leader client ttl)
unfolding acquire_leader
acquire_leader-IsAtomic client ttl = search atomic_rules

check_rate_limit-IsAtomic :
    (name : Text) (limit period : ℤ) → IsAtomic (check_rate_limit name limit period)
unfolding check_rate_limit
check_rate_limit-IsAtomic name limit period = search atomic_rules

create_batch-IsAtomic :
    (id : Text) (callback : JobEnvelope) (expires_at : Option ℕ)
    → IsAtomic (create_batch id callback expires_at)
unfolding create_batch
create_batch-IsAtomic id callback expires_at = search atomic_rules

register_cron_jobs-IsAtomic : (crons : List CronJob) → IsAtomic (register_cron_jobs crons)
unfolding register_cron_jobs
register_cron_jobs-IsAtomic crons = search atomic_rules

ruleset operations = (
  dequeue-IsAtomic, ack-IsAtomic, fail-IsAtomic, cancel-IsAtomic, enqueue_workflow-IsAtomic,
  enqueue_in_batch-IsAtomic, submit_batch-IsAtomic, bulk_retry-IsAtomic, bulk_cancel-IsAtomic,
  bulk_purge-IsAtomic, clear_queue-IsAtomic, archive_jobs-IsAtomic, acquire_leader-IsAtomic,
  check_rate_limit-IsAtomic, create_batch-IsAtomic, register_cron_jobs-IsAtomic, IsAtomic-void,
)

perform-IsAtomic : (fuel : ℕ) (c : Call) → writes_early c ≡ false → IsAtomic (perform fuel c)
unfolding perform register_process heartbeat_process save_cron_schedule delete_cron_schedule exec
    retry retry_modified retry_all_failed purge_all_failed purge_expired_dlq pause_queue
    resume_queue release_leader postpone_job fail_expired_batches
perform-IsAtomic fuel (enqueues env) h = cc
perform-IsAtomic fuel (locks_cron_execution name at) h = cc
perform-IsAtomic fuel gets_active_processes h = cc
perform-IsAtomic fuel _ h = search (atomic_rules, operations)

-- Every mutating call of the SQLite storage but Enqueue, LockCronExecution and GetActiveProcesses is all
-- or nothing: where it returns an error, whatever failed and wherever, the database is as it was before
-- the call.
pub perform_all_or_nothing :
    (fuel : ℕ) (c : Call) (w : World Db) (e : Error)
    → writes_early c ≡ false
    → (perform fuel c w).0 ≡ err e
    → (perform fuel c w).1.db ≡ w.db
perform_all_or_nothing fuel c w e h = (perform-IsAtomic fuel c h).rolled_back w e

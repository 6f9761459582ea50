-- ===== src/Postgres/Workflow.antt =====
-- queue/postgres_workflow.go, EnqueueWorkflow and what it calls.
use orkai_runiq.Common.{ℕ, Text, true, Option, none, some, List, [], ◌∷◌}
use orkai_runiq.Queue.{JobEnvelope}
use orkai_runiq.Helpers.{get_max_attempts}
use orkai_runiq.Sql.{Exec, pure, exec, time_now, ◌>>=◌, ◌>>◌, upsert}
use orkai_runiq.Sqlite.Tables.{Status, JobRow, Db, has_job_id}
use orkai_runiq.Sqlite.Workflow.{workflow_row, insert_dependency, initial_status}
use orkai_runiq.Postgres.{transaction_from, always}
use orkai_runiq.Postgres.Unique.{acquire_unique_lock}

abbrev pub new_row : JobEnvelope → Status → ℕ → ℕ → JobRow
new_row job status run_at started = record (workflow_row job status run_at started) {
  created_at = started;
  updated_at = started;
}

abbrev pub rejoined_row : JobEnvelope → Status → ℕ → ℕ → JobRow → JobRow
rejoined_row job status run_at started r = record r {
  status = status;
  attempts = 0;
  max_attempts = get_max_attempts job.max_attempts;
  run_at = some run_at;
  unique_key = job.unique_key;
  updated_at = started;
}

-- getRunAt reads the clock only for a job without a time of its own.
unfoldable pub run_at_of : Option ℕ → Exec Db ℕ
run_at_of (some t) = pure t
run_at_of none = time_now

unfoldable pub exec_insert_job : ℕ → JobEnvelope → Status → Exec Db Unit
unfolding run_at_of
exec_insert_job started job status = do
  run_at ← run_at_of job.run_at
  exec λ _ db. record db {
    jobs =
        upsert (has_job_id job.job_id) (rejoined_row job status run_at started)
          (new_row job status run_at started) db.jobs;
  }

unfoldable pub insert_job_dependencies : Text → List Text → Exec Db Unit
insert_job_dependencies id [] = pure tt
insert_job_dependencies id (parent ∷ parents) =
    let rest = insert_job_dependencies id parents in
    do exec (λ _. insert_dependency (record { job_id = id; parent_job_id = parent })); rest

unfoldable pub insert_workflow_job : ℕ → JobEnvelope → Exec Db Unit
unfolding acquire_unique_lock exec_insert_job insert_job_dependencies
insert_workflow_job started job = do
  acquire_unique_lock true job
  exec_insert_job started job (initial_status job.dependencies)
  insert_job_dependencies job.job_id job.dependencies

unfoldable pub insert_workflow_jobs : List JobEnvelope → ℕ → Exec Db Unit
unfolding insert_workflow_job
insert_workflow_jobs [] started = pure tt
insert_workflow_jobs (job ∷ jobs) started =
    let rest = insert_workflow_jobs jobs started in do insert_workflow_job started job; rest

unfoldable pub enqueue_workflow : List JobEnvelope → Exec Db Unit
unfolding insert_workflow_jobs transaction_from
enqueue_workflow [] = pure tt
enqueue_workflow (job ∷ jobs) = transaction_from always (insert_workflow_jobs (job ∷ jobs))

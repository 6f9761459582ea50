-- ===== src/Sqlite/Workflow.antt =====
-- queue/sqlite_workflow.go, EnqueueWorkflow and what it calls. What happens to dependent jobs later
-- is in Outcome.antt.
use orkai_runiq.Common.{ℕ, pos, Text, text_eq, Bool, ◌&&◌, Option, none, some, List, [], ◌∷◌}
use orkai_runiq.Queue.{JobEnvelope}
use orkai_runiq.Helpers.{get_max_attempts}
use orkai_runiq.Sql.{Exec, pure, exec, time_now, transaction, ◌>>=◌, ◌>>◌, upsert}
use orkai_runiq.Sqlite.Tables.{
  Status, pending, blocked, JobRow, DependencyRow, Db, current_timestamp, has_job_id,
}
use orkai_runiq.Sqlite.Unique.{acquire_unique_lock}

abbrev pub workflow_row : JobEnvelope → Status → ℕ → ℕ → JobRow
workflow_row job status run_at now = record {
  job_id = job.job_id;
  queue = job.queue;
  name = job.name;
  args = job.args;
  trace_id = job.trace_context.trace_id;
  span_id = job.trace_context.span_id;
  status = status;
  attempts = 0;
  max_attempts = get_max_attempts job.max_attempts;
  error_message = [];
  created_at = current_timestamp now;
  updated_at = current_timestamp now;
  locked_at = none;
  run_at = some run_at;
  unique_key = job.unique_key;
  batch_id = [];
  priority = pos 0;
  tags = [];
}

abbrev pub rejoined_row : JobEnvelope → Status → ℕ → ℕ → JobRow → JobRow
rejoined_row job status run_at now r = record r {
  status = status;
  attempts = 0;
  max_attempts = get_max_attempts job.max_attempts;
  run_at = some run_at;
  unique_key = job.unique_key;
  updated_at = current_timestamp now;
}

abbrev pub put_workflow_job : JobEnvelope → Status → ℕ → ℕ → Db → Db
put_workflow_job job status run_at now db = record db {
  jobs =
      upsert (has_job_id job.job_id) (rejoined_row job status run_at now)
        (workflow_row job status run_at now) db.jobs;
}

-- getRunAt reads the clock only for a job without a time of its own.
unfoldable pub run_at_of : Option ℕ → Exec Db ℕ
run_at_of (some t) = pure t
run_at_of none = time_now

unfoldable pub exec_insert_job : JobEnvelope → Status → Exec Db Unit
unfolding run_at_of
exec_insert_job job status = do
  run_at ← run_at_of job.run_at
  exec (put_workflow_job job status run_at)

abbrev pub same_dependency : DependencyRow → DependencyRow → Bool
same_dependency d e = text_eq e.job_id d.job_id && text_eq e.parent_job_id d.parent_job_id

-- INSERT OR IGNORE
abbrev pub insert_dependency : DependencyRow → Db → Db
insert_dependency d db = record db {
  dependencies = upsert (same_dependency d) (λ e. e) d db.dependencies;
}

unfoldable pub insert_job_dependencies : Text → List Text → Exec Db Unit
insert_job_dependencies id [] = pure tt
insert_job_dependencies id (parent ∷ parents) =
    let rest = insert_job_dependencies id parents in
    do exec (λ _. insert_dependency (record { job_id = id; parent_job_id = parent })); rest

abbrev pub initial_status : List Text → Status
initial_status [] = pending
initial_status (parent ∷ parents) = blocked

unfoldable pub insert_workflow_job : JobEnvelope → Exec Db Unit
unfolding exec_insert_job insert_job_dependencies
insert_workflow_job job = do
  acquire_unique_lock job
  exec_insert_job job (initial_status job.dependencies)
  insert_job_dependencies job.job_id job.dependencies

unfoldable pub insert_workflow_jobs : List JobEnvelope → Exec Db Unit
unfolding insert_workflow_job
insert_workflow_jobs [] = pure tt
insert_workflow_jobs (job ∷ jobs) =
    let rest = insert_workflow_jobs jobs in do insert_workflow_job job; rest

unfoldable pub enqueue_workflow : List JobEnvelope → Exec Db Unit
unfolding insert_workflow_jobs
enqueue_workflow [] = pure tt
enqueue_workflow (job ∷ jobs) = transaction (insert_workflow_jobs (job ∷ jobs))

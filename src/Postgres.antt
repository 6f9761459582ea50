-- ===== src/Postgres.antt =====
-- queue/postgres*.go: the PostgreSQL storage, over the tables of queue/sqlite.go, which are the same.
-- A row of a job that is deleted takes its dependency rows with it (ON DELETE CASCADE). Instants keep
-- their nanoseconds, where PostgreSQL rounds them to microseconds.
pub mod Unique
pub mod Jobs
pub mod Burial
pub mod Progress
pub mod Outcome
pub mod Workflow
pub mod Admin
pub mod Process
pub mod Schedules
use orkai_runiq.Common.{ℕ, Bool, true, Text, text_eq}
use orkai_runiq.Sql.{Exec, World, transaction_if, delete}
use orkai_runiq.Sqlite.Tables.{Db, JobRow, DependencyRow, has_job_id}
use orkai_runiq.Sqlite.Burial.{has_child}

-- BeginTx, a body, and Commit on the results for which the code reaches it. CURRENT_TIMESTAMP is the
-- time of the BEGIN in all its statements.
unfoldable pub transaction_from : {A : Type 0} → (A → Bool) → (ℕ → Exec Db A) → Exec Db A
unfolding transaction_if
transaction_from commits body w = transaction_if commits (body (w.outside.clock w.step)) w

abbrev pub always : {A : Type 0} → A → Bool
always a = true

-- DELETE FROM runiq_jobs WHERE job_id = $1
abbrev pub delete_job : Text → Db → Db
delete_job id db = record db {
  jobs = delete (has_job_id id) db.jobs;
  dependencies = delete (has_child id) db.dependencies;
}

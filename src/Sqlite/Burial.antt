-- ===== src/Sqlite/Burial.antt =====
-- The end of a job and of what depends on it: queue/sqlite_admin.go, transitionToDead, and
-- queue/sqlite_workflow.go, cascadeDependencyFailure, failChildren and queryChildJobIDs. They call one
-- another along the dependencies; that recursion takes fuel.
pub mod Dead
pub mod Cascade
use mathlib.Core.Option
use orkai_runiq.Common.{
  ℕ, zero, suc, ◌+◌, ◌%◌, ◌==◌, ℤ, pos, ◌-ℤ◌, Text, text_eq, is_empty, codes, Bool, true, false,
  ◌&&◌, ◌||◌, not, Option, none, some, List, [], ◌∷◌, ◌++◌, map, ltb, ltb_ℤ, if◌then◌else◌, shift,
}
use orkai_runiq.Helpers.{second, compute_backoff_delay, get_max_attempts}
use orkai_runiq.Sql.{
  Exec, Result, ok, err, no_rows, constraint, out_of_fuel, pure, raise, exec, query, query_row,
  statement, time_now, generate_job_id, attempt, or_zero, transaction, ◌>>=◌, ◌>>◌, update, select,
  delete, exists, first, count,
}
use orkai_runiq.Sqlite.Tables.{
  Status, pending, processed, dead, JobRow, BatchStatus, sealed, completed, failed, BatchRow,
  DependencyRow, Db, current_timestamp, has_job_id, has_batch_id,
}
use orkai_runiq.Sqlite.Unique.{delete_unique_lock}

-- The columns unique_key, queue and batch_id of a job.
pub record Keys : Type 0 where
  pub unique_key : Text
  pub queue : Text
  pub batch_id : Text

abbrev pub no_keys : Keys
no_keys = record { unique_key = []; queue = []; batch_id = [] }

abbrev pub keys_of : JobRow → Keys
keys_of r = record { unique_key = r.unique_key; queue = r.queue; batch_id = r.batch_id }

abbrev pub find_job : Text → Db → Option JobRow
find_job id db = first (has_job_id id) db.jobs

-- SELECT unique_key, queue, batch_id FROM runiq_jobs WHERE job_id = ?
unfoldable pub select_keys : Text → Exec Db Keys
select_keys id = query_row λ db. Option.map keys_of (find_job id db)

-- UPDATE runiq_jobs SET ... WHERE job_id = ?
abbrev pub update_job : Text → (JobRow → JobRow) → Db → Db
update_job id f db = record db { jobs = update (has_job_id id) f db.jobs }

abbrev pub set_batch_status : Text → BatchStatus → Db → Db
set_batch_status id s db = record db {
  batches = update (has_batch_id id) (λ b. record b { status = s }) db.batches;
}

abbrev pub has_parent : Text → DependencyRow → Bool
has_parent id d = text_eq d.parent_job_id id

abbrev pub has_child : Text → DependencyRow → Bool
has_child id d = text_eq d.job_id id

abbrev pub children_of : Text → Db → List Text
children_of parent db = map (λ d. d.job_id) (select (has_parent parent) db.dependencies)

unfoldable pub query_child_job_ids : Text → Exec Db (List Text)
query_child_job_ids parent = query λ _. children_of parent

-- DELETE FROM runiq_job_dependencies WHERE job_id = ?
abbrev pub forget_parents : Text → Db → Db
forget_parents id db = record db { dependencies = delete (has_child id) db.dependencies }

-- DELETE FROM runiq_job_dependencies WHERE parent_job_id = ?
abbrev pub forget_children : Text → Db → Db
forget_children id db = record db { dependencies = delete (has_parent id) db.dependencies }

abbrev pub dead_row : Text → ℕ → JobRow → JobRow
dead_row message now r = record r {
  status = dead;
  error_message = message;
  attempts = r.attempts + 1;
  locked_at = none;
  updated_at = current_timestamp now;
}

abbrev pub mark_dead : Text → Text → ℕ → Db → Db
mark_dead id message now = update_job id (dead_row message now)

unfoldable pub fail_batch : Text → Exec Db Unit
fail_batch batch_id =
    if is_empty batch_id then pure tt else exec (λ _. set_batch_status batch_id failed)

-- transitionToDead, over the cascade that it calls.
unfoldable pub bury : (Text → Exec Db Unit) → Text → Text → Keys → Exec Db Unit
unfolding fail_batch
bury cascade id message keys = do
  exec (mark_dead id message)
  delete_unique_lock keys.queue keys.unique_key
  cascade id
  fail_batch keys.batch_id

-- "Dependency " + parentID + " failed"
abbrev pub dependency_failed : Text → Text
dependency_failed parent = codes "Dependency " ++ parent ++ codes " failed"

-- failChildren, over the cascade that transitionToDead calls.
unfoldable pub fail_children : (Text → Exec Db Unit) → Text → List Text → Exec Db Unit
fail_children cascade parent [] = pure tt
fail_children cascade parent (child ∷ children) =
    let rest = fail_children cascade parent children in
    do
      keys ← or_zero no_keys (select_keys child)
      bury cascade child (dependency_failed parent) keys
      exec (λ _. forget_parents child)
      rest

unfoldable pub cascade_dependency_failure : ℕ → Text → Exec Db Unit
cascade_dependency_failure zero id = raise out_of_fuel
cascade_dependency_failure (suc fuel) id = do
  children ← query_child_job_ids id
  fail_children (cascade_dependency_failure fuel) id children

unfoldable pub transition_to_dead : ℕ → Text → Text → Keys → Exec Db Unit
transition_to_dead fuel = bury (cascade_dependency_failure fuel)

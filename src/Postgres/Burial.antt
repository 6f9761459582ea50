-- ===== src/Postgres/Burial.antt =====
-- The end of a job and of what depends on it: queue/postgres_admin.go, transitionToDead, and
-- queue/postgres_workflow.go, cascadeDependencyFailure, failChildren and queryChildJobIDs. `started` is
-- the CURRENT_TIMESTAMP of the transaction. The recursion along the dependencies takes fuel.
use orkai_runiq.Common.{ℕ, zero, suc, ◌+◌, Text, is_empty, List, [], ◌∷◌, none, if◌then◌else◌}
use orkai_runiq.Sql.{Exec, out_of_fuel, pure, raise, exec, query, or_zero, ◌>>=◌, ◌>>◌}
use orkai_runiq.Sqlite.Tables.{dead, failed, JobRow, Db}
use orkai_runiq.Sqlite.Burial.{
  Keys, no_keys, select_keys, update_job, set_batch_status, children_of, dependency_failed,
  forget_parents,
}
use orkai_runiq.Postgres.Unique.{delete_unique_lock}

unfoldable pub query_child_job_ids : Text → Exec Db (List Text)
query_child_job_ids parent = query λ _. children_of parent

abbrev pub dead_row : Text → ℕ → JobRow → JobRow
dead_row message started r = record r {
  status = dead;
  error_message = message;
  attempts = r.attempts + 1;
  locked_at = none;
  updated_at = started;
}

unfoldable pub fail_batch : Text → Exec Db Unit
fail_batch batch_id =
    if is_empty batch_id then pure tt else exec (λ _. set_batch_status batch_id failed)

-- transitionToDead, over the cascade that it calls.
unfoldable pub bury : (Text → Exec Db Unit) → ℕ → Text → Text → Keys → Exec Db Unit
unfolding delete_unique_lock fail_batch
bury cascade started id message keys = do
  exec (λ _. update_job id (dead_row message started))
  delete_unique_lock keys.queue keys.unique_key
  cascade id
  fail_batch keys.batch_id

-- failChildren, over the cascade that transitionToDead calls.
unfoldable pub fail_children : (Text → Exec Db Unit) → ℕ → Text → List Text → Exec Db Unit
unfolding bury
fail_children cascade started parent [] = pure tt
fail_children cascade started parent (child ∷ children) =
    let rest = fail_children cascade started parent children in
    do
      keys ← or_zero no_keys (select_keys child)
      bury cascade started child (dependency_failed parent) keys
      exec (λ _. forget_parents child)
      rest

unfoldable pub cascade_dependency_failure : ℕ → ℕ → Text → Exec Db Unit
unfolding query_child_job_ids fail_children
cascade_dependency_failure zero started id = raise out_of_fuel
cascade_dependency_failure (suc fuel) started id = do
  children ← query_child_job_ids id
  fail_children (cascade_dependency_failure fuel started) started id children

unfoldable pub transition_to_dead : ℕ → ℕ → Text → Text → Keys → Exec Db Unit
unfolding cascade_dependency_failure bury
transition_to_dead fuel started = bury (cascade_dependency_failure fuel started) started

-- ===== src/Sqlite/Outcome.antt =====
-- How an execution ends: queue/sqlite_admin.go, Ack, Fail and Cancel, with resolveDependencies and
-- checkBlockedChildren of queue/sqlite_workflow.go.
pub mod Failing
pub mod Settled
pub mod Release
pub mod Termination
pub mod Cycles
use mathlib.Core.Option
use orkai_runiq.Common.{
  ℕ, zero, suc, ◌+◌, ◌%◌, ◌==◌, ℤ, pos, ◌-ℤ◌, Text, text_eq, is_empty, codes, Bool, true, false,
  ◌&&◌, ◌||◌, not, Option, none, some, List, [], ◌∷◌, ◌++◌, map, ltb, ltb_ℤ, if◌then◌else◌, shift,
}
use orkai_runiq.Helpers.{second, compute_backoff_delay, get_max_attempts}
use orkai_runiq.Sql.{
  Exec, Result, ok, err, no_rows, constraint, out_of_fuel, pure, raise, exec, query, query_row,
  statement, time_now, generate_job_id, attempt, or_zero, transaction, ◌>>=◌, ◌>>◌, update, select,
  delete, exists, first, count,
}
use orkai_runiq.Sqlite.Tables.{
  Status, pending, processed, dead, JobRow, BatchStatus, sealed, completed, failed, BatchRow,
  DependencyRow, Db, current_timestamp, has_job_id, has_batch_id,
}
use orkai_runiq.Sqlite.Unique.{delete_unique_lock}
use orkai_runiq.Sqlite.Burial.{
  Keys, bury, cascade_dependency_failure, children_of, dead_row, dependency_failed, fail_batch,
  fail_children, find_job, forget_children, forget_parents, has_child, has_parent, keys_of,
  mark_dead, no_keys, query_child_job_ids, select_keys, set_batch_status, transition_to_dead,
  update_job,
}
use orkai_runiq.Sqlite.Progress.{
  Progress, callback_row, decrement, enqueue_callback, expire_batch, handle_batch_ack,
  insert_new_job, is_past, is_sealed, is_zero, mark_batch_completed, progress_of, returning,
  update_batch_pending, update_batch_returning,
}

abbrev pub release_row : ℕ → JobRow → JobRow
release_row now r = record r { status = pending; updated_at = current_timestamp now }

-- SELECT COUNT(*) FROM runiq_job_dependencies WHERE job_id = ?
abbrev pub parents_left : Text → Db → ℕ
parents_left id db = count (has_child id) db.dependencies

unfoldable pub check_blocked_children : List Text → Exec Db Unit
check_blocked_children [] = pure tt
check_blocked_children (child ∷ children) =
    let rest = check_blocked_children children in
    do
      left ← query λ _. parents_left child
      (if left == 0 then exec (λ now. update_job child (release_row now)) else pure tt)
      rest

unfoldable pub resolve_dependencies : Text → Exec Db Unit
unfolding query_child_job_ids
resolve_dependencies parent = do
  children ← query_child_job_ids parent
  exec (λ _. forget_children parent)
  check_blocked_children children

abbrev pub processed_row : ℕ → JobRow → JobRow
processed_row now r = record r {
  status = processed;
  locked_at = none;
  updated_at = current_timestamp now;
}

unfoldable pub ack_batch : Text → Exec Db Unit
ack_batch batch_id = if is_empty batch_id then pure tt else handle_batch_ack batch_id

unfoldable pub perform_ack : Text → Keys → Exec Db Unit
unfolding ack_batch
perform_ack id keys = do
  exec (λ now. update_job id (processed_row now))
  delete_unique_lock keys.queue keys.unique_key
  resolve_dependencies id
  ack_batch keys.batch_id

unfoldable pub ack : Text → Exec Db Unit
unfolding select_keys perform_ack
ack id = do keys ← or_zero no_keys (select_keys id); transaction (perform_ack id keys)

abbrev pub retry_row : Text → ℕ → ℕ → JobRow → JobRow
retry_row message next_run now r = record r {
  status = pending;
  attempts = r.attempts + 1;
  run_at = some next_run;
  error_message = message;
  locked_at = none;
  updated_at = current_timestamp now;
}

-- time.Now().Nanosecond()
abbrev pub nanosecond : ℕ → ℕ
nanosecond t = t % second

-- time.Now().Add(ComputeBackoffDelay(attempts)); the delay reads the clock again.
unfoldable pub next_run_after : ℕ → Exec Db ℕ
next_run_after attempts = do
  now ← time_now
  jitter ← time_now
  pure (shift now (compute_backoff_delay attempts (nanosecond jitter)))

unfoldable pub schedule_retry : Text → Text → ℕ → Exec Db Unit
unfolding next_run_after
schedule_retry id message attempts = do
  next_run ← next_run_after attempts
  exec (λ now. update_job id (retry_row message next_run now))

unfoldable pub perform_fail : ℕ → Text → Text → ℕ → ℤ → Keys → Exec Db Unit
unfolding schedule_retry transition_to_dead
perform_fail fuel id message attempts max_attempts keys =
    if ltb_ℤ (pos (attempts + 1)) max_attempts
    then schedule_retry id message attempts
    else transition_to_dead fuel id message keys

unfoldable pub fail : ℕ → Text → Text → Exec Db Unit
unfolding perform_fail
fail fuel id message = do
  r ← query_row (find_job id)
  transaction
      (perform_fail fuel id message r.attempts (get_max_attempts r.max_attempts) (keys_of r))

-- Cancel drops the error of its first query.
abbrev pub keys_or_none : Result Keys → Keys
keys_or_none (ok k) = k
keys_or_none (err e) = no_keys

abbrev pub delete_job : Text → Db → Db
delete_job id db = record db { jobs = delete (has_job_id id) db.jobs }

unfoldable pub perform_cancel : ℕ → Text → Keys → Exec Db Unit
perform_cancel fuel id keys = do
  exec (λ _. delete_job id)
  delete_unique_lock keys.queue keys.unique_key
  cascade_dependency_failure fuel id

unfoldable pub cancel : ℕ → Text → Exec Db Unit
unfolding select_keys perform_cancel
cancel fuel id = do
  r ← attempt (select_keys id)
  transaction (perform_cancel fuel id (keys_or_none r))

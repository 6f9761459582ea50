-- ===== src/Postgres/Outcome.antt =====
-- How an execution ends: queue/postgres_admin.go, Ack, Fail and Cancel, with resolveDependencies and
-- checkBlockedChildren of queue/postgres_workflow.go.
pub mod Uncounted
use orkai_runiq.Common.{
  ℕ, ◌+◌, ◌==◌, ℤ, pos, ltb_ℤ, Text, is_empty, List, [], ◌∷◌, none, some, if◌then◌else◌, shift,
}
use orkai_runiq.Helpers.{compute_backoff_delay, get_max_attempts}
use orkai_runiq.Sql.{
  Exec, pure, exec, query, query_row, time_now, attempt, transaction, ◌>>=◌, ◌>>◌,
}
use orkai_runiq.Sqlite.Tables.{pending, processed, JobRow, Db}
use orkai_runiq.Sqlite.Burial.{Keys, keys_of, select_keys, find_job, update_job, forget_children}
use orkai_runiq.Sqlite.Outcome.{parents_left, nanosecond, keys_or_none}
use orkai_runiq.Postgres.{transaction_from, always, delete_job}
use orkai_runiq.Postgres.Unique.{delete_unique_lock}
use orkai_runiq.Postgres.Burial.{
  query_child_job_ids, cascade_dependency_failure, transition_to_dead,
}
use orkai_runiq.Postgres.Progress.{handle_batch_ack}

abbrev pub release_row : ℕ → JobRow → JobRow
release_row started r = record r { status = pending; updated_at = started }

unfoldable pub check_blocked_children : ℕ → List Text → Exec Db Unit
check_blocked_children started [] = pure tt
check_blocked_children started (child ∷ children) =
    let rest = check_blocked_children started children in
    do
      left ← query λ _. parents_left child
      (if left == 0 then exec (λ _. update_job child (release_row started)) else pure tt)
      rest

unfoldable pub resolve_dependencies : ℕ → Text → Exec Db Unit
unfolding query_child_job_ids check_blocked_children
resolve_dependencies started parent = do
  children ← query_child_job_ids parent
  exec (λ _. forget_children parent)
  check_blocked_children started children

abbrev pub processed_row : ℕ → JobRow → JobRow
processed_row started r = record r { status = processed; locked_at = none; updated_at = started }

unfoldable pub finish_ack : ℕ → Text → Exec Db Unit
unfolding handle_batch_ack
finish_ack started batch_id =
    if is_empty batch_id then pure tt else handle_batch_ack started batch_id

unfoldable pub perform_ack : Text → Keys → ℕ → Exec Db Unit
unfolding delete_unique_lock resolve_dependencies finish_ack
perform_ack id keys started = do
  exec (λ _. update_job id (processed_row started))
  delete_unique_lock keys.queue keys.unique_key
  resolve_dependencies started id
  finish_ack started keys.batch_id

-- The error of the first query is dropped, whatever it is.
unfoldable pub ack : Text → Exec Db Unit
unfolding perform_ack transaction_from
ack id = do
  keys ← attempt (select_keys id)
  transaction_from always (perform_ack id (keys_or_none keys))

abbrev pub retry_row : Text → ℕ → ℕ → JobRow → JobRow
retry_row message next_run started r = record r {
  status = pending;
  attempts = r.attempts + 1;
  run_at = some next_run;
  error_message = message;
  locked_at = none;
  updated_at = started;
}

unfoldable pub schedule_retry : Text → Text → ℕ → ℕ → Exec Db Unit
schedule_retry id message attempts started = do
  now ← time_now
  jitter ← time_now
  exec λ _.
      update_job id
        (retry_row message (shift now (compute_backoff_delay attempts (nanosecond jitter))) started)

unfoldable pub perform_fail : ℕ → Text → Text → ℕ → ℤ → Keys → ℕ → Exec Db Unit
unfolding schedule_retry transition_to_dead
perform_fail fuel id message attempts max_attempts keys started =
    if ltb_ℤ (pos (attempts + 1)) (get_max_attempts max_attempts)
    then schedule_retry id message attempts started
    else transition_to_dead fuel started id message keys

unfoldable pub fail : ℕ → Text → Text → Exec Db Unit
unfolding perform_fail transaction_from
fail fuel id message = do
  r ← query_row (find_job id)
  transaction_from always (perform_fail fuel id message r.attempts r.max_attempts (keys_of r))

unfoldable pub perform_cancel : ℕ → Text → Keys → ℕ → Exec Db Unit
unfolding delete_unique_lock cascade_dependency_failure
perform_cancel fuel id keys started = do
  exec (λ _. delete_job id)
  delete_unique_lock keys.queue keys.unique_key
  cascade_dependency_failure fuel started id

unfoldable pub cancel : ℕ → Text → Exec Db Unit
unfolding perform_cancel transaction_from
cancel fuel id = do
  keys ← attempt (select_keys id)
  transaction_from always (perform_cancel fuel id (keys_or_none keys))

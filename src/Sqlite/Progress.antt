-- ===== src/Sqlite/Progress.antt =====
-- The bookkeeping of batches: queue/sqlite_admin.go, handleBatchAck and what it calls.
pub mod Completion
use mathlib.Core.Option
use orkai_runiq.Common.{
  ℕ, zero, suc, ◌+◌, ◌%◌, ◌==◌, ℤ, pos, ◌-ℤ◌, Text, text_eq, is_empty, codes, Bool, true, false,
  ◌&&◌, ◌||◌, not, Option, none, some, List, [], ◌∷◌, ◌++◌, map, ltb, ltb_ℤ, if◌then◌else◌, shift,
}
use orkai_runiq.Helpers.{second, compute_backoff_delay, get_max_attempts}
use orkai_runiq.Sql.{
  Exec, Result, ok, err, no_rows, constraint, out_of_fuel, pure, raise, exec, query, query_row,
  statement, time_now, generate_job_id, attempt, or_zero, transaction, ◌>>=◌, ◌>>◌, update, select,
  delete, exists, first, count,
}
use orkai_runiq.Sqlite.Tables.{
  Status, pending, processed, dead, JobRow, BatchStatus, sealed, completed, failed, BatchRow,
  DependencyRow, Db, current_timestamp, has_job_id, has_batch_id,
}
use orkai_runiq.Sqlite.Unique.{delete_unique_lock}
use orkai_runiq.Sqlite.Burial.{set_batch_status}

-- What updateBatchPending returns.
pub record Progress : Type 0 where
  pub pending_jobs : ℤ
  pub status : BatchStatus
  pub callback_queue : Text
  pub callback_name : Text
  pub callback_args : List ℕ
  pub expires_at : Option ℕ

abbrev pub progress_of : BatchRow → Progress
progress_of b = record {
  pending_jobs = b.pending_jobs;
  status = b.status;
  callback_queue = b.callback_queue;
  callback_name = b.callback_name;
  callback_args = b.callback_args;
  expires_at = b.expires_at;
}

-- UPDATE runiq_batches SET f WHERE batch_id = ? RETURNING ...
abbrev pub returning : Option BatchRow → Text → (BatchRow → BatchRow) → Db → Result (Progress × Db)
returning none id f db = err no_rows
returning (some b) id f db =
    ok (progress_of (f b), record db { batches = update (has_batch_id id) f db.batches })

abbrev pub update_batch_returning : Text → (BatchRow → BatchRow) → Db → Result (Progress × Db)
update_batch_returning id f db = returning (first (has_batch_id id) db.batches) id f db

abbrev pub decrement : BatchRow → BatchRow
decrement b = record b { pending_jobs = b.pending_jobs -ℤ pos 1 }

-- exp != nil && time.Now().After(*exp). The clock is read only where there is an expiry.
unfoldable pub is_past : Option ℕ → Exec Db Bool
is_past none = pure false
is_past (some t) = do now ← time_now; pure (ltb t now)

-- The error of the UPDATE is dropped.
unfoldable pub expire_batch : Text → Progress → Exec Db Progress
expire_batch batch_id p = do
  _ ← attempt (exec (λ _. set_batch_status batch_id failed))
  pure (record p { status = failed })

unfoldable pub update_batch_pending : Text → Exec Db Progress
unfolding is_past expire_batch
update_batch_pending batch_id = do
  p ← statement λ _. update_batch_returning batch_id decrement
  past ← is_past p.expires_at
  if past then expire_batch batch_id p else pure p

abbrev pub is_sealed : BatchStatus → Bool
is_sealed sealed = true
is_sealed _ = false

abbrev pub is_zero : ℤ → Bool
is_zero (pos n) = n == 0
is_zero _ = false

-- The row of INSERT INTO runiq_jobs (job_id, queue, name, args, status, ...) VALUES (..., 'pending',
-- 0, 3, CURRENT_TIMESTAMP), the other columns at their defaults.
abbrev pub callback_row : Text → Text → Text → List ℕ → ℕ → JobRow
callback_row id queue name args now = record {
  job_id = id;
  queue = queue;
  name = name;
  args = args;
  trace_id = [];
  span_id = [];
  status = pending;
  attempts = 0;
  max_attempts = pos 3;
  error_message = [];
  created_at = current_timestamp now;
  updated_at = current_timestamp now;
  locked_at = none;
  run_at = some (current_timestamp now);
  unique_key = [];
  batch_id = [];
  priority = pos 0;
  tags = [];
}

-- INSERT INTO runiq_jobs without ON CONFLICT.
abbrev pub insert_new_job : JobRow → Db → Result (Unit {0} × Db)
insert_new_job r db =
    if exists (has_job_id r.job_id) db.jobs
    then err constraint
    else ok (tt, record db { jobs = db.jobs ++ r ∷ [] })

unfoldable pub enqueue_callback : Text → Text → List ℕ → Exec Db Unit
enqueue_callback queue name args = do
  id ← generate_job_id
  statement λ now. insert_new_job (callback_row id queue name args now)

unfoldable pub mark_batch_completed : Text → Exec Db Unit
mark_batch_completed batch_id = exec λ _. set_batch_status batch_id completed

unfoldable pub handle_batch_ack : Text → Exec Db Unit
unfolding update_batch_pending mark_batch_completed enqueue_callback
handle_batch_ack batch_id = do
  p ← update_batch_pending batch_id
  if not (is_sealed p.status) || not (is_zero p.pending_jobs) then pure tt else do
    mark_batch_completed batch_id
    enqueue_callback p.callback_queue p.callback_name p.callback_args

-- ===== src/Postgres/Progress.antt =====
-- The bookkeeping of batches: queue/postgres_admin.go, handleBatchAck and what it calls, and
-- queue/postgres_batch.go.
use mathlib.Core.Option
use orkai_runiq.Common.{ℕ, Text, Bool, true, false, ◌||◌, not, Option, some, List, if◌then◌else◌}
use orkai_runiq.Queue.{JobEnvelope}
use orkai_runiq.Helpers.{get_run_at}
use orkai_runiq.Sql.{
  Exec, pure, exec, query_row, statement, time_now, generate_job_id, ◌>>=◌, ◌>>◌, first,
}
use orkai_runiq.Sqlite.Tables.{JobRow, completed, failed, Db, has_batch_id}
use orkai_runiq.Sqlite.Burial.{set_batch_status}
use orkai_runiq.Sqlite.Progress.{
  Progress, update_batch_returning, decrement, is_past, is_sealed, is_zero, callback_row,
  insert_new_job,
}
use orkai_runiq.Sqlite.Batch.{
  new_batch, insert_batch, count_member, seal, batch_job_row, expire_batches,
}
use orkai_runiq.Postgres.{transaction_from, always}
use orkai_runiq.Postgres.Unique.{acquire_unique_lock}

-- The code drops the error of this UPDATE, but then the transaction is aborted and its next statement
-- or its COMMIT fails.
unfoldable pub expire_batch : Text → Progress → Exec Db Progress
expire_batch batch_id p = do
  exec (λ _. set_batch_status batch_id failed)
  pure (record p { status = failed })

unfoldable pub update_batch_pending : Text → Exec Db Progress
unfolding is_past expire_batch
update_batch_pending batch_id = do
  p ← statement λ _. update_batch_returning batch_id decrement
  past ← is_past p.expires_at
  if past then expire_batch batch_id p else pure p

unfoldable pub mark_batch_completed : Text → Exec Db Unit
mark_batch_completed batch_id = exec λ _. set_batch_status batch_id completed

-- The times of the new row are the CURRENT_TIMESTAMP of the transaction.
abbrev pub callback_at : Text → Text → Text → List ℕ → ℕ → JobRow
callback_at id queue name args started = record (callback_row id queue name args started) {
  created_at = started;
  updated_at = started;
  run_at = some started;
}

unfoldable pub enqueue_callback : ℕ → Text → Text → List ℕ → Exec Db Unit
enqueue_callback started queue name args = do
  id ← generate_job_id
  statement λ _. insert_new_job (callback_at id queue name args started)

unfoldable pub complete_batch_and_enqueue : ℕ → Text → Progress → Exec Db Unit
unfolding mark_batch_completed enqueue_callback
complete_batch_and_enqueue started batch_id p = do
  mark_batch_completed batch_id
  enqueue_callback started p.callback_queue p.callback_name p.callback_args

unfoldable pub handle_batch_ack : ℕ → Text → Exec Db Unit
unfolding update_batch_pending complete_batch_and_enqueue
handle_batch_ack started batch_id = do
  p ← update_batch_pending batch_id
  if not (is_sealed p.status) || not (is_zero p.pending_jobs)
      then pure tt
      else complete_batch_and_enqueue started batch_id p

unfoldable pub create_batch : Text → JobEnvelope → Option ℕ → Exec Db Unit
create_batch id callback expires_at = statement λ _. insert_batch (new_batch id callback expires_at)

unfoldable pub update_batch_count : Text → Exec Db Unit
update_batch_count id = exec λ _. count_member id

abbrev pub member_row : Text → JobEnvelope → ℕ → ℕ → JobRow
member_row batch_id env run_at started = record (batch_job_row batch_id env run_at started) {
  created_at = started;
  updated_at = started;
}

unfoldable pub insert_batch_job : ℕ → Text → JobEnvelope → Exec Db Unit
insert_batch_job started batch_id env = do
  now ← time_now
  statement λ _. insert_new_job (member_row batch_id env (get_run_at now env.run_at) started)

unfoldable pub enqueue_in_batch : Text → JobEnvelope → Exec Db Unit
unfolding update_batch_count insert_batch_job transaction_from
enqueue_in_batch batch_id env = transaction_from always λ started. do
  update_batch_count batch_id
  acquire_unique_lock true env
  insert_batch_job started batch_id env

unfoldable pub expire_now : Text → Exec Db Bool
expire_now id = do exec (λ _. set_batch_status id failed); pure true

-- A batch that is not there is an error here.
unfoldable pub check_batch_expired : Text → Exec Db Bool
unfolding is_past expire_now
check_batch_expired id = do
  expires_at ← query_row λ db. Option.map (λ b. b.expires_at) (first (has_batch_id id) db.batches)
  past ← is_past expires_at
  if past then expire_now id else pure false

unfoldable pub seal_batch : Text → Exec Db Progress
seal_batch id = statement λ _. update_batch_returning id seal

unfoldable pub process_submit : ℕ → Text → Exec Db Unit
unfolding check_batch_expired seal_batch complete_batch_and_enqueue
process_submit started id = do
  expired ← check_batch_expired id
  if expired then pure tt else do
    p ← seal_batch id
    if is_zero p.pending_jobs then complete_batch_and_enqueue started id p else pure tt

unfoldable pub submit_batch : Text → Exec Db Unit
unfolding process_submit transaction_from
submit_batch id = transaction_from always λ started. process_submit started id

unfoldable pub fail_expired_batches : Exec Db Unit
fail_expired_batches = do now ← time_now; exec (λ _. expire_batches now)

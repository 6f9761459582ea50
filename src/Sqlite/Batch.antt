-- ===== src/Sqlite/Batch.antt =====
-- queue/sqlite_batch.go; queue/sqlite_admin.go, FailExpiredBatches. A member's Ack is in Outcome.antt and
-- Progress.antt.
use mathlib.Core.Option
use orkai_runiq.Common.{
  ℕ, pos, ◌+ℤ◌, Text, Bool, true, false, ◌&&◌, Option, none, some, [], ◌∷◌, ◌++◌, ltb,
  if◌then◌else◌,
}
use orkai_runiq.Queue.{JobEnvelope}
use orkai_runiq.Helpers.{get_run_at, get_max_attempts}
use orkai_runiq.Sql.{
  Exec, Result, ok, err, constraint, pure, exec, query_row, statement, time_now, or_zero,
  transaction, ◌>>=◌, ◌>>◌, update, exists, first,
}
use orkai_runiq.Sqlite.Tables.{
  pending, JobRow, BatchStatus, opened, sealed, failed, BatchRow, Db, current_timestamp,
  has_batch_id,
}
use orkai_runiq.Sqlite.Unique.{acquire_unique_lock}
use orkai_runiq.Sqlite.Burial.{set_batch_status}
use orkai_runiq.Sqlite.Progress.{
  Progress, update_batch_returning, is_past, is_zero, insert_new_job, mark_batch_completed,
  enqueue_callback,
}

abbrev pub new_batch : Text → JobEnvelope → Option ℕ → BatchRow
new_batch id callback expires_at = record {
  batch_id = id;
  callback_queue = callback.queue;
  callback_name = callback.name;
  callback_args = callback.args;
  total_jobs = pos 0;
  pending_jobs = pos 0;
  status = opened;
  expires_at = expires_at;
}

abbrev pub insert_batch : BatchRow → Db → Result (Unit {0} × Db)
insert_batch b db =
    if exists (has_batch_id b.batch_id) db.batches
    then err constraint
    else ok (tt, record db { batches = db.batches ++ b ∷ [] })

unfoldable pub create_batch : Text → JobEnvelope → Option ℕ → Exec Db Unit
create_batch id callback expires_at = statement λ _. insert_batch (new_batch id callback expires_at)

abbrev pub count_in : BatchRow → BatchRow
count_in b = record b { total_jobs = b.total_jobs +ℤ pos 1; pending_jobs = b.pending_jobs +ℤ pos 1 }

-- An UPDATE: a batch that is not there is no error.
abbrev pub count_member : Text → Db → Db
count_member id db = record db { batches = update (has_batch_id id) count_in db.batches }

unfoldable pub update_batch_count : Text → Exec Db Unit
update_batch_count id = exec λ _. count_member id

-- The INSERT names neither the priority nor the tags, which keep their defaults.
abbrev pub batch_job_row : Text → JobEnvelope → ℕ → ℕ → JobRow
batch_job_row batch_id env run_at now = record {
  job_id = env.job_id;
  queue = env.queue;
  name = env.name;
  args = env.args;
  trace_id = env.trace_context.trace_id;
  span_id = env.trace_context.span_id;
  status = pending;
  attempts = 0;
  max_attempts = get_max_attempts env.max_attempts;
  error_message = [];
  created_at = current_timestamp now;
  updated_at = current_timestamp now;
  locked_at = none;
  run_at = some run_at;
  unique_key = env.unique_key;
  batch_id = batch_id;
  priority = pos 0;
  tags = [];
}

unfoldable pub insert_batch_job : Text → JobEnvelope → Exec Db Unit
insert_batch_job batch_id env = do
  now ← time_now
  statement λ at. insert_new_job (batch_job_row batch_id env (get_run_at now env.run_at) at)

unfoldable pub enqueue_in_batch : Text → JobEnvelope → Exec Db Unit
unfolding update_batch_count insert_batch_job
enqueue_in_batch batch_id env =
    transaction
      do update_batch_count batch_id; acquire_unique_lock env; insert_batch_job batch_id env

unfoldable pub expire_now : Text → Exec Db Bool
expire_now id = do exec (λ _. set_batch_status id failed); pure true

unfoldable pub check_batch_expired : Text → Exec Db Bool
unfolding is_past expire_now
check_batch_expired id = do
  expires_at ←
      or_zero none
        (query_row λ db. Option.map (λ b. b.expires_at) (first (has_batch_id id) db.batches))
  past ← is_past expires_at
  if past then expire_now id else pure false

abbrev pub seal : BatchRow → BatchRow
seal b = record b { status = sealed }

unfoldable pub seal_batch : Text → Exec Db Progress
seal_batch id = statement λ _. update_batch_returning id seal

unfoldable pub complete_batch_and_enqueue : Text → Progress → Exec Db Unit
unfolding mark_batch_completed enqueue_callback
complete_batch_and_enqueue id p = do
  mark_batch_completed id
  enqueue_callback p.callback_queue p.callback_name p.callback_args

-- The body of SubmitBatch's transaction, which is committed whether or not the batch has expired.
unfoldable pub submit_batch_tx : Text → Exec Db Unit
unfolding check_batch_expired seal_batch complete_batch_and_enqueue
submit_batch_tx id = do
  expired ← check_batch_expired id
  if expired then pure tt else do
    p ← seal_batch id
    if is_zero p.pending_jobs then complete_batch_and_enqueue id p else pure tt

unfoldable pub submit_batch : Text → Exec Db Unit
unfolding submit_batch_tx
submit_batch id = transaction (submit_batch_tx id)

abbrev pub is_live : BatchStatus → Bool
is_live opened = true
is_live sealed = true
is_live _ = false

-- expires_at IS NOT NULL AND expires_at < ?
abbrev pub expired_before : ℕ → Option ℕ → Bool
expired_before now none = false
expired_before now (some t) = ltb t now

abbrev pub expire_batches : ℕ → Db → Db
expire_batches now db = record db {
  batches =
      update (λ b. is_live b.status && expired_before now b.expires_at)
        (λ b. record b { status = failed }) db.batches;
}

unfoldable pub fail_expired_batches : Exec Db Unit
fail_expired_batches = do now ← time_now; exec (λ _. expire_batches now)

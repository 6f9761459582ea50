-- ===== src/Sqlite/Jobs.antt =====
-- queue/sqlite.go, Enqueue, Dequeue and what they call.
pub mod Dequeue
pub mod Delivery
use orkai_runiq.Common.{
  ℕ, ◌≤◌, ℤ, pos, Text, text_eq, is_empty, join_commas, split, Bool, true, false, ◌&&◌, Option,
  none, some, List, [], ◌∷◌, ◌++◌, ltb, leb, ltb_ℤ, if◌then◌else◌, take,
}
use orkai_runiq.Queue.{JobEnvelope}
use orkai_runiq.Helpers.{get_run_at, get_max_attempts, match_tags}
use orkai_runiq.Sql.{
  Exec, pure, exec, query, time_now, transaction_if, ◌>>=◌, ◌>>◌, upsert, update, select, order_by,
}
use orkai_runiq.Sqlite.Tables.{
  Status, pending, running, JobRow, Db, current_timestamp, epoch_seconds, has_job_id, is_pending,
}
use orkai_runiq.Sqlite.Unique.{acquire_unique_lock}

abbrev pub inserted_row : JobEnvelope → ℕ → ℤ → ℕ → JobRow
inserted_row env run_at max_attempts now = record {
  job_id = env.job_id;
  queue = env.queue;
  name = env.name;
  args = env.args;
  trace_id = env.trace_context.trace_id;
  span_id = env.trace_context.span_id;
  status = pending;
  attempts = 0;
  max_attempts = max_attempts;
  error_message = [];
  created_at = current_timestamp now;
  updated_at = current_timestamp now;
  locked_at = none;
  run_at = some run_at;
  unique_key = env.unique_key;
  batch_id = [];
  priority = env.priority;
  tags = join_commas env.tags;
}

-- ON CONFLICT (job_id) DO UPDATE: the queue, the name and the arguments stay.
abbrev pub requeued_row : JobEnvelope → ℕ → ℤ → ℕ → JobRow → JobRow
requeued_row env run_at max_attempts now r = record r {
  status = pending;
  attempts = 0;
  max_attempts = max_attempts;
  run_at = some run_at;
  unique_key = env.unique_key;
  priority = env.priority;
  tags = join_commas env.tags;
  updated_at = current_timestamp now;
}

abbrev pub put_job : JobEnvelope → ℕ → ℤ → ℕ → Db → Db
put_job env run_at max_attempts now db = record db {
  jobs =
      upsert (has_job_id env.job_id) (requeued_row env run_at max_attempts now)
        (inserted_row env run_at max_attempts now) db.jobs;
}

unfoldable pub insert_job : JobEnvelope → ℕ → ℤ → Exec Db Unit
insert_job env run_at max_attempts = exec (put_job env run_at max_attempts)

unfoldable pub enqueue : JobEnvelope → Exec Db Unit
unfolding insert_job
enqueue env = do
  now ← time_now
  acquire_unique_lock env
  insert_job env (get_run_at now env.run_at) (get_max_attempts env.max_attempts)

-- run_at IS NULL OR strftime('%s', run_at) <= strftime('%s', 'now')
abbrev pub is_due : ℕ → Option ℕ → Bool
is_due now none = true
is_due now (some t) = leb (epoch_seconds t) (epoch_seconds now)

-- The WHERE clause of dequeueTx.
abbrev pub is_ready : Text → ℕ → JobRow → Bool
is_ready queue now r = text_eq r.queue queue && (is_pending r.status && is_due now r.run_at)

-- ORDER BY priority DESC, created_at ASC
abbrev pub comes_before : JobRow → JobRow → Bool
comes_before a b =
    if ltb_ℤ b.priority a.priority
    then true
    else if ltb_ℤ a.priority b.priority
    then false
    else ltb a.created_at b.created_at

unfoldable pub candidates : Text → ℕ → Db → List JobRow
candidates queue now db = take 100 (order_by comes_before (select (is_ready queue now) db.jobs))

-- scanJobFrom: the tags of a row.
unfoldable pub row_tags : JobRow → List Text
row_tags r = if is_empty r.tags then [] else split b',' r.tags

-- scanJobFrom: the columns that it reads.
abbrev pub scan_job_from : JobRow → JobEnvelope
scan_job_from r = record {
  trace_context = record { trace_id = r.trace_id; span_id = r.span_id };
  args = r.args;
  dependencies = [];
  tags = row_tags r;
  job_id = r.job_id;
  queue = r.queue;
  name = r.name;
  unique_key = r.unique_key;
  batch_id = r.batch_id;
  run_at = none;
  unique_ttl = pos 0;
  priority = r.priority;
  attempts = pos r.attempts;
  max_attempts = r.max_attempts;
}

unfoldable pub find_matching_job : List JobRow → List Text → Option JobEnvelope
find_matching_job [] worker_tags = none
find_matching_job (r ∷ rows) worker_tags =
    let env = scan_job_from r in
    if match_tags env.tags worker_tags then some env else find_matching_job rows worker_tags

-- UPDATE ... SET status = 'running', locked_at = CURRENT_TIMESTAMP
abbrev pub running_row : ℕ → JobRow → JobRow
running_row now r = record r { status = running; locked_at = some (current_timestamp now) }

abbrev pub mark_running : Text → ℕ → Db → Db
mark_running job_id now db = record db {
  jobs = update (has_job_id job_id) (running_row now) db.jobs;
}

unfoldable pub claim : Option JobEnvelope → Exec Db (Option JobEnvelope)
claim none = pure none
claim (some env) = do exec (mark_running env.job_id); pure (some env)

unfoldable pub dequeue_tx : Text → List Text → Exec Db (Option JobEnvelope)
unfolding claim
dequeue_tx queue worker_tags = do
  rows ← query (candidates queue)
  claim (find_matching_job rows worker_tags)

abbrev pub is_some : Option JobEnvelope → Bool
is_some none = false
is_some (some env) = true

-- The transaction is committed only with a job in hand.
unfoldable pub dequeue : Text → List Text → Exec Db (Option JobEnvelope)
unfolding dequeue_tx
dequeue queue worker_tags = transaction_if is_some (dequeue_tx queue worker_tags)

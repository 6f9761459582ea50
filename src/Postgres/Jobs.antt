-- ===== src/Postgres/Jobs.antt =====
-- queue/postgres.go, Enqueue, Dequeue and what they call.
pub mod Committed
pub mod Interleaving
use orkai_runiq.Common.{
  ℕ, ℤ, pos, Text, text_eq, join_commas, Bool, true, false, ◌&&◌, Option, none, some, List, [], ◌∷◌,
  leb, if◌then◌else◌, take,
}
use orkai_runiq.Queue.{JobEnvelope}
use orkai_runiq.Helpers.{get_run_at, get_max_attempts, match_tags}
use orkai_runiq.Sql.{
  Result, ok, err, Exec, pure, exec, query, statement, time_now, ◌>>=◌, ◌>>◌, upsert, update,
  select, order_by, first,
}
use orkai_runiq.Sqlite.Tables.{pending, running, JobRow, Db, has_job_id, is_pending}
use orkai_runiq.Sqlite.Jobs.{inserted_row, comes_before, scan_job_from, is_some}
use orkai_runiq.Postgres.{transaction_from}
use orkai_runiq.Postgres.Unique.{acquire_unique_lock}

-- created_at and updated_at default to CURRENT_TIMESTAMP.
abbrev pub new_row : JobEnvelope → ℕ → ℤ → ℕ → JobRow
new_row env run_at max_attempts now = record (inserted_row env run_at max_attempts now) {
  created_at = now;
  updated_at = now;
}

-- ON CONFLICT (job_id) DO UPDATE: the queue, the name and the arguments stay.
abbrev pub requeued_row : JobEnvelope → ℕ → ℤ → ℕ → JobRow → JobRow
requeued_row env run_at max_attempts now r = record r {
  status = pending;
  attempts = 0;
  max_attempts = max_attempts;
  run_at = some run_at;
  unique_key = env.unique_key;
  priority = env.priority;
  tags = join_commas env.tags;
  updated_at = now;
}

unfoldable pub insert_job : JobEnvelope → ℕ → ℤ → Exec Db Unit
insert_job env run_at max_attempts = exec λ now db. record db {
  jobs =
      upsert (has_job_id env.job_id) (requeued_row env run_at max_attempts now)
        (new_row env run_at max_attempts now) db.jobs;
}

unfoldable pub enqueue : JobEnvelope → Exec Db Unit
unfolding insert_job
enqueue env = do
  now ← time_now
  acquire_unique_lock false env
  insert_job env (get_run_at now env.run_at) (get_max_attempts env.max_attempts)

-- run_at IS NULL OR run_at <= CURRENT_TIMESTAMP
abbrev pub is_due : ℕ → Option ℕ → Bool
is_due now none = true
is_due now (some t) = leb t now

abbrev pub is_ready : Text → ℕ → JobRow → Bool
is_ready queue now r = text_eq r.queue queue && (is_pending r.status && is_due now r.run_at)

unfoldable pub candidates : Text → ℕ → Db → List JobRow
candidates queue now db = take 100 (order_by comes_before (select (is_ready queue now) db.jobs))

abbrev pub running_row : ℕ → JobRow → JobRow
running_row now r = record r { status = running; locked_at = some now }

abbrev pub is_free : Text → JobRow → Bool
is_free id r = has_job_id id r && is_pending r.status

-- UPDATE ... WHERE job_id = (SELECT ... AND status = 'pending' FOR UPDATE SKIP LOCKED) RETURNING ...;
-- no row is no error.
abbrev pub lock_row_of : Text → ℕ → Db → Option JobRow → Option JobEnvelope × Db
lock_row_of id now db none = (none, db)
lock_row_of id now db (some r) = (
  some (scan_job_from (running_row now r)),
  record db { jobs = update (has_job_id id) (running_row now) db.jobs },
)

unfoldable pub try_lock_job : ℕ → Text → Exec Db (Option JobEnvelope)
try_lock_job started id =
    statement λ _ db. ok (lock_row_of id started db (first (is_free id) db.jobs))

abbrev pub locked_or :
    Exec Db (Option JobEnvelope) → Option JobEnvelope → Exec Db (Option JobEnvelope)
locked_or rest none = rest
locked_or rest (some env) = pure (some env)

unfoldable pub lock_first_match : ℕ → List JobRow → List Text → Exec Db (Option JobEnvelope)
unfolding try_lock_job
lock_first_match started [] worker_tags = pure none
lock_first_match started (r ∷ rows) worker_tags =
    let rest = lock_first_match started rows worker_tags in
    let env = scan_job_from r in
    if match_tags env.tags worker_tags
    then (do locked ← try_lock_job started env.job_id; locked_or rest locked)
    else rest

unfoldable pub dequeue_tx : Text → List Text → ℕ → Exec Db (Option JobEnvelope)
unfolding candidates lock_first_match
dequeue_tx queue worker_tags started = do
  rows ← query λ _. candidates queue started
  lock_first_match started rows worker_tags

-- The transaction is committed only with a job in hand.
unfoldable pub dequeue : Text → List Text → Exec Db (Option JobEnvelope)
unfolding dequeue_tx transaction_from
dequeue queue worker_tags = transaction_from is_some (dequeue_tx queue worker_tags)

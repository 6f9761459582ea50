-- ===== src/Postgres/Admin.antt =====
-- The administration of jobs and queues: queue/postgres_admin.go, queue/postgres_search.go and
-- queue/postgres.go (ArchiveJobs).
pub mod Lost
use orkai_runiq.Common.{
  ℕ, zero, suc, ℤ, Text, text_eq, Bool, true, false, ◌&&◌, ◌||◌, some, List, [], ◌∷◌, ◌++◌, ltb,
  leb, ◌==◌, if◌then◌else◌, shift, map,
}
use orkai_runiq.Sql.{
  ok, Exec, pure, exec, query, statement, time_now, or_zero, ◌>>=◌, ◌>>◌, upsert, update, select,
  delete, exists, count,
}
use orkai_runiq.Sqlite.Tables.{
  pending, JobRow, DependencyRow, Db, has_job_id, is_dead, is_dead_or_failed,
}
use orkai_runiq.Sqlite.Burial.{Keys, no_keys, select_keys, update_job}
use orkai_runiq.Sqlite.Admin.{negated, queue_pattern, is_old}
use orkai_runiq.Postgres.{transaction_from, always, delete_job}
use orkai_runiq.Postgres.Unique.{delete_unique_lock}

-- CURRENT_TIMESTAMP: the time of the statement, or of the transaction around it.
abbrev pub reset_row : ℕ → JobRow → JobRow
reset_row now r = record r { status = pending; attempts = 0; run_at = some now; error_message = [] }

unfoldable pub retry : Text → Exec Db Unit
retry id = exec λ now. update_job id (reset_row now)

unfoldable pub retry_modified : Text → List ℕ → Exec Db Unit
retry_modified id args = exec λ now. update_job id (λ r. record (reset_row now r) { args = args })

unfoldable pub retry_all_failed : Exec Db Unit
retry_all_failed =
    exec λ now db. record db {
      jobs = update (λ r. is_dead_or_failed r.status) (reset_row now) db.jobs;
    }

-- The dependency rows of the jobs that satisfy p, which go with them.
abbrev pub delete_jobs : (JobRow → Bool) → Db → Db
delete_jobs p db = record db {
  jobs = delete p db.jobs;
  dependencies =
      delete (λ d. exists (λ r. p r && text_eq r.job_id d.job_id) db.jobs) db.dependencies;
}

unfoldable pub purge_all_failed : Exec Db Unit
purge_all_failed = exec λ _. delete_jobs (λ r. is_dead_or_failed r.status)

unfoldable pub purge_expired_dlq : ℤ → Exec Db Unit
purge_expired_dlq ttl = do
  now ← time_now
  exec λ _. delete_jobs (λ r. is_dead r.status && ltb r.updated_at (shift now (negated ttl)))

-- LIKE of PostgreSQL: letters match only in their case, and a backslash takes the next byte as it is.
unfoldable pub like : Text → Text → Bool
like [] [] = true
like [] (c ∷ cs) = false
like (p ∷ []) [] = p == b'%'
like (p ∷ q ∷ ps) [] = p == b'%' && like (q ∷ ps) []
like (p ∷ []) (c ∷ cs) = if p == b'%' then true else (p == b'_' || p == c) && like [] cs
like (p ∷ q ∷ ps) (c ∷ cs) =
    let skip = like (q ∷ ps) (c ∷ cs) in
    let more = like (p ∷ q ∷ ps) cs in
    let rest = like (q ∷ ps) cs in
    let literal = like ps cs in
    if p == b'%'
    then skip || more
    else if p == b'_'
    then rest
    else if p == 92
    then q == c && literal
    else p == c && rest

unfoldable pub clear_queue : Text → Exec Db Unit
unfolding transaction_from like
clear_queue queue = transaction_from always λ _. do
  exec (λ _. delete_jobs (λ r. text_eq r.queue queue))
  exec λ _ db. record db {
    unique_locks = delete (λ l. like (queue_pattern queue) l.lock_key) db.unique_locks;
  }

unfoldable pub is_queue_paused : Text → Exec Db Bool
is_queue_paused queue = query λ _ db. exists (text_eq queue) db.paused_queues

unfoldable pub pause_queue : Text → Exec Db Unit
pause_queue queue =
    exec
      λ _ db. record db { paused_queues = upsert (text_eq queue) (λ q. q) queue db.paused_queues }

unfoldable pub resume_queue : Text → Exec Db Unit
resume_queue queue =
    exec λ _ db. record db { paused_queues = delete (text_eq queue) db.paused_queues }

-- The loops of the bulk operations.
unfoldable pub for_each : (Text → Exec Db Unit) → List Text → Exec Db Unit
for_each f [] = pure tt
for_each f (id ∷ ids) = let rest = for_each f ids in do f id; rest

unfoldable pub bulk_retry : List Text → Exec Db Unit
unfolding for_each transaction_from
bulk_retry [] = pure tt
bulk_retry (id ∷ ids) =
    transaction_from always
      λ started. for_each (λ i. exec (λ _. update_job i (reset_row started))) (id ∷ ids)

unfoldable pub cancel_one_job : Text → Exec Db Unit
unfolding delete_unique_lock
cancel_one_job id = do
  keys ← or_zero no_keys (select_keys id)
  exec (λ _. delete_job id)
  delete_unique_lock keys.queue keys.unique_key

unfoldable pub bulk_cancel : List Text → Exec Db Unit
unfolding cancel_one_job for_each transaction_from
bulk_cancel [] = pure tt
bulk_cancel (id ∷ ids) = transaction_from always λ _. for_each cancel_one_job (id ∷ ids)

unfoldable pub bulk_purge : List Text → Exec Db Unit
unfolding for_each transaction_from
bulk_purge [] = pure tt
bulk_purge (id ∷ ids) =
    transaction_from always λ _. for_each (λ i. exec (λ _. delete_job i)) (id ∷ ids)

-- INSERT ... SELECT * ... ON CONFLICT (job_id) DO NOTHING: a job whose identifier is in the archive is
-- passed over.
abbrev pub archive_row : List JobRow → JobRow → List JobRow
archive_row archived r =
    if exists (has_job_id r.job_id) archived then archived else archived ++ r ∷ []

unfoldable pub archive_rows : List JobRow → List JobRow → List JobRow
archive_rows archived [] = archived
archive_rows archived (r ∷ rows) = archive_rows (archive_row archived r) rows

abbrev pub copy_to_archive : ℕ → Db → Db
copy_to_archive cutoff db = record db {
  archived_jobs = archive_rows db.archived_jobs (select (is_old cutoff) db.jobs);
}

unfoldable pub archive_tx : ℕ → Exec Db ℕ
unfolding archive_rows
archive_tx cutoff = do
  exec (λ _. copy_to_archive cutoff)
  statement λ _ db. ok (count (is_old cutoff) db.jobs, delete_jobs (is_old cutoff) db)

unfoldable pub archive_jobs : ℤ → Exec Db ℕ
unfolding archive_tx transaction_from
archive_jobs age = do
  now ← time_now
  transaction_from always λ _. archive_tx (shift now (negated age))

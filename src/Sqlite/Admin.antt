-- ===== src/Sqlite/Admin.antt =====
-- The administration of jobs and queues: queue/sqlite_admin.go, queue/sqlite_search.go (the bulk
-- operations), queue/sqlite_cron.go (RetryModified) and queue/sqlite.go (ArchiveJobs).
use orkai_runiq.Common.{
  ℕ, zero, suc, ◌+◌, ℤ, pos, negsuc, Text, text_eq, Bool, true, false, ◌&&◌, ◌||◌, some, List, [],
  ◌∷◌, ◌++◌, ltb, leb, ◌==◌, if◌then◌else◌, shift,
}
use orkai_runiq.Sql.{
  Exec, Result, ok, err, constraint, pure, exec, query, statement, time_now, or_zero, transaction,
  ◌>>=◌, ◌>>◌, upsert, update, select, delete, exists, count,
}
use orkai_runiq.Sqlite.Tables.{
  pending, JobRow, Db, current_timestamp, has_job_id, is_dead, is_dead_or_failed, is_archivable,
}
use orkai_runiq.Sqlite.Unique.{delete_unique_lock}
use orkai_runiq.Sqlite.Burial.{no_keys, select_keys, update_job}
use orkai_runiq.Sqlite.Outcome.{delete_job}

-- SET status = 'pending', attempts = 0, run_at = CURRENT_TIMESTAMP, error_message = ''
abbrev pub reset_row : ℕ → JobRow → JobRow
reset_row now r = record r {
  status = pending;
  attempts = 0;
  run_at = some (current_timestamp now);
  error_message = [];
}

unfoldable pub retry : Text → Exec Db Unit
retry id = exec λ now. update_job id (reset_row now)

unfoldable pub retry_modified : Text → List ℕ → Exec Db Unit
retry_modified id args = exec λ now. update_job id (λ r. record (reset_row now r) { args = args })

abbrev pub reset_failed : ℕ → Db → Db
reset_failed now db = record db {
  jobs = update (λ r. is_dead_or_failed r.status) (reset_row now) db.jobs;
}

unfoldable pub retry_all_failed : Exec Db Unit
retry_all_failed = exec reset_failed

unfoldable pub purge_all_failed : Exec Db Unit
purge_all_failed =
    exec λ _ db. record db { jobs = delete (λ r. is_dead_or_failed r.status) db.jobs }

-- time.Now().Add(-ttl)
abbrev pub negated : ℤ → ℤ
negated (pos zero) = pos 0
negated (pos (suc n)) = negsuc n
negated (negsuc n) = pos (suc n)

unfoldable pub purge_expired_dlq : ℤ → Exec Db Unit
purge_expired_dlq ttl = do
  now ← time_now
  exec λ _ db. record db {
    jobs = delete (λ r. is_dead r.status && ltb r.updated_at (shift now (negated ttl))) db.jobs;
  }

-- LIKE: `%` stands for any text, `_` for any byte, and ASCII letters match in either case.
abbrev pub folded : ℕ → ℕ
folded c = if leb b'A' c && leb c b'Z' then c + 32 else c

unfoldable pub like : Text → Text → Bool
like [] [] = true
like [] (c ∷ cs) = false
like (p ∷ ps) [] = p == b'%' && like ps []
like (p ∷ ps) (c ∷ cs) =
    let skip = like ps (c ∷ cs) in
    let more = like (p ∷ ps) cs in
    let rest = like ps cs in
    if p == b'%' then skip || more else if p == b'_' then rest else folded p == folded c && rest

-- The pattern queue + ":%"
abbrev pub queue_pattern : Text → Text
queue_pattern queue = queue ++ b':' ∷ b'%' ∷ []

abbrev pub delete_queue_jobs : Text → Db → Db
delete_queue_jobs queue db = record db { jobs = delete (λ r. text_eq r.queue queue) db.jobs }

abbrev pub delete_queue_locks : Text → Db → Db
delete_queue_locks queue db = record db {
  unique_locks = delete (λ l. like (queue_pattern queue) l.lock_key) db.unique_locks;
}

unfoldable pub clear_queue : Text → Exec Db Unit
clear_queue queue =
    transaction do exec (λ _. delete_queue_jobs queue); exec (λ _. delete_queue_locks queue)

unfoldable pub is_queue_paused : Text → Exec Db Bool
is_queue_paused queue = query λ _ db. exists (text_eq queue) db.paused_queues

unfoldable pub pause_queue : Text → Exec Db Unit
pause_queue queue =
    exec
      λ _ db. record db { paused_queues = upsert (text_eq queue) (λ q. q) queue db.paused_queues }

unfoldable pub resume_queue : Text → Exec Db Unit
resume_queue queue =
    exec λ _ db. record db { paused_queues = delete (text_eq queue) db.paused_queues }

unfoldable pub bulk_retry_loop : List Text → Exec Db Unit
bulk_retry_loop [] = pure tt
bulk_retry_loop (id ∷ ids) =
    let rest = bulk_retry_loop ids in do exec (λ now. update_job id (reset_row now)); rest

unfoldable pub bulk_retry : List Text → Exec Db Unit
unfolding bulk_retry_loop
bulk_retry [] = pure tt
bulk_retry (id ∷ ids) = transaction (bulk_retry_loop (id ∷ ids))

unfoldable pub cancel_one_job : Text → Exec Db Unit
cancel_one_job id = do
  keys ← or_zero no_keys (select_keys id)
  exec (λ _. delete_job id)
  delete_unique_lock keys.queue keys.unique_key

unfoldable pub bulk_cancel_loop : List Text → Exec Db Unit
unfolding cancel_one_job
bulk_cancel_loop [] = pure tt
bulk_cancel_loop (id ∷ ids) = let rest = bulk_cancel_loop ids in do cancel_one_job id; rest

unfoldable pub bulk_cancel : List Text → Exec Db Unit
unfolding bulk_cancel_loop
bulk_cancel [] = pure tt
bulk_cancel (id ∷ ids) = transaction (bulk_cancel_loop (id ∷ ids))

unfoldable pub bulk_purge_loop : List Text → Exec Db Unit
bulk_purge_loop [] = pure tt
bulk_purge_loop (id ∷ ids) = let rest = bulk_purge_loop ids in do exec (λ _. delete_job id); rest

unfoldable pub bulk_purge : List Text → Exec Db Unit
unfolding bulk_purge_loop
bulk_purge [] = pure tt
bulk_purge (id ∷ ids) = transaction (bulk_purge_loop (id ∷ ids))

-- status IN ('processed', 'dead') AND updated_at <= ?
abbrev pub is_old : ℕ → JobRow → Bool
is_old cutoff r = is_archivable r.status && leb r.updated_at cutoff

-- INSERT INTO runiq_archived_jobs SELECT * ...: a job that is in the archive already is an error.
abbrev pub clashes : List JobRow → List JobRow → Bool
clashes archived [] = false
clashes archived (r ∷ rs) =
    if exists (has_job_id r.job_id) archived then true else clashes archived rs

abbrev pub copy_to_archive : ℕ → Db → Result (Unit {0} × Db)
copy_to_archive cutoff db =
    if clashes db.archived_jobs (select (is_old cutoff) db.jobs)
    then err constraint
    else ok (tt, record db { archived_jobs = db.archived_jobs ++ select (is_old cutoff) db.jobs })

abbrev pub delete_old : ℕ → Db → Result (ℕ × Db)
delete_old cutoff db =
    ok (count (is_old cutoff) db.jobs, record db { jobs = delete (is_old cutoff) db.jobs })

unfoldable pub archive_tx : ℕ → Exec Db ℕ
archive_tx cutoff = do
  _ ← statement (λ _. copy_to_archive cutoff)
  statement (λ _. delete_old cutoff)

unfoldable pub archive_jobs : ℤ → Exec Db ℕ
unfolding archive_tx
archive_jobs age = do now ← time_now; transaction (archive_tx (shift now (negated age)))

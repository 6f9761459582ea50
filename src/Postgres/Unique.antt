-- ===== src/Postgres/Unique.antt =====
-- queue/postgres.go, acquireUniqueLock and what it calls; queue/postgres_admin.go, deleteUniqueLock.
use orkai_runiq.Common.{ℕ, Text, text_eq, is_empty, Bool, ◌&&◌, ltb, if◌then◌else◌, shift}
use orkai_runiq.Queue.{JobEnvelope}
use orkai_runiq.Sql.{
  Result, ok, Exec, pure, raise, exec, query, query_row, time_now, attempt, duplicate_job, ◌>>=◌,
  ◌>>◌, exists, first,
}
use orkai_runiq.Sqlite.Tables.{LockRow, Db, has_job_id, has_lock_key}
use orkai_runiq.Sqlite.Unique.{lock_ttl, insert_lock, replace_lock, lock_row, free_lock, found}

unfoldable pub get_lock_expires : JobEnvelope → Exec Db ℕ
get_lock_expires env = do now ← time_now; pure (shift now (lock_ttl env))

-- The lookup whose error the code drops. In a transaction the statement that fails has aborted it, so
-- that the statements after it fail too.
unfoldable pub holder_exists : Bool → LockRow → Exec Db (Result Bool)
holder_exists in_tx existing =
    let look = query λ _ db. exists (has_job_id existing.job_id) db.jobs in
    if in_tx then (do there ← look; pure (ok there)) else attempt look

unfoldable pub handle_lock_collision : Bool → LockRow → LockRow → Exec Db Unit
unfolding holder_exists
handle_lock_collision in_tx wanted existing = do
  r ← holder_exists in_tx existing
  now ← time_now
  if ltb now existing.expires_at && found r
      then raise duplicate_job
      else exec (λ _. replace_lock wanted)

unfoldable pub try_insert_lock : LockRow → Exec Db Unit
try_insert_lock wanted = exec λ _. insert_lock wanted

unfoldable pub check_lock_collision : Bool → LockRow → Exec Db Unit
unfolding handle_lock_collision
check_lock_collision in_tx wanted = do
  existing ← query_row λ db. first (has_lock_key wanted.lock_key) db.unique_locks
  if text_eq existing.job_id wanted.job_id
      then pure tt
      else handle_lock_collision in_tx wanted existing

-- q is the database itself or a transaction.
unfoldable pub acquire_unique_lock : Bool → JobEnvelope → Exec Db Unit
unfolding get_lock_expires try_insert_lock check_lock_collision
acquire_unique_lock in_tx env = if is_empty env.unique_key then pure tt else do
  expires_at ← get_lock_expires env
  try_insert_lock (lock_row env expires_at)
  check_lock_collision in_tx (lock_row env expires_at)

unfoldable pub delete_unique_lock : Text → Text → Exec Db Unit
delete_unique_lock queue unique_key =
    if is_empty unique_key then pure tt else exec (λ _. free_lock queue unique_key)

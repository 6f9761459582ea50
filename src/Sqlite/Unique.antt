-- ===== src/Sqlite/Unique.antt =====
-- queue/sqlite.go, acquireUniqueLock and what it calls; queue/sqlite_admin.go, deleteUniqueLock.
pub mod Exclusion
pub mod Lost
pub mod Holding
use orkai_runiq.Common.{
  ℕ, ◌*◌, ℤ, pos, Text, text_eq, is_empty, Bool, true, false, ◌&&◌, Option, none, some, List, ◌∷◌,
  ◌++◌, ltb, if◌then◌else◌, non_positive, shift,
}
use orkai_runiq.Queue.{JobEnvelope}
use orkai_runiq.Helpers.{second}
use orkai_runiq.Sql.{
  Exec, Result, ok, err, duplicate_job, pure, raise, exec, query, query_row, time_now, attempt,
  ◌>>=◌, ◌>>◌, upsert, exists, delete, first,
}
use orkai_runiq.Sqlite.Tables.{LockRow, Db, has_job_id, has_lock_key}

-- env.Queue + ":" + env.UniqueKey
unfoldable pub lock_key_of : Text → Text → Text
lock_key_of queue unique_key = queue ++ b':' ∷ unique_key

abbrev pub day : ℤ
day = pos (24 * 3600 * second)

abbrev pub lock_ttl : JobEnvelope → ℤ
lock_ttl env = if non_positive env.unique_ttl then day else env.unique_ttl

unfoldable pub get_lock_expires : JobEnvelope → Exec Db ℕ
get_lock_expires env = do now ← time_now; pure (shift now (lock_ttl env))

-- INSERT ... ON CONFLICT DO NOTHING
abbrev pub insert_lock : LockRow → Db → Db
insert_lock r db = record db {
  unique_locks = upsert (has_lock_key r.lock_key) (λ x. x) r db.unique_locks;
}

-- INSERT ... ON CONFLICT DO UPDATE SET job_id = ?, expires_at = ?
abbrev pub replace_lock : LockRow → Db → Db
replace_lock r db = record db {
  unique_locks =
      upsert (has_lock_key r.lock_key)
        (λ x. record x { job_id = r.job_id; expires_at = r.expires_at }) r db.unique_locks;
}

unfoldable pub try_insert_lock : LockRow → Exec Db Unit
try_insert_lock r = exec λ _. insert_lock r

-- The error of the query is dropped, and then the job counts as missing.
abbrev pub found : Result Bool → Bool
found (ok b) = b
found (err e) = false

unfoldable pub handle_lock_collision : LockRow → LockRow → Exec Db Unit
handle_lock_collision wanted existing = do
  r ← attempt (query λ _ db. exists (has_job_id existing.job_id) db.jobs)
  now ← time_now
  if ltb now existing.expires_at && found r
      then raise duplicate_job
      else exec (λ _. replace_lock wanted)

unfoldable pub check_lock_collision : LockRow → Exec Db Unit
unfolding handle_lock_collision
check_lock_collision wanted = do
  existing ← query_row λ db. first (has_lock_key wanted.lock_key) db.unique_locks
  if text_eq existing.job_id wanted.job_id then pure tt else handle_lock_collision wanted existing

abbrev pub lock_row : JobEnvelope → ℕ → LockRow
lock_row env expires_at = record {
  lock_key = lock_key_of env.queue env.unique_key;
  job_id = env.job_id;
  expires_at = expires_at;
}

unfoldable pub take_lock : LockRow → Exec Db Unit
unfolding try_insert_lock check_lock_collision
take_lock wanted = do try_insert_lock wanted; check_lock_collision wanted

unfoldable pub acquire_unique_lock : JobEnvelope → Exec Db Unit
unfolding get_lock_expires take_lock
acquire_unique_lock env =
    if is_empty env.unique_key
    then pure tt
    else do expires_at ← get_lock_expires env; take_lock (lock_row env expires_at)

abbrev pub free_lock : Text → Text → Db → Db
free_lock queue unique_key db = record db {
  unique_locks = delete (has_lock_key (lock_key_of queue unique_key)) db.unique_locks;
}

unfoldable pub delete_unique_lock : Text → Text → Exec Db Unit
delete_unique_lock queue unique_key =
    if is_empty unique_key then pure tt else exec (λ _. free_lock queue unique_key)

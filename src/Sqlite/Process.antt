-- ===== src/Sqlite/Process.antt =====
-- Coordination between processes: queue/sqlite_process.go (cron locks, rate limits, PostponeJob,
-- GetRunningJobsCount) and queue/sqlite.go (the leader lease).
pub mod Leases
pub mod CronLocks
pub mod RateLimits
use orkai_runiq.Common.{
  ℕ, ◌+◌, ◌-◌, ◌*◌, ◌/◌, ℤ, pos, Text, text_eq, Bool, true, false, ◌&&◌, not, Option, none, some,
  List, [], ◌∷◌, ◌++◌, ltb, leb, ltb_ℤ, leb_ℤ, ◌==◌, if◌then◌else◌, shift,
}
use orkai_runiq.Helpers.{second}
use orkai_runiq.Sql.{
  Exec, Result, ok, err, pure, raise, exec, query, statement, time_now, attempt, transaction_if,
  transaction_else, ◌>>=◌, ◌>>◌, upsert, update, delete, exists, count,
}
use orkai_runiq.Sqlite.Tables.{
  pending, JobRow, RateRow, CronLockRow, LeaseRow, Db, has_job_id, is_running,
}
use orkai_runiq.Sqlite.Burial.{update_job}
use orkai_runiq.Sqlite.Admin.{negated}

abbrev pub set_leader : Text → ℕ → Db → Db
set_leader holder expires_at db = record db {
  leader = some (record { holder_id = holder; expires_at = expires_at });
}

-- INSERT or UPDATE of the lease; time.Now().Add(ttl) is evaluated before it.
unfoldable pub write_lease : Text → ℤ → Exec Db Bool
write_lease client ttl = do now ← time_now; exec (λ _. set_leader client (shift now ttl)); pure true

-- time.Now() is read only where another client holds the lease.
unfoldable pub try_renew : Text → ℤ → LeaseRow → Exec Db Bool
unfolding write_lease
try_renew client ttl lease =
    if text_eq lease.holder_id client
    then write_lease client ttl
    else do now ← time_now; if ltb now lease.expires_at then pure false else write_lease client ttl

unfoldable pub with_lease : Text → ℤ → Option LeaseRow → Exec Db Bool
unfolding write_lease try_renew
with_lease client ttl none = write_lease client ttl
with_lease client ttl (some lease) = try_renew client ttl lease

unfoldable pub try_acquire : Text → ℤ → Exec Db Bool
unfolding with_lease
try_acquire client ttl = do lease ← query λ _ db. db.leader; with_lease client ttl lease

abbrev pub itself : Bool → Bool
itself b = b

-- A failed COMMIT is reported as a lost election.
unfoldable pub acquire_leader : Text → ℤ → Exec Db Bool
unfolding try_acquire
acquire_leader client ttl = transaction_else itself (ok false) (try_acquire client ttl)

abbrev pub drop_leader : Text → Option LeaseRow → Option LeaseRow
drop_leader client none = none
drop_leader client (some lease) = if text_eq lease.holder_id client then none else some lease

unfoldable pub release_leader : Text → Exec Db Unit
release_leader client = exec λ _ db. record db { leader = drop_leader client db.leader }

-- executionMinute.Truncate(time.Minute)
abbrev pub truncate_minute : ℕ → ℕ
truncate_minute t = t / (60 * second) * (60 * second)

abbrev pub same_execution : Text → ℕ → CronLockRow → Bool
same_execution name minute r = text_eq r.cron_name name && r.execution_minute == minute

-- INSERT ... ON CONFLICT DO NOTHING, with the number of rows that it inserts.
abbrev pub insert_cron_lock : CronLockRow → Db → Result (ℕ × Db)
insert_cron_lock r db =
    if exists (same_execution r.cron_name r.execution_minute) db.cron_locks
    then ok (0, db)
    else ok (1, record db { cron_locks = db.cron_locks ++ r ∷ [] })

abbrev pub hour : ℤ
hour = pos (3600 * second)

abbrev pub forget_cron_locks : ℕ → Db → Db
forget_cron_locks before db = record db {
  cron_locks = delete (λ r. ltb r.execution_minute before) db.cron_locks;
}

unfoldable pub lock_cron_execution : Text → ℕ → Exec Db Bool
lock_cron_execution name at = do
  now ← time_now
  _ ← attempt (exec (λ _. forget_cron_locks (shift now (negated hour))))
  acquired ← time_now
  rows ← statement λ _.
      insert_cron_lock
        (record { cron_name = name; execution_minute = truncate_minute at; acquired_at = acquired })
  pure (ltb 0 rows)

unfoldable pub get_running_jobs_count : Text → Exec Db ℕ
get_running_jobs_count name =
    query λ _ db. count (λ r. text_eq r.name name && is_running r.status) db.jobs

abbrev pub is_for : Text → RateRow → Bool
is_for name r = text_eq r.job_name name

abbrev pub forget_requests : Text → ℕ → Db → Db
forget_requests name before db = record db {
  rate_limits = delete (λ r. is_for name r && ltb r.request_timestamp before) db.rate_limits;
}

abbrev pub record_request : Text → ℕ → Db → Db
record_request name now db = record db {
  rate_limits = db.rate_limits ++ (record { job_name = name; request_timestamp = now }) ∷ [];
}

unfoldable pub evaluate_rate_limit : Text → ℤ → ℤ → Exec Db Bool
evaluate_rate_limit name limit period = do
  now ← time_now
  exec (λ _. forget_requests name (shift now (negated period)))
  requests ← query λ _ db. count (is_for name) db.rate_limits
  if leb_ℤ limit (pos requests)
      then pure false
      else do exec (λ _. record_request name now); pure true

unfoldable pub check_rate_limit : Text → ℤ → ℤ → Exec Db Bool
unfolding evaluate_rate_limit
check_rate_limit name limit period = transaction_if itself (evaluate_rate_limit name limit period)

unfoldable pub postpone_job : Text → ℤ → Exec Db Unit
postpone_job id delay = do
  now ← time_now
  exec λ _.
      update_job id
        (λ r. record r { status = pending; run_at = some (shift now delay); locked_at = none })

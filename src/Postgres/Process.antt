-- ===== src/Postgres/Process.antt =====
-- Coordination between processes: queue/postgres_process.go, the leader lease of queue/postgres.go, and
-- the cron schedules of queue/postgres_cron.go and queue/postgres_admin.go.
use orkai_runiq.Common.{
  ℕ, ℤ, pos, Text, text_eq, Bool, true, false, ◌&&◌, ◌||◌, Option, none, some, List, ltb, leb,
  leb_ℤ, if◌then◌else◌, shift,
}
use orkai_runiq.Sql.{
  Result, ok, Exec, pure, exec, query, statement, time_now, attempt, ◌>>=◌, ◌>>◌, count,
}
use orkai_runiq.Sqlite.Tables.{pending, LeaseRow, ProcessRow, Db, is_running}
use orkai_runiq.Sqlite.Burial.{update_job}
use orkai_runiq.Sqlite.Admin.{negated}
use orkai_runiq.Sqlite.Process.{
  truncate_minute, insert_cron_lock, hour, forget_cron_locks, is_for, forget_requests,
  record_request, itself, set_leader, drop_leader,
}
use orkai_runiq.Sqlite.Registry.{
  ProcessInfo, put_process, beat, fifteen_seconds, forget_processes, scan_processes, mark_holder,
}
use orkai_runiq.Postgres.{transaction_from}

-- INSERT ... ON CONFLICT DO UPDATE ... WHERE holder_id = $1 OR expires_at <= CURRENT_TIMESTAMP, with the
-- number of rows.
abbrev pub may_take : Text → ℕ → Option LeaseRow → Bool
may_take client now none = true
may_take client now (some lease) = text_eq lease.holder_id client || leb lease.expires_at now

abbrev pub upsert_lease : Text → ℕ → ℕ → Db → Result (ℕ × Db)
upsert_lease client expires_at now db =
    if may_take client now db.leader then ok (1, set_leader client expires_at db) else ok (0, db)

unfoldable pub acquire_leader : Text → ℤ → Exec Db Bool
acquire_leader client ttl = do
  now ← time_now
  rows ← statement (upsert_lease client (shift now ttl))
  pure (ltb 0 rows)

unfoldable pub release_leader : Text → Exec Db Unit
release_leader client = exec λ _ db. record db { leader = drop_leader client db.leader }

unfoldable pub lock_cron_execution : Text → ℕ → Exec Db Bool
lock_cron_execution name at = do
  now ← time_now
  _ ← attempt (exec (λ _. forget_cron_locks (shift now (negated hour))))
  acquired ← time_now
  rows ← statement λ _.
      insert_cron_lock
        (record { cron_name = name; execution_minute = truncate_minute at; acquired_at = acquired })
  pure (ltb 0 rows)

unfoldable pub get_running_jobs_count : Text → Exec Db ℕ
get_running_jobs_count name =
    query λ _ db. count (λ r. text_eq r.name name && is_running r.status) db.jobs

unfoldable pub evaluate_rate_limit : Text → ℤ → ℤ → Exec Db Bool
evaluate_rate_limit name limit period = do
  now ← time_now
  exec (λ _. forget_requests name (shift now (negated period)))
  requests ← query λ _ db. count (is_for name) db.rate_limits
  if leb_ℤ limit (pos requests)
      then pure false
      else do exec (λ _. record_request name now); pure true

unfoldable pub check_rate_limit : Text → ℤ → ℤ → Exec Db Bool
unfolding evaluate_rate_limit transaction_from
check_rate_limit name limit period =
    transaction_from itself λ _. evaluate_rate_limit name limit period

unfoldable pub postpone_job : Text → ℤ → Exec Db Unit
postpone_job id delay = do
  now ← time_now
  exec λ _.
      update_job id
        (λ r. record r { status = pending; run_at = some (shift now delay); locked_at = none })

unfoldable pub register_process : ProcessRow → Exec Db Unit
register_process r = exec λ _. put_process r

unfoldable pub heartbeat_process : Text → Exec Db Unit
heartbeat_process id = do now ← time_now; exec (λ _. beat id now)

-- time.Now() is read only where there is a lease.
unfoldable pub mark_with : Option LeaseRow → List ProcessInfo → Exec Db (List ProcessInfo)
unfolding mark_holder
mark_with none list = pure list
mark_with (some lease) list = do
  now ← time_now
  pure (if ltb lease.expires_at now then list else mark_holder lease.holder_id list)

unfoldable pub mark_leader : List ProcessInfo → Exec Db (List ProcessInfo)
unfolding mark_with
mark_leader list = do lease ← query λ _ db. db.leader; mark_with lease list

-- The error of the DELETE is dropped.
unfoldable pub get_active_processes : Exec Db (List ProcessInfo)
unfolding scan_processes mark_leader
get_active_processes = do
  now ← time_now
  _ ← attempt (exec (λ _. forget_processes (shift now (negated fifteen_seconds))))
  list ← query λ _. scan_processes
  mark_leader list

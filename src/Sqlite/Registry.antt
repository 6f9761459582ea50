-- ===== src/Sqlite/Registry.antt =====
-- The registry of processes: queue/sqlite_process.go, RegisterProcess, HeartbeatProcess and
-- GetActiveProcesses.
pub mod Leader
use orkai_runiq.Common.{
  ℕ, ◌*◌, ℤ, pos, Text, text_eq, Bool, true, false, Option, none, some, List, [], ◌∷◌, map, ltb,
  if◌then◌else◌, shift,
}
use orkai_runiq.Helpers.{second}
use orkai_runiq.Sql.{
  Exec, pure, exec, query, time_now, attempt, ◌>>=◌, ◌>>◌, upsert, update, delete, order_by,
}
use orkai_runiq.Sqlite.Tables.{ProcessRow, LeaseRow, Db}
use orkai_runiq.Sqlite.Admin.{negated}

pub record ProcessInfo : Type 0 where
  pub row : ProcessRow
  pub is_leader : Bool

abbrev pub has_process_id : Text → ProcessRow → Bool
has_process_id id r = text_eq r.process_id id

-- ON CONFLICT (process_id) DO UPDATE of every other column.
abbrev pub put_process : ProcessRow → Db → Db
put_process r db = record db {
  processes =
      upsert (has_process_id r.process_id) (λ x. record r { process_id = x.process_id }) r
        db.processes;
}

unfoldable pub register_process : ProcessRow → Exec Db Unit
register_process r = exec λ _. put_process r

abbrev pub beat : Text → ℕ → Db → Db
beat id now db = record db {
  processes = update (has_process_id id) (λ x. record x { heartbeat_at = now }) db.processes;
}

unfoldable pub heartbeat_process : Text → Exec Db Unit
heartbeat_process id = do now ← time_now; exec (λ _. beat id now)

abbrev pub fifteen_seconds : ℤ
fifteen_seconds = pos (15 * second)

abbrev pub forget_processes : ℕ → Db → Db
forget_processes before db = record db {
  processes = delete (λ r. ltb r.heartbeat_at before) db.processes;
}

-- ORDER BY heartbeat_at DESC
abbrev pub beats_later : ProcessRow → ProcessRow → Bool
beats_later a b = ltb b.heartbeat_at a.heartbeat_at

unfoldable pub scan_processes : Db → List ProcessInfo
scan_processes db =
    map (λ r. record { row = r; is_leader = false }) (order_by beats_later db.processes)

unfoldable pub mark_holder : Text → List ProcessInfo → List ProcessInfo
mark_holder leader [] = []
mark_holder leader (p ∷ ps) =
    (if text_eq p.row.process_id leader then record p { is_leader = true } else p)
    ∷ mark_holder leader ps

-- time.Now() is read only where there is a lease.
unfoldable pub mark_with : Option LeaseRow → List ProcessInfo → Exec Db (List ProcessInfo)
unfolding mark_holder
mark_with none list = pure list
mark_with (some lease) list = do
  now ← time_now
  pure (if ltb lease.expires_at now then list else mark_holder lease.holder_id list)

unfoldable pub mark_leader : List ProcessInfo → Exec Db (List ProcessInfo)
unfolding mark_with
mark_leader list = do lease ← query λ _ db. db.leader; mark_with lease list

-- The error of the DELETE is dropped.
unfoldable pub get_active_processes : Exec Db (List ProcessInfo)
unfolding scan_processes mark_leader
get_active_processes = do
  now ← time_now
  _ ← attempt (exec (λ _. forget_processes (shift now (negated fifteen_seconds))))
  list ← query λ _. scan_processes
  mark_leader list

-- ===== src/Examples/Processes.antt =====
-- Runs of the operations that coordinate processes.
use orkai_runiq.Common.{
  ℤ, pos, ◌*◌, ◌≤◌, ◌≡◌, ◌≢◌, refl, codes, text_eq, true, false, some, arith, shift,
}
use orkai_runiq.Helpers.{second}
use orkai_runiq.Sql.{
  ok, World, statement, exec, query, pure, time_now, ◌>>=◌, attempt, insert_before, order_by,
  transaction_if, transaction_else,
}
use orkai_runiq.Sqlite.Tables.{Db, empty}
use orkai_runiq.Sqlite.Admin.{negated}
use orkai_runiq.Sqlite.Process.{
  acquire_leader, try_acquire, with_lease, try_renew, write_lease, lock_cron_execution,
  truncate_minute, hour, check_rate_limit, evaluate_rate_limit,
}
use orkai_runiq.Sqlite.Process.Leases.{IsLeader, acquire_leader-IsLeader, acquire_leader_waits}
use orkai_runiq.Sqlite.Process.CronLocks.{IsAfter, at_once, lock_cron_execution_once}
use orkai_runiq.Sqlite.Process.RateLimits.{IsWithin, check_rate_limit-IsWithin}
use orkai_runiq.Common.{In, inl, Text, [], ◌∷◌}
use orkai_runiq.Sql.{insert_before, order_by}
use orkai_runiq.Sqlite.Tables.{ProcessRow, CronJob}
use orkai_runiq.Sqlite.Registry.{
  ProcessInfo, get_active_processes, scan_processes, mark_leader, mark_with, mark_holder,
}
use orkai_runiq.Sqlite.Registry.Leader.{IsLeading, get_active_processes-IsLeading}
use orkai_runiq.Sqlite.Schedules.{save_cron_schedule, get_cron_schedules}
use orkai_runiq.Sqlite.Schedules.Saved.{save_cron_schedule-get_cron_schedules}
use orkai_runiq.Examples.{sunny, id_a, id_b, seconds_pass, fresh_id}

abbrev minute : ℤ
minute = pos (60 * second)

abbrev elected : World Db
elected = (acquire_leader id_a minute (sunny empty)).1

elects : acquire_leader id_a minute (sunny empty) ≡ (ok true, elected)
unfolding acquire_leader try_acquire with_lease try_renew write_lease text_eq statement exec query
    pure time_now ◌>>=◌ transaction_else
elects = refl

acquire_leader-IsLeader_example : IsLeader id_a minute seconds_pass 2 elected.db
acquire_leader-IsLeader_example = acquire_leader-IsLeader id_a minute (sunny empty) elected elects

-- A clock that stands still at ten seconds.
abbrev standing : Db → World Db
standing db = record {
  outside = record { clock = λ n. 10 * second; fails = λ n. false; job_id = fresh_id };
  step = 0;
  db = db;
}

abbrev led : Db
led = record empty { leader = some (record { holder_id = id_a; expires_at = 20 * second }) }

acquire_leader_waits_example :
    ((acquire_leader id_b minute (standing led)).0 ≢ ok true)
    × ((acquire_leader id_b minute (standing led)).1.db.leader
        ≡ some (record { holder_id = id_a; expires_at = 20 * second }))
acquire_leader_waits_example =
    acquire_leader_waits id_b minute (standing led)
      (record { holder_id = id_a; expires_at = 20 * second }) refl (λ e. ground arith)
      (λ n. omega arith)

abbrev locked : World Db
locked = (lock_cron_execution (codes "report") (90 * second) (sunny empty)).1

locks : lock_cron_execution (codes "report") (90 * second) (sunny empty) ≡ (ok true, locked)
unfolding lock_cron_execution text_eq statement exec pure time_now ◌>>=◌ attempt
locks = refl

-- Another job's lock comes in between.
abbrev other_lock : World Db
other_lock = (lock_cron_execution (codes "clean") (100 * second) locked).1

early : shift (locked.outside.clock locked.step) (negated hour) ≤ truncate_minute (90 * second)
unfolding lock_cron_execution text_eq statement exec pure time_now ◌>>=◌ attempt
early = omega arith

late :
    shift (other_lock.outside.clock other_lock.step) (negated hour) ≤ truncate_minute (90 * second)
unfolding lock_cron_execution text_eq statement exec pure time_now ◌>>=◌ attempt
late = omega arith

lock_cron_execution_once_example :
    (lock_cron_execution (codes "report") (110 * second) other_lock).0 ≢ ok true
lock_cron_execution_once_example =
    lock_cron_execution_once (codes "report") (90 * second) (110 * second) (sunny empty) locked
      other_lock locks (IsAfter.locks (codes "clean") (100 * second) locked at_once early) refl late

abbrev let_through : World Db
let_through = (check_rate_limit (codes "send") (pos 1) minute (sunny empty)).1

lets_through : check_rate_limit (codes "send") (pos 1) minute (sunny empty) ≡ (ok true, let_through)
unfolding check_rate_limit evaluate_rate_limit text_eq statement exec query pure time_now ◌>>=◌
    transaction_if transaction_else
lets_through = refl

check_rate_limit-IsWithin_example :
    IsWithin (codes "send") (pos 1) (shift (seconds_pass 1) (negated minute)) let_through.db
check_rate_limit-IsWithin_example =
    check_rate_limit-IsWithin (codes "send") (pos 1) (60 * second) (sunny empty) let_through
      lets_through

abbrev process : Text → ProcessRow
process id = record {
  process_id = id;
  concurrency = pos 4;
  queues = codes "mail" ∷ [];
  heartbeat_at = 10 * second;
  min_concurrency = pos 0;
  max_concurrency = pos 0;
}

abbrev two_processes : Db
two_processes = record led { processes = process id_a ∷ process id_b ∷ [] }

abbrev shown : ProcessInfo
shown = record { row = process id_a; is_leader = true }

shows : get_active_processes (standing two_processes) ≡ (
  ok (shown ∷ (record { row = process id_b; is_leader = false }) ∷ []),
  (get_active_processes (standing two_processes)).1,
)
unfolding get_active_processes scan_processes mark_leader mark_with mark_holder text_eq statement
    exec query pure time_now ◌>>=◌ attempt insert_before order_by
shows = refl

get_active_processes-IsLeading_example :
    IsLeading shown (10 * second) (get_active_processes (standing two_processes)).1.db
get_active_processes-IsLeading_example =
    get_active_processes-IsLeading (shown ∷ (record { row = process id_b; is_leader = false }) ∷ [])
      shown (standing two_processes) (get_active_processes (standing two_processes)).1 shows
      (inl refl) refl

abbrev nightly : CronJob
nightly = record {
  payload = [];
  spec = codes "0 3 * * *";
  name = codes "nightly";
  queue = codes "mail";
  timezone = codes "UTC";
  paused = false;
}

abbrev scheduled : World Db
scheduled = (save_cron_schedule nightly (sunny empty)).1

saves : save_cron_schedule nightly (sunny empty) ≡ (ok tt, scheduled)
unfolding save_cron_schedule statement exec
saves = refl

lists : get_cron_schedules scheduled ≡ (ok (nightly ∷ []), (get_cron_schedules scheduled).1)
unfolding save_cron_schedule get_cron_schedules text_eq statement exec query insert_before order_by
lists = refl

save_cron_schedule-get_cron_schedules_example : In nightly (nightly ∷ [])
save_cron_schedule-get_cron_schedules_example =
    save_cron_schedule-get_cron_schedules nightly (sunny empty) scheduled scheduled
      (get_cron_schedules scheduled).1 (nightly ∷ []) saves refl lists

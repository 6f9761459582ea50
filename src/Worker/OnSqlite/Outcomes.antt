-- ===== src/Worker/OnSqlite/Outcomes.antt =====
-- What a pool reports of a failed job, and what the SQLite storage makes of it: queue/worker.go,
-- finalizeJobFailure, and queue/sqlite_admin.go, Fail.
use orkai_runiq.Common.{◌⊎◌, ◌≡◌, Text}
use orkai_runiq.Queue.{JobEnvelope}
use orkai_runiq.Sql.{World, next}
use orkai_runiq.Sqlite.Tables.{JobRow, Db}
use orkai_runiq.Sqlite.Burial.Cascade.{Fallen}
use orkai_runiq.Sqlite.Outcome.Failing.{rescheduled}
use orkai_runiq.Worker.{PoolState, EventType, job_failed, job_dead, inside}

-- The event of a failure and the row of the job agree: the handlers hear of a failure, and the job has
-- been put back to pending for another attempt after the backoff delay, with one more counted, or they
-- hear of a death, and the job has fallen with all that depends on it.
abbrev pub Agrees : World (PoolState Db) → JobEnvelope → Text → JobRow → EventType → Db → Type 0
Agrees w env message r kind db =
    ((kind ≡ job_failed)
      × (db ≡ rescheduled env.job_id message r.attempts (next (next (inside w)))))
    ⊎ ((kind ≡ job_dead) × Fallen w.db.stored.dependencies env.job_id db)

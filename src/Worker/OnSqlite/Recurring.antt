-- ===== src/Worker/OnSqlite/Recurring.antt =====
-- Cron and interval jobs over the SQLite storage: queue/worker.go, EnqueueCronJob, EnqueueIntervalJob
-- and mergeCronJobs, with queue/sqlite_process.go, LockCronExecution.
use orkai_runiq.Common.{
  ℕ, ◌≤◌, ◌≡◌, ◌≢◌, refl, sym, ap, subst, Text, Bool, true, false, List, arith, shift,
}
use orkai_runiq.Queue.{JobEnvelope}
use orkai_runiq.Sql.{
  Result, ok, err, World, Exec, pure, attempt, ◌>>=◌, Keeps, Keeps-bind, Keeps-exec, Keeps-pure,
  Keeps-attempt, Keeps-time_now, Keeps-statement,
}
use orkai_runiq.Sqlite.Tables.{Db, JobRow, CronJob, CronLockRow}
use orkai_runiq.Sqlite.Admin.{negated}
use orkai_runiq.Sqlite.Process.{lock_cron_execution, truncate_minute, hour, insert_cron_lock}
use orkai_runiq.Sqlite.Process.CronLocks.{IsAfter, lock_cron_execution_once}
use orkai_runiq.Worker.{WorkerPool, PoolState, IntervalJob, WorkerPoolStorage, call, inside, around}
use orkai_runiq.Worker.Crons.{enqueue_given, enqueue_cron_job, create_cron_envelope}
use orkai_runiq.Worker.Intervals.{interval_envelope, enqueue_interval_job}
use orkai_runiq.Worker.OnSqlite.{sqlite_pool_storage}

same_jobs_after :
    (r : CronLockRow) (js : List JobRow) (db t : Db) (n : ℕ)
    → db.jobs ≡ js
    → insert_cron_lock r db ≡ ok (n, t)
    → t.jobs ≡ js
same_jobs_after r js db t n h e = ground (arith, h, e)

lock_cron_execution-Keeps :
    (js : List JobRow) (name : Text) (at : ℕ)
    → Keeps (λ (db : Db). db.jobs ≡ js) (lock_cron_execution name at)
unfolding lock_cron_execution
lock_cron_execution-Keeps js name at = Keeps-bind _ _ Keeps-time_now λ now.
    Keeps-bind _ _ (Keeps-attempt _ (Keeps-exec _ (λ t db h. h))) λ u.
      Keeps-bind _ _ Keeps-time_now λ acquired.
        Keeps-bind _ _ (Keeps-statement _ (λ t db h n s e. same_jobs_after _ js db s n h e))
          λ rows. Keeps-pure _

-- An action that adds and changes no job and calls no event handler.
pub record Untouched (v : World (PoolState Db)) (m : Exec (PoolState Db) Unit) : Type 0 where
  pub jobs : (m v).1.db.stored.jobs ≡ v.db.stored.jobs
  pub handled : (m v).1.db.handled ≡ v.db.handled

module _ (pool : WorkerPool Db) (fuel : ℕ) where
  -- The lock and what follows it, which EnqueueCronJob and EnqueueIntervalJob share.
  abbrev pub enqueue_locked : Text → ℕ → JobEnvelope → Exec (PoolState Db) Unit
  enqueue_locked name at env = do
    lock ← attempt (call (pool.storage.lock_cron_execution name at))
    enqueue_given pool env lock

  nothing_given :
      (env : JobEnvelope) (r : Result Bool) (w : World (PoolState Db))
      → r ≢ ok true
      → enqueue_given pool env r w ≡ (ok tt, w)
  unfolding enqueue_given pure
  nothing_given env (ok true) w h = absurd (h refl)
  nothing_given env (ok false) w h = refl
  nothing_given env (err e) w h = refl

  after_refusal :
      (m : Exec Db Bool) (env : JobEnvelope) (v : World (PoolState Db))
      → Keeps (λ db. db.jobs ≡ v.db.stored.jobs) m
      → (m (inside v)).0 ≢ ok true
      → Untouched v (do lock ← attempt (call m); enqueue_given pool env lock)
  unfolding call attempt ◌>>=◌
  after_refusal m env v keeps refused =
      let same = nothing_given env (m (inside v)).0 (around v (m (inside v)).1) refused in
      record { jobs = rw same (keeps.at (inside v) refl); handled = rw same refl }

  refused_lock :
      (name : Text) (at : ℕ) (env : JobEnvelope) (v : World (PoolState Db))
      → pool.storage ≡ sqlite_pool_storage fuel
      → (lock_cron_execution name at (inside v)).0 ≢ ok true
      → Untouched v (enqueue_locked name at env)
  refused_lock name at env v sqlite refused =
      subst
        (λ (m : Exec Db Bool).
          Untouched v (do lock ← attempt (call m); enqueue_given pool env lock))
        (ap (λ (s : WorkerPoolStorage Db). s.lock_cron_execution name at) (sym sqlite))
        (after_refusal (lock_cron_execution name at) env v
          (lock_cron_execution-Keeps v.db.stored.jobs name at) refused)

  -- Over the SQLite storage, once the lock of a recurring job has been given for a block of time, an
  -- interval job of that name whose block begins in the same minute is not enqueued and not announced,
  -- whatever its interval and whatever fails, and whatever other calls of LockCronExecution and changes
  -- outside the cron locks come in between, as long as none of the calls after the first reads a time
  -- more than an hour after the minute.
  pub enqueue_interval_job_once :
      (job : IntervalJob) (first block : ℕ) (w w' : World Db) (v : World (PoolState Db))
      → pool.storage ≡ sqlite_pool_storage fuel
      → lock_cron_execution job.name first w ≡ (ok true, w')
      → IsAfter (truncate_minute first) w'.db v.db.stored
      → truncate_minute block ≡ truncate_minute first
      → shift (v.outside.clock v.step) (negated hour) ≤ truncate_minute first
      → Untouched v (enqueue_interval_job pool job block)
  unfolding enqueue_interval_job
  enqueue_interval_job_once job first block w w' v sqlite given between minute late =
      refused_lock job.name block (interval_envelope job block) v sqlite
        (lock_cron_execution_once job.name first block w w' (inside v) given between minute late)

  -- The same of a cron job at two times of one minute, on pools that share the storage.
  pub enqueue_cron_job_once :
      (c : CronJob) (first now : ℕ) (w w' : World Db) (v : World (PoolState Db))
      → pool.storage ≡ sqlite_pool_storage fuel
      → lock_cron_execution c.name first w ≡ (ok true, w')
      → IsAfter (truncate_minute first) w'.db v.db.stored
      → truncate_minute now ≡ truncate_minute first
      → shift (v.outside.clock v.step) (negated hour) ≤ truncate_minute first
      → Untouched v (enqueue_cron_job pool c now)
  unfolding enqueue_cron_job
  enqueue_cron_job_once c first now w w' v sqlite given between minute late =
      refused_lock c.name now (create_cron_envelope c now) v sqlite
        (lock_cron_execution_once c.name first now w w' (inside v) given between minute late)

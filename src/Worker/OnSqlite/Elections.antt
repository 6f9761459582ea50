-- ===== src/Worker/OnSqlite/Elections.antt =====
-- Which pool does the work of the leader, over the SQLite storage: queue/worker.go, electLeader and
-- the loops that ask checkLeader, with queue/sqlite.go, AcquireLeader.
use orkai_runiq.Common.{
  ℕ, suc, ◌<◌, ◌≡◌, ◌≢◌, ◌∙◌, refl, sym, ap, subst, non_positive, Text, Bool, true, false, some,
  List, arith,
}
use orkai_runiq.Sql.{Result, ok, err, World, Exec, pure, attempt, ◌>>=◌}
use orkai_runiq.Sqlite.Tables.{LeaseRow, Db}
use orkai_runiq.Sqlite.Process.{acquire_leader}
use orkai_runiq.Sqlite.Process.Leases.{IsLeader, acquire_leader-IsLeader, acquire_leader_waits}
use orkai_runiq.Worker.{WorkerPool, PoolState, call, inside}
use orkai_runiq.Worker.Leading.{
  leads_after, check_leader, elect_leader, if_leader, purge_dlq_if_leader,
  fail_expired_batches_if_leader, run_archival, poll_queues_scheduled,
}
use orkai_runiq.Worker.Crons.{cron_tick}
use orkai_runiq.Worker.Intervals.{interval_tick}
use orkai_runiq.Worker.OnSqlite.{sqlite_pool_storage}

-- The work of the loops that ask checkLeader.
pub data Duty : Type 0 where
  purge_dlq fail_batches archive crons intervals : Duty
  poll : List Text → Duty

abbrev pub do_duty : {S : Type 0} → WorkerPool S → Duty → Exec (PoolState S) Unit
do_duty pool purge_dlq = purge_dlq_if_leader pool
do_duty pool fail_batches = fail_expired_batches_if_leader pool
do_duty pool archive = run_archival pool
do_duty pool crons = cron_tick pool
do_duty pool intervals = interval_tick pool
do_duty pool (poll queues) = poll_queues_scheduled pool queues

module _ {S : Type 0} (pool : WorkerPool S) where
  if_leader_idle :
      (work : Exec (PoolState S) Unit) (w : World (PoolState S))
      → non_positive pool.leader_ttl ≡ false
      → w.db.is_leader ≡ false
      → if_leader pool work w ≡ (ok tt, w)
  unfolding if_leader check_leader ◌>>=◌ pure
  if_leader_idle work w ttl follows = rw (ttl, follows) refl

  -- A pool that is not the leader does none of its work.
  idle :
      (duty : Duty) (w : World (PoolState S))
      → non_positive pool.leader_ttl ≡ false
      → w.db.is_leader ≡ false
      → do_duty pool duty w ≡ (ok tt, w)
  unfolding purge_dlq_if_leader fail_expired_batches_if_leader run_archival poll_queues_scheduled
      cron_tick interval_tick
  idle purge_dlq w ttl follows = if_leader_idle _ w ttl follows
  idle fail_batches w ttl follows = if_leader_idle _ w ttl follows
  idle archive w ttl follows = if_leader_idle _ w ttl follows
  idle crons w ttl follows = if_leader_idle _ w ttl follows
  idle intervals w ttl follows = if_leader_idle _ w ttl follows
  idle (poll queues) w ttl follows = if_leader_idle _ w ttl follows

module _ (pool : WorkerPool Db) (fuel : ℕ) where
  -- The state after an election.
  election :
      (w : World (PoolState Db))
      → pool.storage ≡ sqlite_pool_storage fuel
      → ((elect_leader pool w).1.db.is_leader
          ≡ leads_after (acquire_leader pool.process_id pool.leader_ttl (inside w)).0)
        × ((elect_leader pool w).1.db.stored
            ≡ (acquire_leader pool.process_id pool.leader_ttl (inside w)).1.db)
  unfolding elect_leader call attempt ◌>>=◌
  election w sqlite = rw sqlite (refl, refl)

  leads : (out : Result Bool × World Db) → leads_after out.0 ≡ true → out ≡ (ok true, out.1)
  leads (ok b, w) h = ground (arith, h)
  leads (err e, w) h = absurd (ground (arith, h))

  waits : (r : Result Bool) → r ≢ ok true → leads_after r ≡ false
  waits (ok true) h = absurd (h refl)
  waits (ok false) h = refl
  waits (err e) h = refl

  -- Over the SQLite storage, a pool that takes itself for the leader after an election holds the
  -- lease, for its time to live from a time that it has read in the election.
  pub elect_leader-IsLeader :
      (w : World (PoolState Db))
      → pool.storage ≡ sqlite_pool_storage fuel
      → (elect_leader pool w).1.db.is_leader ≡ true
      → IsLeader pool.process_id pool.leader_ttl w.outside.clock
          (suc (suc w.step))
          (elect_leader pool w).1.db.stored
  elect_leader-IsLeader w sqlite h =
      let (status, stored) = election w sqlite in
      let out = acquire_leader pool.process_id pool.leader_ttl (inside w) in
      subst (IsLeader pool.process_id pool.leader_ttl w.outside.clock (suc (suc w.step)))
        (sym stored)
        (acquire_leader-IsLeader pool.process_id pool.leader_ttl (inside w) out.1
          (leads out (sym status ∙ h)))

  -- Over the SQLite storage, while the lease of another process lasts by the clock that a pool with
  -- leader election reads, an election leaves it without the lead, whatever fails, and then none of the
  -- leader's work changes anything: no purge, archival, batch timeout, poll, cron or interval job.
  pub elect_leader_idle :
      (w : World (PoolState Db)) (l : LeaseRow) (duty : Duty)
      → pool.storage ≡ sqlite_pool_storage fuel
      → non_positive pool.leader_ttl ≡ false
      → w.db.stored.leader ≡ some l
      → l.holder_id ≢ pool.process_id
      → ((n : ℕ) → w.outside.clock n < l.expires_at)
      → (do_duty pool duty (elect_leader pool w).1 ≡ (ok tt, (elect_leader pool w).1))
        × ((elect_leader pool w).1.db.stored.leader ≡ some l)
  elect_leader_idle w l duty sqlite ttl held other lasts =
      let (status, stored) = election w sqlite in
      let (lost, same) =
        acquire_leader_waits pool.process_id pool.leader_ttl (inside w) l held other lasts in
      (
        idle pool duty (elect_leader pool w).1 ttl (status ∙ waits _ lost),
        ap (λ (db : Db). db.leader) stored ∙ same,
      )

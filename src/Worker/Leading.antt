-- ===== src/Worker/Leading.antt =====
-- queue/worker.go: the election of a leader and the work that only the leader does.
use orkai_runiq.Common.{non_positive, Text, Bool, false, ◌||◌, List, [], ◌∷◌, if◌then◌else◌}
use orkai_runiq.Sql.{Result, ok, err, Exec, pure, attempt, ◌>>=◌, ◌>>◌}
use orkai_runiq.Worker.{WorkerPool, PoolState, call, modify, inspect}

-- The status after AcquireLeader: an error ends it.
abbrev pub leads_after : Result Bool → Bool
leads_after (ok leads) = leads
leads_after (err e) = false

module _ {S : Type 0} (pool : WorkerPool S) where
  unfoldable pub check_leader : Exec (PoolState S) Bool
  check_leader = inspect λ s. non_positive pool.leader_ttl || s.is_leader

  unfoldable pub elect_leader : Exec (PoolState S) Unit
  unfolding call
  elect_leader = do
    r ← attempt (call (pool.storage.acquire_leader pool.process_id pool.leader_ttl))
    modify λ s. record s { is_leader = leads_after r }

  -- A call of the storage whose error is dropped or only logged.
  unfoldable pub quietly : {A : Type 0} → Exec S A → Exec (PoolState S) Unit
  unfolding call
  quietly m = do _ ← attempt (call m); pure tt

  -- Work for the leader only.
  unfoldable pub if_leader : Exec (PoolState S) Unit → Exec (PoolState S) Unit
  unfolding check_leader
  if_leader work = do leads ← check_leader; if leads then work else pure tt

  unfoldable pub purge_dlq_if_leader : Exec (PoolState S) Unit
  unfolding if_leader quietly
  purge_dlq_if_leader = if_leader (quietly (pool.storage.purge_expired_dlq pool.dlq_ttl))

  unfoldable pub fail_expired_batches_if_leader : Exec (PoolState S) Unit
  unfolding if_leader quietly
  fail_expired_batches_if_leader = if_leader (quietly pool.storage.fail_expired_batches)

  unfoldable pub run_archival : Exec (PoolState S) Unit
  unfolding if_leader quietly
  run_archival = if_leader (quietly (pool.storage.archive_jobs pool.archival_age))

  unfoldable pub poll_each : List Text → Exec (PoolState S) Unit
  unfolding quietly
  poll_each [] = pure tt
  poll_each (q ∷ queues) =
      let rest = poll_each queues in do quietly (pool.storage.poll_scheduled q); rest

  unfoldable pub poll_queues_scheduled : List Text → Exec (PoolState S) Unit
  unfolding if_leader poll_each
  poll_queues_scheduled queues = if_leader (poll_each queues)

  -- startDLQAutopurge does nothing without a time to live.
  unfoldable pub dlq_autopurge : Exec (PoolState S) Unit
  unfolding purge_dlq_if_leader
  dlq_autopurge = if non_positive pool.dlq_ttl then pure tt else purge_dlq_if_leader

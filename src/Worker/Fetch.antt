-- ===== src/Worker/Fetch.antt =====
-- queue/worker.go: the choice of a queue, and a job that may run now.
pub mod Turns
pub mod Cycle
pub mod Limits
use orkai_runiq.Common.{
  ℕ, zero, suc, ◌+◌, ◌%◌, ◌^◌, ◌*◌, ℤ, pos, ltb_ℤ, Text, text_eq, Bool, true, false, ◌&&◌, not,
  Option, none, some, List, [], ◌∷◌, length, if◌then◌else◌,
}
use orkai_runiq.Queue.{JobEnvelope}
use orkai_runiq.Helpers.{second}
use orkai_runiq.Sql.{Result, ok, err, Exec, pure, attempt, ◌>>=◌, ◌>>◌}
use orkai_runiq.Worker.{WorkerPool, PoolState, HandlerConfig, call, modify, inspect, find_key}

abbrev pub one_second : ℤ
one_second = pos second

-- `err == nil && paused`
abbrev pub is_paused : Result Bool → Bool
is_paused (ok paused) = paused
is_paused (err e) = false

-- `err == nil && !ok`
abbrev pub is_refused : Result Bool → Bool
is_refused (ok allowed) = not allowed
is_refused (err e) = false

-- `err == nil && count > max`
abbrev pub exceeds : ℤ → Result ℕ → Bool
exceeds max (ok count) = ltb_ℤ max (pos count)
exceeds max (err e) = false

-- queues[i], for an index within the list.
unfoldable pub nth : List Text → ℕ → Text
nth [] i = []
nth (q ∷ qs) zero = q
nth (q ∷ qs) (suc i) = nth qs i

-- The queue that a counter chooses.
unfoldable pub primary_at : List Text → ℕ → Text
unfolding nth
primary_at first_queues counter = nth first_queues (counter % length first_queues)

-- The queues that are not the first one.
unfoldable pub others : Text → List Text → List Text
others primary [] = []
others primary (q ∷ qs) = if text_eq q primary then others primary qs else q ∷ others primary qs

module _ {S : Type 0} (pool : WorkerPool S) where
  unfoldable pub dequeue_from_queue : Text → Exec (PoolState S) (Option JobEnvelope)
  unfolding call
  dequeue_from_queue q = do
    paused ← attempt (call (pool.storage.is_queue_paused q))
    if is_paused paused then pure none else call (pool.storage.dequeue q pool.tags)

  unfoldable pub over_concurrency : HandlerConfig → JobEnvelope → Exec (PoolState S) Bool
  unfolding call
  over_concurrency cfg env =
      if ltb_ℤ (pos 0) cfg.max_concurrency
      then (do
        count ← attempt (call (pool.storage.get_running_jobs_count env.name))
        pure (exceeds cfg.max_concurrency count))
      else pure false

  unfoldable pub over_rate : HandlerConfig → JobEnvelope → Exec (PoolState S) Bool
  unfolding call
  over_rate cfg env =
      if ltb_ℤ (pos 0) cfg.rate_limit && ltb_ℤ (pos 0) cfg.rate_period
      then (do
        allowed ←
            attempt (call (pool.storage.check_rate_limit env.name cfg.rate_limit cfg.rate_period))
        pure (is_refused allowed))
      else pure false

  -- The error of PostponeJob is dropped.
  unfoldable pub postpone : JobEnvelope → Exec (PoolState S) Bool
  unfolding call
  postpone env = do
    _ ← attempt (call (pool.storage.postpone_job env.job_id env.queue one_second))
    pure false

  unfoldable pub check_limits : HandlerConfig → JobEnvelope → Exec (PoolState S) Bool
  unfolding over_concurrency over_rate postpone
  check_limits cfg env = do
    busy ← over_concurrency cfg env
    if busy
        then postpone env
        else do limited ← over_rate cfg env; if limited then postpone env else pure true

  unfoldable pub check_with : Option HandlerConfig → JobEnvelope → Exec (PoolState S) Bool
  unfolding check_limits
  check_with none env = pure true
  check_with (some cfg) env = check_limits cfg env

  unfoldable pub check_limits_and_postpone : JobEnvelope → Exec (PoolState S) Bool
  unfolding check_with find_key
  check_limits_and_postpone env = check_with (find_key env.name pool.configs) env

  unfoldable pub check_dequeued : Option JobEnvelope → Exec (PoolState S) (Option JobEnvelope)
  unfolding check_limits_and_postpone
  check_dequeued none = pure none
  check_dequeued (some env) = do
    allowed ← check_limits_and_postpone env
    pure (if allowed then some env else none)

  unfoldable pub check_and_dequeue : Text → Exec (PoolState S) (Option JobEnvelope)
  unfolding dequeue_from_queue check_dequeued
  check_and_dequeue q = do env ← dequeue_from_queue q; check_dequeued env

  abbrev pub or_else :
      Exec (PoolState S) (Option JobEnvelope)
      → Option JobEnvelope
      → Exec (PoolState S) (Option JobEnvelope)
  or_else rest none = rest
  or_else rest (some env) = pure (some env)

  -- The loop of fetchFromOrder and of fetchStrict, which ends with the first job or error.
  unfoldable pub fetch_from_order : List Text → Exec (PoolState S) (Option JobEnvelope)
  unfolding check_and_dequeue
  fetch_from_order [] = pure none
  fetch_from_order (q ∷ queues) =
      let rest = fetch_from_order queues in do env ← check_and_dequeue q; or_else rest env

  -- The counter is a uint64 and wraps round.
  unfoldable pub build_search_order : List Text → Exec (PoolState S) (List Text)
  unfolding primary_at others
  build_search_order queues = do
    counter ← inspect λ s. s.fetch_counter
    modify λ s. record s { fetch_counter = (s.fetch_counter + 1) % 2 ^ 64 }
    let primary = primary_at pool.first_queues counter
    pure (primary ∷ others primary queues)

  unfoldable pub fetch_next : List Text → Exec (PoolState S) (Option JobEnvelope)
  unfolding build_search_order fetch_from_order
  fetch_next queues = elim pool.first_queues [
    | [] ↦ fetch_from_order queues
    | q ∷ qs ↦ do order ← build_search_order queues; fetch_from_order order
  ]

  -- The job for which fetchAndSpawn starts a goroutine, if any.
  abbrev pub spawned : Result (Option JobEnvelope) → Option JobEnvelope
  spawned (ok env) = env
  spawned (err e) = none

  unfoldable pub fetch_and_spawn : List Text → Exec (PoolState S) (Option JobEnvelope)
  unfolding fetch_next
  fetch_and_spawn queues = do job ← attempt (fetch_next queues); pure (spawned job)

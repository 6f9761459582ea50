-- ===== src/Worker/Setup.antt =====
-- queue/worker.go: registrations, options and Start.
use orkai_runiq.Common.{
  ℕ, zero, suc, ℤ, pos, ltb_ℤ, Text, false, Option, none, some, List, [], ◌∷◌, ◌++◌, map,
  if◌then◌else◌,
}
use orkai_runiq.Sql.{Exec, pure, attempt, time_now, ◌>>=◌, ◌>>◌}
use orkai_runiq.Autoscaler.{Pool}
use orkai_runiq.Worker.{
  WorkerPool, PoolState, HandlerConfig, Job, JobHandler, EventType, Location, call, inspect,
  find_key, put_key,
}

-- A HandlerOption.
abbrev pub with_max_concurrency : ℤ → HandlerConfig → HandlerConfig
with_max_concurrency max cfg = record cfg { max_concurrency = max }

abbrev pub with_rate_limit : ℤ → ℤ → HandlerConfig → HandlerConfig
with_rate_limit limit period cfg = record cfg { rate_limit = limit; rate_period = period }

abbrev pub unlimited : HandlerConfig
unlimited = record { max_concurrency = pos 0; rate_limit = pos 0; rate_period = pos 0 }

unfoldable pub configured : List (HandlerConfig → HandlerConfig) → HandlerConfig → HandlerConfig
configured [] cfg = cfg
configured (opt ∷ opts) cfg = configured opts (opt cfg)

-- time.UTC
abbrev pub utc : Location
utc = record { name = b'U' ∷ b'T' ∷ b'C' ∷ []; offset = λ t. pos 0 }

-- A CronOption, of which WithCronLocation is the only one.
abbrev pub cron_location : Option Location → Location
cron_location none = utc
cron_location (some location) = location

-- The loop that appends a queue as often as its weight says.
unfoldable pub append_times : ℕ → Text → List Text → List Text
append_times zero q rest = rest
append_times (suc n) q rest = q ∷ append_times n q rest

-- A weight that is not positive counts as missing.
abbrev pub weight_from : Option ℤ → ℕ
weight_from none = 1
weight_from (some (pos zero)) = 1
weight_from (some (pos (suc n))) = suc n
weight_from (some (ℤ.negsuc n)) = 1

unfoldable pub weight_of : List (Text × ℤ) → Text → ℕ
unfolding find_key
weight_of weights q = weight_from (find_key q weights)

unfoldable pub weighted : List (Text × ℤ) → List Text → List Text
unfolding append_times weight_of
weighted weights [] = []
weighted weights (q ∷ queues) = append_times (weight_of weights q) q (weighted weights queues)

abbrev pub min_of : Option Pool → ℤ
min_of none = pos 0
min_of (some p) = p.autoscale.min_concurrency

abbrev pub max_of : Option Pool → ℤ
max_of none = pos 0
max_of (some p) = p.autoscale.max_concurrency

abbrev pub size_of : ℤ → Option Pool → ℤ
size_of concurrency none = concurrency
size_of concurrency (some p) = p.current_concurrency

module _ {S : Type 0} (pool : WorkerPool S) where
  unfoldable pub register : Text → Job S → List (HandlerConfig → HandlerConfig) → WorkerPool S
  unfolding configured put_key
  register name job opts = record pool {
    registry = put_key name job pool.registry;
    configs = put_key name (configured opts unlimited) pool.configs;
  }

  abbrev pub register_cron : Text → Text → Text → List ℕ → Option Location → WorkerPool S
  register_cron spec queue name payload opt = record pool {
    cron_jobs =
        pool.cron_jobs
        ++ (record {
          cron = record {
            payload = payload;
            spec = spec;
            name = name;
            queue = queue;
            timezone = (cron_location opt).name;
            paused = false;
          };
          location = some (cron_location opt);
        })
          ∷ [];
  }

  abbrev pub register_interval : ℤ → Text → Text → List ℕ → WorkerPool S
  register_interval interval queue name payload = record pool {
    interval_jobs =
        pool.interval_jobs
        ++ (record { payload = payload; interval = interval; name = name; queue = queue }) ∷ [];
  }

  abbrev pub use_middlewares : List (JobHandler S → JobHandler S) → WorkerPool S
  use_middlewares mws = record pool { middlewares = pool.middlewares ++ mws }

  abbrev pub on_event : EventType → ℕ → WorkerPool S
  on_event kind h = record pool { event_handlers = pool.event_handlers ++ (kind, h) ∷ [] }

  -- Without weights the order of the queues is strict.
  unfoldable pub setup_weighted_queues : List Text → WorkerPool S
  unfolding weighted
  setup_weighted_queues queues = record pool {
    first_queues = elim pool.weights [ [] ↦ pool.first_queues | w ∷ ws ↦ weighted (w ∷ ws) queues ];
  }

  -- The error is only logged.
  unfoldable pub register_process : List Text → Exec (PoolState S) Unit
  unfolding call
  register_process queues = do
    sizes ← inspect λ s. s.sizes
    now ← time_now
    _ ← attempt (
        call (
          pool.storage.register_process (record {
            process_id = pool.process_id;
            concurrency = size_of pool.concurrency sizes;
            queues = queues;
            heartbeat_at = now;
            min_concurrency = min_of sizes;
            max_concurrency = max_of sizes;
          })))
    pure tt

  -- What Start does before its loops, with the pool that setupWeightedQueues has changed.
  unfoldable pub prepare : List Text → Exec (PoolState S) Unit
  unfolding register_process
  prepare queues = do
    register_process queues
    elim pool.cron_jobs [
      | [] ↦ pure tt
      | c ∷ cs ↦ do
        _ ← attempt (call (pool.storage.register_cron_jobs (map (λ c. c.cron) (c ∷ cs))))
        pure tt
    ]

  -- The deferred call of Start.
  unfoldable pub stop : Exec (PoolState S) Unit
  stop =
      if ltb_ℤ (pos 0) pool.leader_ttl
      then (do _ ← attempt (call (pool.storage.release_leader pool.process_id)); pure tt)
      else pure tt

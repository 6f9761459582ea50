-- ===== src/Worker/Intervals.antt =====
-- queue/worker.go: interval jobs. The goroutine that enqueues a job is run where it is started.
use orkai_runiq.Common.{
  ℕ, zero, suc, ◌*◌, ◌/◌, ℤ, pos, negsuc, Text, codes, Option, none, some, List, [], ◌∷◌, ltb,
  if◌then◌else◌,
}
use orkai_runiq.Queue.{JobEnvelope}
use orkai_runiq.Helpers.{second}
use orkai_runiq.Sql.{Exec, pure, attempt, time_now, ◌>>=◌, ◌>>◌}
use orkai_runiq.Worker.{
  WorkerPool, PoolState, IntervalJob, call, modify, inspect, find_key, put_key,
}
use orkai_runiq.Worker.Leading.{if_leader}
use orkai_runiq.Worker.Crons.{recurring_envelope, enqueue_given}

-- int64(job.Interval.Seconds()), as far as it is positive.
abbrev pub interval_sec : ℤ → ℕ
interval_sec (pos n) = n / second
interval_sec (negsuc n) = 0

abbrev pub interval_envelope : IntervalJob → ℕ → JobEnvelope
interval_envelope job block_time =
    recurring_envelope (codes "interval-") job.queue job.name job.payload block_time

-- A missing key reads as zero.
abbrev pub tick_or_zero : Option ℕ → ℕ
tick_or_zero none = 0
tick_or_zero (some tick) = tick

unfoldable pub last_tick : Text → List (Text × ℕ) → ℕ
unfolding find_key
last_tick name ticks = tick_or_zero (find_key name ticks)

module _ {S : Type 0} (pool : WorkerPool S) where
  unfoldable pub enqueue_interval_job : IntervalJob → ℕ → Exec (PoolState S) Unit
  unfolding call enqueue_given
  enqueue_interval_job job block_time = do
    lock ← attempt (call (pool.storage.lock_cron_execution job.name block_time))
    enqueue_given pool (interval_envelope job block_time) lock

  -- The block of time that now lies in is taken up once.
  unfoldable pub process_block : IntervalJob → ℕ → ℕ → Exec (PoolState S) Unit
  unfolding enqueue_interval_job last_tick put_key
  process_block job sec block_idx = do
    last ← inspect λ s. last_tick job.name s.last_interval_ticks
    if ltb last block_idx
        then (do
          modify λ s. record s {
            last_interval_ticks = put_key job.name block_idx s.last_interval_ticks;
          }
          enqueue_interval_job job (block_idx * sec * second))
        else pure tt

  unfoldable pub process_interval_job : IntervalJob → ℕ → ℕ → Exec (PoolState S) Unit
  unfolding process_block
  process_interval_job job zero now = pure tt
  process_interval_job job (suc sec) now = process_block job (suc sec) (now / second / suc sec)

  unfoldable pub process_all : List IntervalJob → ℕ → Exec (PoolState S) Unit
  unfolding process_interval_job
  process_all [] now = pure tt
  process_all (job ∷ jobs) now =
      let rest = process_all jobs now in
      do process_interval_job job (interval_sec job.interval) now; rest

  unfoldable pub process_interval_jobs : ℕ → Exec (PoolState S) Unit
  unfolding process_all
  process_interval_jobs now = process_all pool.interval_jobs now

  unfoldable pub interval_tick : Exec (PoolState S) Unit
  unfolding if_leader process_interval_jobs
  interval_tick = if_leader pool do now ← time_now; process_interval_jobs now

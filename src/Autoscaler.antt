-- ===== src/Autoscaler.antt =====
-- queue/autoscaler.go: the size of the worker pool. A running job holds a token in the channel sem;
-- the rest of the channel is kept full of tokens that stand for no job. Those are counted here, the
-- ones that a goroutine of scaleDown is about to put in among them.
pub mod Sizes
use orkai_runiq.Common.{
  ℕ, zero, suc, ℤ, pos, ◌+ℤ◌, ◌-ℤ◌, Text, text_eq, Bool, true, false, ◌&&◌, Option, none, some,
  List, [], ◌∷◌, ltb_ℤ, leb_ℤ, eqb_ℤ, non_positive, if◌then◌else◌,
}
use orkai_runiq.Queue.{QueueStats}

pub record DynamicConcurrencyConfig : Type 0 where
  pub check_interval : ℤ
  pub min_concurrency : ℤ
  pub max_concurrency : ℤ
  pub queue_depth_limit : ℤ
  pub scale_up_step : ℤ
  pub scale_down_step : ℤ

-- The fields of WorkerPool that the autoscaler reads and writes.
pub record Pool : Type 0 where
  pub autoscale : DynamicConcurrencyConfig
  pub current_concurrency : ℤ
  pub reserved : ℤ
  pub monitored_queues : List Text

-- A loop that runs `diff` times puts in no token for a negative count.
abbrev pub at_least_zero : ℤ → ℤ
at_least_zero n = if ltb_ℤ n (pos 0) then pos 0 else n

unfoldable pub setup_semaphore : DynamicConcurrencyConfig → List Text → Pool
setup_semaphore cfg queues = record {
  autoscale = cfg;
  current_concurrency = cfg.min_concurrency;
  reserved = at_least_zero (cfg.max_concurrency -ℤ cfg.min_concurrency);
  monitored_queues = queues;
}

unfoldable pub clamp_target : DynamicConcurrencyConfig → ℤ → ℤ
clamp_target cfg target =
    if ltb_ℤ target cfg.min_concurrency
    then cfg.min_concurrency
    else if ltb_ℤ cfg.max_concurrency target
    then cfg.max_concurrency
    else target

abbrev pub scale_up : ℤ → Pool → Pool
scale_up diff w = record w { reserved = w.reserved -ℤ diff }

abbrev pub scale_down : ℤ → Pool → Pool
scale_down diff w = record w { reserved = w.reserved +ℤ diff }

unfoldable pub resize : ℤ → Pool → Pool
resize target w =
    let diff = target -ℤ w.current_concurrency in
    let resized = record w { current_concurrency = target } in
    if ltb_ℤ (pos 0) diff then scale_up diff resized else scale_down (pos 0 -ℤ diff) resized

unfoldable pub adjust_concurrency : ℤ → Pool → Pool
unfolding clamp_target resize
adjust_concurrency target w =
    let clamped = clamp_target w.autoscale target in
    if eqb_ℤ clamped w.current_concurrency then w else resize clamped w

unfoldable pub monitors : Text → List Text → Bool
monitors q [] = false
monitors q (m ∷ ms) = if text_eq q m then true else monitors q ms

unfoldable pub pending_of : List Text → List QueueStats → ℤ
unfolding monitors
pending_of queues [] = pos 0
pending_of queues (qs ∷ stats) =
    let rest = pending_of queues stats in
    if monitors qs.name queues then qs.pending +ℤ rest else rest

abbrev pub step_of : ℤ → ℤ
step_of n = if non_positive n then pos 1 else n

-- The error of GetStats ends the iteration.
unfoldable pub run_autoscale_iteration : Option (List QueueStats) → Pool → Pool
unfolding adjust_concurrency pending_of
run_autoscale_iteration none w = w
run_autoscale_iteration (some stats) w =
    let pending = pending_of w.monitored_queues stats in
    if ltb_ℤ w.autoscale.queue_depth_limit pending
    then adjust_concurrency (w.current_concurrency +ℤ step_of w.autoscale.scale_up_step) w
    else if eqb_ℤ pending (pos 0)
    then adjust_concurrency (w.current_concurrency -ℤ step_of w.autoscale.scale_down_step) w
    else w

-- The loop of startAutoscaler: one iteration for each tick.
unfoldable pub start_autoscaler : List (Option (List QueueStats)) → Pool → Pool
unfolding run_autoscale_iteration
start_autoscaler [] w = w
start_autoscaler (stats ∷ ticks) w = start_autoscaler ticks (run_autoscale_iteration stats w)

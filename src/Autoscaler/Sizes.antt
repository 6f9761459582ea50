-- ===== src/Autoscaler/Sizes.antt =====
-- The pool's size: queue/autoscaler.go.
use orkai_runiq.Common.{
  ℤ, pos, ◌+ℤ◌, ◌-ℤ◌, ◌≤ℤ◌, +ℤ_parts, -ℤ_parts, eq_of_parts, ◌≡◌, refl, ap, ◌∙◌, inl, inr, Text,
  false, Option, none, some, List, [], ◌∷◌, ltb_ℤ, eqb_ℤ, arith, Bool-cases,
}
use orkai_runiq.Queue.{QueueStats}
use orkai_runiq.Autoscaler.{
  DynamicConcurrencyConfig, Pool, at_least_zero, setup_semaphore, clamp_target, resize,
  adjust_concurrency, pending_of, step_of, run_autoscale_iteration, start_autoscaler,
}

-- The size lies within the bounds, and the reserved tokens fill the channel up.
pub record IsSized (cfg : DynamicConcurrencyConfig) (w : Pool) : Type 0 where
  pub configured : w.autoscale ≡ cfg
  pub lower : cfg.min_concurrency ≤ℤ w.current_concurrency
  pub upper : w.current_concurrency ≤ℤ cfg.max_concurrency
  pub filled : w.reserved ≡ cfg.max_concurrency -ℤ w.current_concurrency

clamp_target_lower :
    (cfg : DynamicConcurrencyConfig) (t : ℤ)
    → cfg.min_concurrency ≤ℤ cfg.max_concurrency
    → cfg.min_concurrency ≤ℤ clamp_target cfg t
unfolding clamp_target
clamp_target_lower cfg t h = ground arith

clamp_target_upper :
    (cfg : DynamicConcurrencyConfig) (t : ℤ)
    → cfg.min_concurrency ≤ℤ cfg.max_concurrency
    → clamp_target cfg t ≤ℤ cfg.max_concurrency
unfolding clamp_target
clamp_target_upper cfg t h = ground arith

taken : (m c t : ℤ) → (m -ℤ c) -ℤ (t -ℤ c) ≡ m -ℤ t
taken m c t =
    eq_of_parts _ _
      (omega (arith, -ℤ_parts m c, -ℤ_parts t c, -ℤ_parts (m -ℤ c) (t -ℤ c), -ℤ_parts m t))

given_back : (m c t : ℤ) → (m -ℤ c) +ℤ (pos 0 -ℤ (t -ℤ c)) ≡ m -ℤ t
given_back m c t = eq_of_parts _ _ (
    omega (
      arith,
      -ℤ_parts m c,
      -ℤ_parts t c,
      -ℤ_parts (pos 0) (t -ℤ c),
      +ℤ_parts (m -ℤ c) (pos 0 -ℤ (t -ℤ c)),
      -ℤ_parts m t,
    ))

not_negative : (m n : ℤ) → n ≤ℤ m → at_least_zero (m -ℤ n) ≡ m -ℤ n
not_negative m n h = rw (not_below m n h) refl
  where
    not_below : (m n : ℤ) → n ≤ℤ m → ltb_ℤ (m -ℤ n) (pos 0) ≡ false
    not_below m n h = ground (arith, -ℤ_parts m n)

resize-IsSized :
    (cfg : DynamicConcurrencyConfig) (t : ℤ) (w : Pool)
    → IsSized cfg w
    → cfg.min_concurrency ≤ℤ t
    → t ≤ℤ cfg.max_concurrency
    → IsSized cfg (resize t w)
unfolding resize
resize-IsSized cfg t w h low high = elim (Bool-cases (ltb_ℤ (pos 0) (t -ℤ w.current_concurrency))) [
  | inl up ↦ rw up (record {
    configured = h.configured;
    lower = low;
    upper = high;
    filled =
        ap (λ r. r -ℤ (t -ℤ w.current_concurrency)) h.filled
        ∙ taken cfg.max_concurrency w.current_concurrency t;
  })
  | inr down ↦ rw down (record {
    configured = h.configured;
    lower = low;
    upper = high;
    filled =
        ap (λ r. r +ℤ (pos 0 -ℤ (t -ℤ w.current_concurrency))) h.filled
        ∙ given_back cfg.max_concurrency w.current_concurrency t;
  })
]

module _ (cfg : DynamicConcurrencyConfig)
    (bounds : cfg.min_concurrency ≤ℤ cfg.max_concurrency) where
  adjust_concurrency-IsSized :
      (t : ℤ) (w : Pool) → IsSized cfg w → IsSized cfg (adjust_concurrency t w)
  unfolding adjust_concurrency
  adjust_concurrency-IsSized t w h =
      elim (Bool-cases (eqb_ℤ (clamp_target w.autoscale t) w.current_concurrency)) [
        | inl e ↦ rw e h
        | inr e ↦ rw e (
            resize-IsSized cfg (clamp_target w.autoscale t) w h
              (rw h.configured (clamp_target_lower cfg t bounds))
              (rw h.configured (clamp_target_upper cfg t bounds)))
      ]

  run_autoscale_iteration-IsSized :
      (stats : Option (List QueueStats)) (w : Pool)
      → IsSized cfg w
      → IsSized cfg (run_autoscale_iteration stats w)
  unfolding run_autoscale_iteration
  run_autoscale_iteration-IsSized none w h = h
  run_autoscale_iteration-IsSized (some stats) w h =
      elim (Bool-cases
        (ltb_ℤ w.autoscale.queue_depth_limit (pending_of w.monitored_queues stats))) [
          | inl e ↦ rw e (
              adjust_concurrency-IsSized
                (w.current_concurrency +ℤ step_of w.autoscale.scale_up_step) w h)
          | inr e ↦ elim (Bool-cases (eqb_ℤ (pending_of w.monitored_queues stats) (pos 0))) [
            | inl z ↦
                rw (e, z)
                  (adjust_concurrency-IsSized
                    (w.current_concurrency -ℤ step_of w.autoscale.scale_down_step) w h)
            | inr z ↦ rw (e, z) h
          ]
        ]

  ticks-IsSized :
      (ticks : List (Option (List QueueStats))) (w : Pool)
      → IsSized cfg w
      → IsSized cfg (start_autoscaler ticks w)
  unfolding start_autoscaler
  ticks-IsSized [] w h = h
  ticks-IsSized (stats ∷ ticks) w h =
      ticks-IsSized ticks _ (run_autoscale_iteration-IsSized stats w h)

  setup_semaphore-IsSized : (queues : List Text) → IsSized cfg (setup_semaphore cfg queues)
  unfolding setup_semaphore
  setup_semaphore-IsSized queues = record {
    configured = refl;
    lower = omega arith;
    upper = bounds;
    filled = not_negative cfg.max_concurrency cfg.min_concurrency bounds;
  }

  -- Where the lower bound is not above the upper one: whatever the storage reports at each tick, the pool's size stays within its bounds, and the tokens
  -- in reserve are what the channel has beyond the size.
  pub start_autoscaler-IsSized :
      (queues : List Text) (ticks : List (Option (List QueueStats)))
      → IsSized cfg (start_autoscaler ticks (setup_semaphore cfg queues))
  start_autoscaler-IsSized queues ticks = ticks-IsSized ticks _ (setup_semaphore-IsSized queues)

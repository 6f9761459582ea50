-- ===== src/CircuitBreaker/Invariant.antt =====
-- What holds of a circuit breaker after any calls of its methods, in any order.
use orkai_runiq.Common.{
  ℕ, ℤ, pos, ◌≡◌, refl, ◌⊎◌, inl, inr, Bool, true, false, ◌||◌, ltb_ℤ, leb_ℤ, sub_ℕ, ◌<ℤ◌, arith,
  Bool-cases,
}
use orkai_runiq.CircuitBreaker.{
  CircuitBreakerConfig, CircuitBreaker, new_circuit_breaker, is_open, is_half_open, before_call,
  handle_failure, is_fail, after_call,
}

-- Calls run at once, so the methods come in any order.
pub data Reachable (config : CircuitBreakerConfig) : CircuitBreaker → Type 0 where
  created : (now : ℕ) → Reachable config (new_circuit_breaker config now)
  called :
      (since now : ℕ) (cb : CircuitBreaker)
      → Reachable config cb
      → Reachable config (before_call since now cb).1
  returned :
      (failed : Bool) (elapsed : ℤ) (now : ℕ) (cb : CircuitBreaker)
      → Reachable config cb
      → Reachable config (after_call failed elapsed now cb)

-- A closed breaker has counted no failure, or fewer than the threshold.
pub record IsCounting (config : CircuitBreakerConfig) (cb : CircuitBreaker) : Type 0 where
  pub configured : cb.config ≡ config
  pub counts :
      (is_open cb.state ≡ true)
      ⊎ ((is_half_open cb.state ≡ true)
          ⊎ ((cb.failures ≡ 0) ⊎ (pos cb.failures <ℤ config.failure_threshold)))

before_call-IsCounting :
    (config : CircuitBreakerConfig) (since now : ℕ) (cb : CircuitBreaker)
    → IsCounting config cb
    → IsCounting config (before_call since now cb).1
unfolding before_call
before_call-IsCounting config since now cb h = elim (Bool-cases (is_open cb.state)) [
  | inl o ↦ elim (Bool-cases (ltb_ℤ cb.config.cooldown (sub_ℕ since cb.last_state_chg))) [
    | inl late ↦ rw (o, late) (record { configured = h.configured; counts = inr (inl refl) })
    | inr early ↦ rw (o, early) h
  ]
  | inr c ↦ rw c h
]

below_threshold :
    (half : Bool) (n : ℕ) (threshold : ℤ)
    → (half || leb_ℤ threshold (pos n)) ≡ false
    → pos n <ℤ threshold
below_threshold true n threshold h = absurd (ground arith)
below_threshold false n threshold h = ground arith

handle_failure-IsCounting :
    (config : CircuitBreakerConfig) (now : ℕ) (cb : CircuitBreaker)
    → cb.config ≡ config
    → IsCounting config (handle_failure now cb)
unfolding handle_failure
handle_failure-IsCounting config now cb h =
    elim (Bool-cases
      (is_half_open cb.state || leb_ℤ cb.config.failure_threshold (pos cb.failures))) [
        | inl trips ↦ rw trips (record { configured = h; counts = inl refl })
        | inr waits ↦ rw waits (record {
          configured = h;
          counts = inr (inr (inr (below_threshold _ cb.failures _ (rw h at waits))));
        })
      ]

after_call-IsCounting :
    (config : CircuitBreakerConfig) (failed : Bool) (elapsed : ℤ) (now : ℕ) (cb : CircuitBreaker)
    → IsCounting config cb
    → IsCounting config (after_call failed elapsed now cb)
unfolding after_call
after_call-IsCounting config failed elapsed now cb h =
    elim (Bool-cases (is_fail cb.config failed elapsed)) [
      | inl bad ↦ rw bad (handle_failure-IsCounting config now _ h.configured)
      | inr good ↦ rw good (elim (Bool-cases (is_half_open cb.state)) [
        | inl half ↦ rw half (record { configured = h.configured; counts = inr (inr (inl refl)) })
        | inr not_half ↦
            rw not_half (record { configured = h.configured; counts = inr (inr (inl refl)) })
      ])
    ]

-- Whatever calls a breaker has seen, while it is closed it has counted no failure or fewer than its
-- threshold.
pub Reachable-IsCounting :
    (config : CircuitBreakerConfig) (cb : CircuitBreaker)
    → Reachable config cb
    → IsCounting config cb
Reachable-IsCounting config _ (created now) = record {
  configured = refl;
  counts = inr (inr (inl refl));
}
Reachable-IsCounting config _ (called since now cb r) =
    before_call-IsCounting config since now cb (Reachable-IsCounting config cb r)
Reachable-IsCounting config _ (returned failed elapsed now cb r) =
    after_call-IsCounting config failed elapsed now cb (Reachable-IsCounting config cb r)

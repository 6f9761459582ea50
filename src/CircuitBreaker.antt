-- ===== src/CircuitBreaker.antt =====
-- queue/circuit_breaker.go. The mutex makes each method one step; the clock is an argument of it, in
-- the order in which the method reads it.
pub mod Invariant
pub mod Trips
use orkai_runiq.Common.{
  ℕ, suc, ℤ, pos, Bool, true, false, ◌&&◌, ◌||◌, ltb_ℤ, leb_ℤ, sub_ℕ, if◌then◌else◌,
}

pub data CbState : Type 0 where
  cb_state_closed cb_state_open cb_state_half_open : CbState

pub record CircuitBreakerConfig : Type 0 where
  pub cooldown : ℤ
  pub latency_threshold : ℤ
  pub failure_threshold : ℤ

-- The failures are counted from 0 up.
pub record CircuitBreaker : Type 0 where
  pub last_state_chg : ℕ
  pub config : CircuitBreakerConfig
  pub failures : ℕ
  pub state : CbState

abbrev pub new_circuit_breaker : CircuitBreakerConfig → ℕ → CircuitBreaker
new_circuit_breaker config now = record {
  last_state_chg = now;
  config = config;
  failures = 0;
  state = cb_state_closed;
}

abbrev pub is_open : CbState → Bool
is_open cb_state_open = true
is_open _ = false

abbrev pub is_half_open : CbState → Bool
is_half_open cb_state_half_open = true
is_half_open _ = false

-- Whether the call may go ahead: time.Since, then time.Now().
unfoldable pub before_call : ℕ → ℕ → CircuitBreaker → Bool × CircuitBreaker
before_call since now cb =
    if is_open cb.state
    then (if ltb_ℤ cb.config.cooldown (sub_ℕ since cb.last_state_chg)
        then (true, record cb { state = cb_state_half_open; last_state_chg = now })
        else (false, cb))
    else (true, cb)

unfoldable pub handle_failure : ℕ → CircuitBreaker → CircuitBreaker
handle_failure now cb =
    if is_half_open cb.state || leb_ℤ cb.config.failure_threshold (pos cb.failures)
    then record cb { state = cb_state_open; last_state_chg = now }
    else cb

abbrev pub is_fail : CircuitBreakerConfig → Bool → ℤ → Bool
is_fail config failed elapsed =
    failed || (ltb_ℤ (pos 0) config.latency_threshold && ltb_ℤ config.latency_threshold elapsed)

abbrev pub close : ℕ → CircuitBreaker → CircuitBreaker
close now cb =
    if is_half_open cb.state
    then record cb { state = cb_state_closed; last_state_chg = now }
    else cb

-- `failed` is err != nil.
unfoldable pub after_call : Bool → ℤ → ℕ → CircuitBreaker → CircuitBreaker
unfolding handle_failure
after_call failed elapsed now cb =
    if is_fail cb.config failed elapsed
    then handle_failure now (record cb { failures = suc cb.failures })
    else record (close now cb) { failures = 0 }

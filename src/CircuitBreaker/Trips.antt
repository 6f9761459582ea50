-- ===== src/CircuitBreaker/Trips.antt =====
-- When failures open a circuit breaker.
use orkai_runiq.Common.{
  ℕ, suc, ◌+◌, ap, sym, ◌∙◌, ◌≤◌, ℤ, pos, ◌≡◌, refl, inl, inr, Bool, true, false, ◌||◌, leb_ℤ,
  arith, Bool-cases, List, [], ◌∷◌, length,
}
use orkai_runiq.CircuitBreaker.{
  cb_state_closed, CircuitBreakerConfig, CircuitBreaker, new_circuit_breaker, is_open, is_half_open,
  handle_failure, after_call,
}

-- Failed calls one after another, each with the time that it took and the time of its end.
unfoldable pub fail_all : List (ℤ × ℕ) → CircuitBreaker → CircuitBreaker
fail_all [] cb = cb
fail_all ((elapsed, now) ∷ calls) cb = fail_all calls (after_call true elapsed now cb)

abbrev reached : CircuitBreaker → ℕ → Bool
reached cb n = leb_ℤ cb.config.failure_threshold (pos n)

reached_later : (t : ℤ) (n m : ℕ) → n ≤ m → leb_ℤ t (pos n) ≡ true → leb_ℤ t (pos m) ≡ true
reached_later t n m h q = ground arith

fails_once :
    (elapsed : ℤ) (now : ℕ) (cb : CircuitBreaker)
    → ((after_call true elapsed now cb).failures ≡ suc cb.failures)
      × ((after_call true elapsed now cb).config ≡ cb.config)
unfolding after_call handle_failure
fails_once elapsed now cb =
    elim (Bool-cases (is_half_open cb.state || reached cb (suc cb.failures))) [
      | inl e ↦ rw e (refl, refl)
      | inr e ↦ rw e (refl, refl)
    ]

opens :
    (elapsed : ℤ) (now : ℕ) (cb : CircuitBreaker)
    → reached cb (suc cb.failures) ≡ true
    → is_open (after_call true elapsed now cb).state ≡ true
unfolding after_call handle_failure
opens elapsed now cb h = elim (Bool-cases (is_half_open cb.state)) [
  | inl e ↦ rw e refl
  | inr e ↦ rw (e, h) refl
]

still_closed :
    (elapsed : ℤ) (now : ℕ) (cb : CircuitBreaker)
    → cb.state ≡ cb_state_closed
    → reached cb (suc cb.failures) ≡ false
    → (after_call true elapsed now cb).state ≡ cb_state_closed
unfolding after_call handle_failure
still_closed elapsed now cb c h = rw (c, h) refl

stays_open :
    (calls : List (ℤ × ℕ)) (cb : CircuitBreaker)
    → is_open cb.state ≡ true
    → reached cb cb.failures ≡ true
    → is_open (fail_all calls cb).state ≡ true
unfolding fail_all
stays_open [] cb o h = o
stays_open ((elapsed, now) ∷ calls) cb o h =
    let (count, same) = fails_once elapsed now cb in
    let more =
      reached_later cb.config.failure_threshold cb.failures (suc cb.failures) (omega arith) h in
    stays_open calls (after_call true elapsed now cb) (opens elapsed now cb more)
      (rw (count, same) more)

one_plus : (n : ℕ) → 1 + n ≡ suc n
one_plus n = omega arith

plus_zero : (n : ℕ) → n ≡ n + 0
plus_zero n = omega arith

plus_suc : (n m : ℕ) → suc n + m ≡ n + suc m
plus_suc n m = omega arith

counted :
    (calls : List (ℤ × ℕ)) (cb : CircuitBreaker)
    → cb.state ≡ cb_state_closed
    → reached cb cb.failures ≡ false
    → is_open (fail_all calls cb).state ≡ reached cb (cb.failures + length calls)
unfolding fail_all
counted [] cb c h = ap is_open c ∙ sym h ∙ ap (reached cb) (plus_zero cb.failures)
counted ((elapsed, now) ∷ calls) cb c h =
    let (count, same) = fails_once elapsed now cb in
    elim (Bool-cases (reached cb (suc cb.failures))) [
      | inl e ↦
          stays_open calls (after_call true elapsed now cb) (opens elapsed now cb e)
            (rw (count, same) e)
          ∙ sym (
              reached_later cb.config.failure_threshold (suc cb.failures)
                (cb.failures + suc (length calls)) (omega arith) e)
      | inr e ↦
          counted calls (after_call true elapsed now cb) (still_closed elapsed now cb c e)
            (rw (count, same) e)
          ∙ rw (count, same) (ap (reached cb) (plus_suc cb.failures (length calls)))
    ]

-- A new breaker whose calls fail one after another is open exactly when the failures have reached the
-- threshold.
pub fail_all-opens :
    (config : CircuitBreakerConfig) (start : ℕ) (call : ℤ × ℕ) (calls : List (ℤ × ℕ))
    → is_open (fail_all (call ∷ calls) (new_circuit_breaker config start)).state
      ≡ leb_ℤ config.failure_threshold (pos (length (call ∷ calls)))
unfolding fail_all
fail_all-opens config start (elapsed, now) calls =
    let cb = new_circuit_breaker config start in
    let (count, same) = fails_once elapsed now cb in
    elim (Bool-cases (reached cb 1)) [
      | inl e ↦
          stays_open calls (after_call true elapsed now cb) (opens elapsed now cb e)
            (rw (count, same) e)
          ∙ sym (reached_later config.failure_threshold 1 (suc (length calls)) (omega arith) e)
      | inr e ↦
          counted calls (after_call true elapsed now cb) (still_closed elapsed now cb refl e)
            (rw (count, same) e)
          ∙ rw (count, same) (ap (reached cb) (one_plus (length calls)))
    ]

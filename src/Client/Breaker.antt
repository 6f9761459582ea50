-- ===== src/Client/Breaker.antt =====
-- What the circuit breaker of a client does to its calls.
use orkai_runiq.Common.{
  ℕ, suc, ◌≡◌, ◌⊎◌, refl, inl, inr, true, false, none, Option, ℤ, ◌≤ℤ◌, arith, some, ltb_ℤ, sub_ℕ,
  Bool-cases, Option-cases,
}
use orkai_runiq.Sql.{
  Result, err, circuit_breaker_open, World, Exec, raise, ◌>>=◌, attempt, time_now,
}
use orkai_runiq.CircuitBreaker.{CircuitBreaker, CbState, cb_state_open, is_open, before_call}
use orkai_runiq.Client.{State, lift, measured, through, execute}

-- The world in which the storage is called at a step.
abbrev pub entering : {S : Type 0} → World (State S) → ℕ → World S
entering w step = record { outside = w.outside; step = step; db = w.db.stored }

-- The breaker is open, and no more than its cooldown has passed since it changed its state.
pub record IsBlocking (cb : CircuitBreaker) (now : ℕ) : Type 0 where
  pub opened : cb.state ≡ cb_state_open
  pub early : sub_ℕ now cb.last_state_chg ≤ℤ cb.config.cooldown

abbrev pub IsBlocked : Option CircuitBreaker → ℕ → Type 0
IsBlocked none now = ⊥
IsBlocked (some cb) now = IsBlocking cb now

not_cooled : (a b : ℤ) → a ≤ℤ b → ltb_ℤ b a ≡ false
not_cooled a b h = ground arith

cooled : (a b : ℤ) → ltb_ℤ b a ≡ true → (a ≤ℤ b → ⊥)
cooled a b h k = ground arith

cooling : (a b : ℤ) → ltb_ℤ b a ≡ false → a ≤ℤ b
cooling a b h = ground arith

open_state : (s : CbState) → is_open s ≡ true → s ≡ cb_state_open
open_state s h = ground arith

IsBlocking-cases : (cb : CircuitBreaker) (now : ℕ) → IsBlocking cb now ⊎ (¬ IsBlocking cb now)
IsBlocking-cases cb now = elim (Bool-cases (is_open cb.state)) [
  | inl o ↦ elim (Bool-cases (ltb_ℤ cb.config.cooldown (sub_ℕ now cb.last_state_chg))) [
    | inl e ↦ inr (λ b. cooled (sub_ℕ now cb.last_state_chg) cb.config.cooldown e b.early)
    | inr e ↦ inl (record {
      opened = open_state cb.state o;
      early = cooling (sub_ℕ now cb.last_state_chg) cb.config.cooldown e;
    })
  ]
  | inr o ↦ inr (λ b. ground (arith, o, b.opened))
]

not_blocking :
    (cb : CircuitBreaker) (since now : ℕ)
    → ¬ IsBlocking cb since
    → (before_call since now cb).0 ≡ true
unfolding before_call
not_blocking cb since now free = elim (Bool-cases (is_open cb.state)) [
  | inl o ↦ elim (Bool-cases (ltb_ℤ cb.config.cooldown (sub_ℕ since cb.last_state_chg))) [
    | inl e ↦ rw (o, e) refl
    | inr e ↦ absurd (
        free (record {
          opened = open_state cb.state o;
          early = cooling (sub_ℕ since cb.last_state_chg) cb.config.cooldown e;
        }))
  ]
  | inr o ↦ rw o refl
]

module _ {S : Type 0} (fn : Exec S Unit) where
  pub record IsCallAt (w : World (State S)) (out : Result (Unit {0}) × World (State S)) (step : ℕ)
      : Type 0 where
    pub result : out.0 ≡ (fn (entering w step)).0
    pub stored : out.1.db.stored ≡ (fn (entering w step)).1.db

  without_breaker : (w : World (State S)) → w.db.cb ≡ none → IsCallAt w (execute fn w) w.step
  unfolding execute through lift
  without_breaker w no_cb = rw no_cb (record { result = refl; stored = refl })

  blocked_call :
      (w : World (State S)) (cb : CircuitBreaker)
      → w.db.cb ≡ some cb
      → IsBlocking cb (w.outside.clock w.step)
      → ((execute fn w).0 ≡ err circuit_breaker_open)
        × ((execute fn w).1.db.stored ≡ w.db.stored)
        × ((execute fn w).1.db.cb ≡ w.db.cb)
  unfolding execute through ◌>>=◌ time_now before_call raise
  blocked_call w cb has b =
      rw
        (
          has,
          b.opened,
          not_cooled (sub_ℕ (w.outside.clock w.step) cb.last_state_chg) cb.config.cooldown b.early,
        )
        (refl, refl, refl)

  allowed_call :
      (w : World (State S)) (cb : CircuitBreaker)
      → w.db.cb ≡ some cb
      → ((before_call (w.outside.clock w.step) (w.outside.clock (suc w.step)) cb).0 ≡ true)
      → IsCallAt w (execute fn w) (suc (suc (suc w.step)))
  unfolding execute through measured lift ◌>>=◌ time_now raise attempt
  allowed_call w cb has allowed = rw (has, allowed) (record { result = refl; stored = refl })

  -- While the circuit breaker blocks calls, that is while it is open and its cooldown has not passed, the
  -- client returns its error and changes neither the storage nor the breaker. Otherwise, and without a
  -- breaker, the call of the storage is made once and the client hands its result back.
  pub execute-IsCallAt :
      (w : World (State S))
      → (IsBlocked w.db.cb (w.outside.clock w.step)
          × ((execute fn w).0 ≡ err circuit_breaker_open)
          × ((execute fn w).1.db.stored ≡ w.db.stored)
          × ((execute fn w).1.db.cb ≡ w.db.cb))
        ⊎ (¬ IsBlocked w.db.cb (w.outside.clock w.step)
            × ((step : ℕ) × IsCallAt w (execute fn w) step))
  execute-IsCallAt w = elim (Option-cases w.db.cb) [
    | inl no_cb ↦ inr (rw no_cb (λ b. b), (w.step, without_breaker w no_cb))
    | inr (cb, has) ↦ elim (IsBlocking-cases cb (w.outside.clock w.step)) [
      | inl b ↦
          let (refused, stored, same) = blocked_call w cb has b in
          inl (rw has b, refused, stored, same)
      | inr free ↦
          inr (
            rw has free,
            (suc (suc (suc w.step)), allowed_call w cb has (not_blocking cb _ _ free)),
          )
    ]
  ]

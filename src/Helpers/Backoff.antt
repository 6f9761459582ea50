-- ===== src/Helpers/Backoff.antt =====
-- The retry delay of queue/helpers.go.
use orkai_runiq.Common.{
  ℕ, zero, suc, ◌+◌, ◌*◌, ◌%◌, ◌^◌, ◌≤◌, ◌<◌, ◌≡◌, refl, arith, ltb, if◌then◌else◌, Bool, true,
  ◌&&◌, ◌⊎◌, inl, inr, pos, ◌==◌, eqb_iff,
}
use orkai_runiq.Helpers.{delay_sec, compute_backoff_delay, second}

abbrev pub capped_at_hour : ℕ → ℕ
capped_at_hour n = if ltb 3600 n then 3600 else n

-- A test that every attempt under a bound passes.
passes_until : (ℕ → Bool) → ℕ → Bool
passes_until test zero = true
passes_until test (suc bound) = passes_until test bound && test bound

passes_until_lem :
    (test : ℕ → Bool) (bound attempts : ℕ)
    → attempts < bound
    → passes_until test bound ≡ true
    → test attempts ≡ true
unfolding passes_until
passes_until_lem test zero attempts under passed = absurd (omega arith)
passes_until_lem test (suc bound) attempts under passed =
    ground (arith, passes_until_lem test bound attempts)

delay_table : passes_until (λ a. delay_sec a == capped_at_hour (10 * 2 ^ a)) 60 ≡ true
unfolding passes_until delay_sec
delay_table = refl

pub delay_sec-below_60 : (a : ℕ) → a < 60 → delay_sec a ≡ capped_at_hour (10 * 2 ^ a)
delay_sec-below_60 a h =
    (eqb_iff _ _).0
      (passes_until_lem (λ a. delay_sec a == capped_at_hour (10 * 2 ^ a)) 60 a h delay_table)

hour_bound : (n : ℕ) → capped_at_hour n ≤ 3600
hour_bound n = ground arith

-- Below 60 attempts the delay is 10 * 2^attempts seconds, at most an hour, and at most two
-- seconds of jitter.
pub compute_backoff_delay_exact :
    (attempts nanosecond : ℕ)
    → attempts < 60
    → compute_backoff_delay attempts nanosecond
      ≡ pos ((capped_at_hour (10 * 2 ^ attempts) + nanosecond % 3) * second)
unfolding compute_backoff_delay
compute_backoff_delay_exact a ns h = ground (arith, delay_sec-below_60 a h, hour_bound (10 * 2 ^ a))

delay_sec_62 : delay_sec 62 ≡ 2 ^ 63
unfolding delay_sec
delay_sec_62 = refl

delay_sec-from_63 : (a : ℕ) → 63 ≤ a → delay_sec a ≡ 0
unfolding delay_sec
delay_sec-from_63 a h = elim (le_cases a h) [ inl e ↦ rw e refl | inr l ↦ ground arith ]
  where
    le_cases : (a : ℕ) → 63 ≤ a → (a ≡ 63) ⊎ (64 ≤ a)
    le_cases a h = omega arith

-- From the 62nd attempt on the shift overflows and only the jitter is left of the delay.
pub compute_backoff_delay_overflow :
    (attempts nanosecond : ℕ)
    → 62 ≤ attempts
    → compute_backoff_delay attempts nanosecond ≡ pos (nanosecond % 3 * second)
unfolding compute_backoff_delay
compute_backoff_delay_overflow a ns h = elim (cases a h) [
  | inl e ↦ ground (arith, delay_sec_62)
  | inr l ↦ ground (arith, delay_sec-from_63 a l)
]
  where
    cases : (a : ℕ) → 62 ≤ a → (a ≡ 62) ⊎ (63 ≤ a)
    cases a h = omega arith

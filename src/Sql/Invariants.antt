-- ===== src/Sql/Invariants.antt =====
-- Invariants of actions: one rule for each way to build an action.
use orkai_runiq.Common.{
  ℕ, ◌≡◌, refl, Bool, true, false, Option, none, some, if◌then◌else◌, Bool-cases, inl, inr,
}
use orkai_runiq.Sql.Statements.{
  Error, Result, ok, err, World, Exec, next, settle, statement, time_now, generate_job_id, pure,
  raise, continue, ◌>>=◌, attempt, exec, query, row, query_row, or_zero, void, finish,
  transaction_else, transaction_if, transaction,
}

-- Whether the action succeeds or fails, the database satisfies `P` afterwards if it did before.
pub record Keeps {S A : Type 0} (P : S → Type 0) (m : Exec S A) : Type 0 where
  pub at : (w : World S) → P w.db → P (m w).1.db

module _ {S A : Type 0} (P : S → Type 0) where
  settle_row : (o : Option A) (w : World S) → P w.db → P (settle w (row w.db o)).1.db
  settle_row none w h = h
  settle_row (some a) w h = h

  finish_with :
      (commits : A → Bool) (lost : Result A) (s : S) (out : Result A × World S)
      → P s
      → P out.1.db
      → P (finish commits lost s out).1.db
  finish_with commits lost s (err e, w) h k = h
  finish_with commits lost s (ok a, w) h k = elim (Bool-cases (commits a)) [
    | inl c ↦ rw c (elim (Bool-cases (w.outside.fails w.step)) [ inl e ↦ rw e h | inr e ↦ rw e k ])
    | inr c ↦ rw c h
  ]

module _ {S A : Type 0} {P : S → Type 0} where
  pub Keeps-pure : (a : A) → Keeps P (pure a)
  unfolding pure
  Keeps-pure a = record { at = λ w h. h }

  pub Keeps-raise : (e : Error) → Keeps P (raise {A = A} e)
  unfolding raise
  Keeps-raise e = record { at = λ w h. h }

  pub Keeps-query : (f : ℕ → S → A) → Keeps P (query f)
  unfolding query
  Keeps-query f = record {
    at = λ w h. elim (Bool-cases (w.outside.fails w.step)) [ inl e ↦ rw e h | inr e ↦ rw e h ];
  }

  pub Keeps-query_row : (f : S → Option A) → Keeps P (query_row f)
  unfolding query_row
  Keeps-query_row f = record {
    at = λ w h. elim (Bool-cases (w.outside.fails w.step)) [
      | inl e ↦ rw e h
      | inr e ↦ rw e (settle_row P (f w.db) (next w) h)
    ];
  }

  pub Keeps-if : (b : Bool) (m n : Exec S A) → Keeps P m → Keeps P n → Keeps P (if b then m else n)
  Keeps-if true m n km kn = km
  Keeps-if false m n km kn = kn

  -- The effect of a statement is decided by its result.
  settle_with :
      (r : Result (A × S)) (w : World S)
      → ((a : A) (s : S) → r ≡ ok (a, s) → P s)
      → P w.db
      → P (settle w r).1.db
  settle_with (ok (a, s)) w k h = k a s refl
  settle_with (err e) w k h = h

  pub Keeps-statement :
      (f : ℕ → S → Result (A × S))
      → ((now : ℕ) (s : S) → P s → (a : A) (t : S) → f now s ≡ ok (a, t) → P t)
      → Keeps P (statement f)
  unfolding statement
  Keeps-statement f k = record {
    at = λ w h. elim (Bool-cases (w.outside.fails w.step)) [
      | inl e ↦ rw e h
      | inr e ↦ rw e (settle_with _ (next w) (k _ w.db h) h)
    ];
  }

  pub Keeps-or_zero : (d : A) (m : Exec S A) → Keeps P m → Keeps P (or_zero d m)
  unfolding or_zero
  Keeps-or_zero d m k = record { at = k.at }

  pub Keeps-void : (m : Exec S A) → Keeps P m → Keeps P (void m)
  unfolding void
  Keeps-void m k = record { at = k.at }

  pub Keeps-attempt : (m : Exec S A) → Keeps P m → Keeps P (attempt m)
  unfolding attempt
  Keeps-attempt m k = record { at = k.at }

  pub Keeps-transaction_else :
      (commits : A → Bool) (lost : Result A) (m : Exec S A)
      → Keeps P m
      → Keeps P (transaction_else commits lost m)
  unfolding transaction_else
  Keeps-transaction_else commits lost m k = record {
    at = λ w h. elim (Bool-cases (w.outside.fails w.step)) [
      | inl e ↦ rw e h
      | inr e ↦ rw e (finish_with P commits lost w.db (m (next w)) h (k.at (next w) h))
    ];
  }

  pub Keeps-transaction_if :
      (commits : A → Bool) (m : Exec S A) → Keeps P m → Keeps P (transaction_if commits m)
  unfolding transaction_if
  Keeps-transaction_if commits m k = Keeps-transaction_else commits _ m k

  pub Keeps-transaction : (m : Exec S A) → Keeps P m → Keeps P (transaction m)
  unfolding transaction
  Keeps-transaction m k = Keeps-transaction_if (λ _. true) m k

module _ {S : Type 0} {P : S → Type 0} where
  pub Keeps-time_now : Keeps P time_now
  unfolding time_now
  Keeps-time_now = record { at = λ w h. h }

  pub Keeps-generate_job_id : Keeps P generate_job_id
  unfolding generate_job_id
  Keeps-generate_job_id = record { at = λ w h. h }

  pub Keeps-exec : (f : ℕ → S → S) → ((now : ℕ) (s : S) → P s → P (f now s)) → Keeps P (exec f)
  unfolding exec
  Keeps-exec f k = record {
    at = λ w h. elim (Bool-cases (w.outside.fails w.step)) [
      | inl e ↦ rw e h
      | inr e ↦ rw e (k _ w.db h)
    ];
  }

module _ {S A B : Type 0} {P : S → Type 0} where
  continue_with :
      (f : A → Exec S B) (r : Result A) (w : World S)
      → ((a : A) → Keeps P (f a))
      → P w.db
      → P (continue f (r, w)).1.db
  continue_with f (ok a) w k h = (k a).at w h
  continue_with f (err e) w k h = h

  pub Keeps-bind :
      (start : Exec S A) (rest : A → Exec S B)
      → Keeps P start
      → ((value : A) → Keeps P (rest value))
      → Keeps P (start >>= rest)
  unfolding ◌>>=◌
  Keeps-bind start rest kept kept_rest = record {
    at = λ w h. let (r, w') = start w in continue_with rest r w' kept_rest (kept.at w h);
  }

pub Keeps-both :
    {S A : Type 0} {P R : S → Type 0} (m : Exec S A)
    → Keeps P m
    → Keeps R m
    → Keeps (λ s. P s × R s) m
Keeps-both m k l = record { at = λ w h. (k.at w h.0, l.at w h.1) }

pub ruleset keeps_rules = (
  Keeps-pure, Keeps-raise, Keeps-query, Keeps-query_row, Keeps-if, Keeps-or_zero, Keeps-attempt,
  Keeps-void, Keeps-transaction_else, Keeps-transaction_if, Keeps-transaction, Keeps-time_now,
  Keeps-generate_job_id, Keeps-bind,
)

-- ===== src/Sql/Fuel.antt =====
-- Actions that do not stop for want of fuel: one rule for each way to build an action.
use orkai_runiq.Common.{
  ℕ, ◌≡◌, ◌≢◌, refl, Bool, true, false, Option, none, some, inl, inr, arith, if◌then◌else◌,
  Bool-cases,
}
use orkai_runiq.Sql.Statements.{
  Error, Result, ok, err, out_of_fuel, World, Exec, exec, query, query_row, row, settle, pure,
  continue, or_zero, defaulted, attempt, transaction, finish, next, time_now, ◌>>=◌,
}

-- The action keeps `P`, and does not stop for want of fuel.
pub record Ends {S A : Type 0} (P : S → Type 0) (m : Exec S A) : Type 0 where
  pub at : (w : World S) → P w.db → ((m w).0 ≢ err out_of_fuel) × P (m w).1.db

module _ {S : Type 0} {P : S → Type 0} where
  pub Ends-exec : (f : ℕ → S → S) → ((now : ℕ) (db : S) → P db → P (f now db)) → Ends P (exec f)
  unfolding exec
  Ends-exec f k = record {
    at = λ w h. elim (Bool-cases (w.outside.fails w.step)) [
      | inl e ↦ rw e ((λ q. ground arith), h)
      | inr e ↦ rw e ((λ q. ground arith), k _ w.db h)
    ];
  }

settle_row :
    {S A : Type 0} (P : S → Type 0) (o : Option A) (w : World S)
    → P w.db
    → ((settle w (row w.db o)).0 ≢ err out_of_fuel) × P (settle w (row w.db o)).1.db
settle_row P none w h = ((λ q. ground arith), h)
settle_row P (some a) w h = ((λ q. ground arith), h)

module _ {S A : Type 0} {P : S → Type 0} where
  pub Ends-pure : (a : A) → Ends P (pure a)
  unfolding pure
  Ends-pure a = record { at = λ w h. ((λ q. ground arith), h) }

  pub Ends-if : (b : Bool) (m n : Exec S A) → Ends P m → Ends P n → Ends P (if b then m else n)
  Ends-if true m n k l = k
  Ends-if false m n k l = l

module _ {S A : Type 0} {P : S → Type 0} where
  pub Ends-query_row : (f : S → Option A) → Ends P (query_row f)
  unfolding query_row
  Ends-query_row f = record {
    at = λ w h. elim (Bool-cases (w.outside.fails w.step)) [
      | inl e ↦ rw e ((λ q. ground arith), h)
      | inr e ↦ rw e (settle_row P (f w.db) (next w) h)
    ];
  }

defaulted_ends :
    {A : Type 0} (d : A) (r : Result A) → r ≢ err out_of_fuel → defaulted d r ≢ err out_of_fuel
defaulted_ends d (ok a) h q = ground arith
defaulted_ends d (err Error.no_rows) h q = ground arith
defaulted_ends d (err Error.driver_error) h q = ground arith
defaulted_ends d (err Error.constraint) h q = ground arith
defaulted_ends d (err Error.duplicate_job) h q = ground arith
defaulted_ends d (err Error.circuit_breaker_open) h q = ground arith
defaulted_ends d (err Error.not_encrypted) h q = ground arith
defaulted_ends d (err Error.invalid_callback) h q = ground arith
defaulted_ends d (err Error.out_of_fuel) h q = h refl

finish_ends :
    {S A : Type 0} (P : S → Type 0) (before : S) (out : Result A × World S)
    → out.0 ≢ err out_of_fuel
    → P before
    → P out.1.db
    → ((finish (λ _. true) (err Error.driver_error) before out).0 ≢ err out_of_fuel)
      × P (finish (λ _. true) (err Error.driver_error) before out).1.db
finish_ends P before (err e, w) h b k = (h, b)
finish_ends P before (ok a, w) h b k = elim (Bool-cases (w.outside.fails w.step)) [
  | inl e ↦ rw e ((λ q. ground arith), b)
  | inr e ↦ rw e ((λ q. ground arith), k)
]

module _ {S A : Type 0} {P : S → Type 0} where
  pub Ends-or_zero : (d : A) (m : Exec S A) → Ends P m → Ends P (or_zero d m)
  unfolding or_zero
  Ends-or_zero d m k = record {
    at = λ w h. let (e, p) = k.at w h in (defaulted_ends d (m w).0 e, p);
  }

  pub Ends-attempt : (m : Exec S A) → Ends P m → Ends P (attempt m)
  unfolding attempt
  Ends-attempt m k = record { at = λ w h. ((λ q. ground arith), (k.at w h).1) }

  pub Ends-transaction : (m : Exec S A) → Ends P m → Ends P (transaction m)
  unfolding transaction
  Ends-transaction m k = record {
    at = λ w h. elim (Bool-cases (w.outside.fails w.step)) [
      | inl e ↦ rw e ((λ q. ground arith), h)
      | inr e ↦ let (f, p) = k.at (next w) h in rw e (finish_ends P w.db (m (next w)) f h p)
    ];
  }

module _ {S : Type 0} {P : S → Type 0} where
  pub Ends-time_now : Ends P time_now
  unfolding time_now
  Ends-time_now = record { at = λ w h. ((λ q. ground arith), h) }

module _ {S A B : Type 0} {P : S → Type 0} where
  continue-Ends :
      (f : A → Exec S B) (out : Result A × World S)
      → ((a : A) → Ends P (f a))
      → out.0 ≢ err out_of_fuel
      → P out.1.db
      → ((continue f out).0 ≢ err out_of_fuel) × P (continue f out).1.db
  continue-Ends f (ok a, w) k e h = (k a).at w h
  continue-Ends f (err x, w) k e h = ((λ q. e (ground arith)), h)

  pub Ends-bind :
      (m : Exec S A) (f : A → Exec S B) → Ends P m → ((a : A) → Ends P (f a)) → Ends P (m >>= f)
  unfolding ◌>>=◌
  Ends-bind m f km kf = record {
    at = λ w h. let (e, p) = km.at w h in continue-Ends f (m w) kf e p;
  }

  -- What follows a query may use what it found.
  pub Ends-query_bind :
      (q : ℕ → S → A) (f : A → Exec S B)
      → ((now : ℕ) (db : S) (w : World S)
          → P db
          → w.db ≡ db
          → ((f (q now db) w).0 ≢ err out_of_fuel) × P (f (q now db) w).1.db)
      → Ends P (query q >>= f)
  unfolding ◌>>=◌ query
  Ends-query_bind q f k = record {
    at = λ w h. elim (Bool-cases (w.outside.fails w.step)) [
      | inl e ↦ rw e ((λ x. ground arith), h)
      | inr e ↦ rw e (k _ w.db (next w) h refl)
    ];
  }

pub ruleset ends_rules =
    (Ends-pure, Ends-if, Ends-query_row, Ends-or_zero, Ends-attempt, Ends-transaction, Ends-bind)

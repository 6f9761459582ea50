-- ===== src/Sql/Statements.antt =====
-- Statements, transactions and what a process reads from outside. A statement may fail, and then
-- changes nothing; a transaction that is not committed leaves the database as it was.
use orkai_runiq.Common.{ℕ, suc, Bool, true, Option, none, some, Text, if◌then◌else◌}

pub data Error : Type 0 where
  -- the driver's own failures: a lost connection, a busy database, a failed COMMIT
  driver_error : Error
  -- sql.ErrNoRows
  no_rows : Error
  -- a violated PRIMARY KEY
  constraint : Error
  -- ErrDuplicateJob
  duplicate_job : Error
  -- ErrCircuitBreakerOpen
  circuit_breaker_open : Error
  -- an error of EncryptPayload
  not_encrypted : Error
  -- an error of validateCallback
  invalid_callback : Error
  -- the recursion of a model function was cut off
  out_of_fuel : Error

pub data Result {ℓ} (A : Type ℓ) : Type ℓ where
  ok : A → Result A
  err : Error → Result A

-- What a process reads from outside, at each of its steps: the clock in nanoseconds since the
-- epoch, whether a statement fails, and the identifiers that `generateJobID` draws.
pub record Outside : Type 0 where
  pub clock : ℕ → ℕ
  pub fails : ℕ → Bool
  pub job_id : ℕ → Text

pub record World (S : Type 0) : Type 0 where
  pub outside : Outside
  pub step : ℕ
  pub db : S

abbrev pub Exec : Type 0 → Type 0 → Type 0
Exec S A = World S → Result A × World S

abbrev pub emptied : {A : Type 0} → Result A → Result (Unit {0})
emptied (ok a) = ok tt
emptied (err e) = err e

abbrev pub defaulted : {A : Type 0} → A → Result A → Result A
defaulted d (ok a) = ok a
defaulted d (err no_rows) = ok d
defaulted d (err e) = err e

module _ {S : Type 0} where
  abbrev pub next : World S → World S
  next w = record w { step = suc w.step }

  abbrev pub with_db : World S → S → World S
  with_db w s = record w { db = s }

  abbrev pub settle : {A : Type 0} → World S → Result (A × S) → Result A × World S
  settle w (ok (a, s)) = (ok a, with_db w s)
  settle w (err e) = (err e, w)

  -- One statement. It sees the time at which it runs.
  unfoldable pub statement : {A : Type 0} → (ℕ → S → Result (A × S)) → Exec S A
  statement f w =
      if w.outside.fails w.step
      then (err driver_error, next w)
      else settle (next w) (f (w.outside.clock w.step) w.db)

  -- time.Now()
  unfoldable pub time_now : Exec S ℕ
  time_now w = (ok (w.outside.clock w.step), next w)

  -- generateJobID()
  unfoldable pub generate_job_id : Exec S Text
  generate_job_id w = (ok (w.outside.job_id w.step), next w)

  unfoldable pub pure : {A : Type 0} → A → Exec S A
  pure a w = (ok a, w)

  unfoldable pub raise : {A : Type 0} → Error → Exec S A
  raise e w = (err e, w)

  abbrev pub continue : {A B : Type 0} → (A → Exec S B) → Result A × World S → Result B × World S
  continue f (ok a, w) = f a w
  continue f (err e, w) = (err e, w)

  infixl 5 ◌>>=◌ ◌>>◌
  unfoldable pub ◌>>=◌ : {A B : Type 0} → Exec S A → (A → Exec S B) → Exec S B
  ◌>>=◌ m f w = continue f (m w)

  abbrev pub ◌>>◌ : {B : Type 0} → Exec S (Unit {0}) → Exec S B → Exec S B
  m >> k = m >>= λ _. k

  -- The error as a value, for a caller that looks at it or drops it.
  abbrev pub caught : {A : Type 0} → Result A × World S → Result (Result A) × World S
  caught (r, w) = (ok r, w)

  unfoldable pub attempt : {A : Type 0} → Exec S A → Exec S (Result A)
  attempt m w = caught (m w)

  -- An INSERT, UPDATE or DELETE without a result.
  unfoldable pub exec : (ℕ → S → S) → Exec S (Unit {0})
  unfolding statement
  exec f = statement λ now s. ok (tt, f now s)

  -- A SELECT that does not stop at a missing row.
  unfoldable pub query : {A : Type 0} → (ℕ → S → A) → Exec S A
  unfolding statement
  query f = statement λ now s. ok (f now s, s)

  abbrev pub row : {A : Type 0} → S → Option A → Result (A × S)
  row s none = err no_rows
  row s (some a) = ok (a, s)

  -- QueryRow and Scan.
  unfoldable pub query_row : {A : Type 0} → (S → Option A) → Exec S A
  unfolding statement
  query_row f = statement λ now s. row s (f s)

  -- `if err != nil && err != sql.ErrNoRows { return err }`, the variables keeping their zero values.
  unfoldable pub or_zero : {A : Type 0} → A → Exec S A → Exec S A
  or_zero d m w = let (r, w') = m w in (defaulted d r, w')

  -- A caller that looks at the error only.
  unfoldable pub void : {A : Type 0} → Exec S A → Exec S (Unit {0})
  void m w = let (r, w') = m w in (emptied r, w')

  -- COMMIT, or the deferred ROLLBACK where the code returns before it. `lost` is what the code
  -- returns when COMMIT fails.
  abbrev pub finish :
      {A : Type 0} → (A → Bool) → Result A → S → Result A × World S → Result A × World S
  finish commits lost before (err e, w) = (err e, with_db w before)
  finish commits lost before (ok a, w) =
      if commits a
      then (if w.outside.fails w.step then (lost, next (with_db w before)) else (ok a, next w))
      else (ok a, with_db w before)

  -- BeginTx, a body, and Commit on the results for which the code reaches it.
  unfoldable pub transaction_else : {A : Type 0} → (A → Bool) → Result A → Exec S A → Exec S A
  transaction_else commits lost body w =
      if w.outside.fails w.step
      then (err driver_error, next w)
      else finish commits lost w.db (body (next w))

  unfoldable pub transaction_if : {A : Type 0} → (A → Bool) → Exec S A → Exec S A
  unfolding transaction_else
  transaction_if commits = transaction_else commits (err driver_error)

  unfoldable pub transaction : {A : Type 0} → Exec S A → Exec S A
  unfolding transaction_if
  transaction = transaction_if (λ _. true)

-- ===== src/Sql/Success.antt =====
-- What a successful action tells of its parts.
use orkai_runiq.Common.{
  ℕ, ◌≡◌, refl, sym, ap, Bool, true, Option, none, some, Bool-cases, inl, inr, arith,
}
use orkai_runiq.Sql.Statements.{
  Error, Result, ok, err, World, Exec, next, settle, statement, time_now, continue, ◌>>=◌, exec,
  query, query_row, row, finish, transaction_if, transaction,
}

module _ {S A B : Type 0} where
  pub continue-ok :
      (f : A → Exec S B) (out : Result A × World S) {b : B} {w'' : World S}
      → continue f out ≡ (ok b, w'')
      → (a : A) × (w' : World S) × (out ≡ (ok a, w')) × (f a w' ≡ (ok b, w''))
  continue-ok f (ok a, w) h = (a, w, refl, h)
  continue-ok f (err e, w) h = ground arith

  pub bind-ok :
      (m : Exec S A) (f : A → Exec S B) (w : World S) {b : B} {w'' : World S}
      → (m >>= f) w ≡ (ok b, w'')
      → (a : A) × (w' : World S) × (m w ≡ (ok a, w')) × (f a w' ≡ (ok b, w''))
  unfolding ◌>>=◌
  bind-ok m f w h = continue-ok f (m w) h

module _ {S A : Type 0} where
  settle-ok :
      (r : Result (A × S)) (w : World S) {a : A} {w' : World S}
      → settle w r ≡ (ok a, w')
      → r ≡ ok (a, w'.db)
  settle-ok (ok (a, s)) w h = ground arith
  settle-ok (err e) w h = ground arith

  pub statement-ok :
      (f : ℕ → S → Result (A × S)) (w : World S) {a : A} {w' : World S}
      → statement f w ≡ (ok a, w')
      → f (w.outside.clock w.step) w.db ≡ ok (a, w'.db)
  unfolding statement
  statement-ok f w h = elim (Bool-cases (w.outside.fails w.step)) [
    | inl b ↦ cc (b, h)
    | inr b ↦ settle-ok _ (next w) (rw b at h)
  ]

module _ {S : Type 0} where
  pub exec-ok :
      (f : ℕ → S → S) (w : World S) {w' : World S}
      → exec f w ≡ (ok tt, w')
      → w'.db ≡ f (w.outside.clock w.step) w.db
  unfolding exec statement
  exec-ok f w h = ground arith

  pub time_now-ok :
      (w : World S) {now : ℕ} {w' : World S}
      → time_now w ≡ (ok now, w')
      → (now ≡ w.outside.clock w.step) × (w'.db ≡ w.db)
  unfolding time_now
  time_now-ok w h = ground arith

module _ {S A : Type 0} where
  pub query-ok :
      (f : ℕ → S → A) (w : World S) {a : A} {w' : World S}
      → query f w ≡ (ok a, w')
      → (a ≡ f (w.outside.clock w.step) w.db) × (w'.db ≡ w.db)
  unfolding query statement
  query-ok f w h = ground arith

  settle_row :
      (o : Option A) (w : World S) {a : A} {w' : World S}
      → settle w (row w.db o) ≡ (ok a, w')
      → (o ≡ some a) × (w'.db ≡ w.db)
  settle_row none w h = ground arith
  settle_row (some b) w h = ground arith

  settle_row_next :
      (o : Option A) (w : World S) {a : A} {w' : World S}
      → settle w (row w.db o) ≡ (ok a, w')
      → w' ≡ w
  settle_row_next none w h = absurd (ground arith)
  settle_row_next (some b) w h = sym (ap (λ (out : Result A × World S). out.1) h)

  -- A query that finds its row only takes a step.
  pub query_row-next :
      (f : S → Option A) (w : World S) {a : A} {w' : World S}
      → query_row f w ≡ (ok a, w')
      → w' ≡ next w
  unfolding query_row statement
  query_row-next f w h = elim (Bool-cases (w.outside.fails w.step)) [
    | inl b ↦ absurd (cc (b, h))
    | inr b ↦ settle_row_next (f w.db) (next w) (rw b at h)
  ]

  pub query_row-ok :
      (f : S → Option A) (w : World S) {a : A} {w' : World S}
      → query_row f w ≡ (ok a, w')
      → (f w.db ≡ some a) × (w'.db ≡ w.db)
  unfolding query_row statement
  query_row-ok f w h = elim (Bool-cases (w.outside.fails w.step)) [
    | inl b ↦ cc (b, h)
    | inr b ↦ settle_row (f w.db) (next w) (rw b at h)
  ]

  finish-ok :
      (commits : A → Bool) (s : S) (e : Error) (out : Result A × World S) {a : A} {w' : World S}
      → finish commits (err e) s out ≡ (ok a, w')
      → commits a ≡ true
      → (w1 : World S) × (out ≡ (ok a, w1)) × (w'.db ≡ w1.db)
  finish-ok commits s e (ok b, w) h c = (w, ground arith, ground arith)
  finish-ok commits s e (err x, w) h c = ground arith

  -- A committed transaction has the effect of its body.
  pub transaction_if-ok :
      (commits : A → Bool) (m : Exec S A) (w : World S) {a : A} {w' : World S}
      → transaction_if commits m w ≡ (ok a, w')
      → commits a ≡ true
      → (w1 : World S) × (m (next w) ≡ (ok a, w1)) × (w'.db ≡ w1.db)
  unfolding transaction_if
  transaction_if-ok commits m w h c = elim (Bool-cases (w.outside.fails w.step)) [
    | inl b ↦ cc (b, h)
    | inr b ↦ finish-ok commits w.db _ (m (next w)) (rw b at h) c
  ]

  pub transaction-ok :
      (m : Exec S A) (w : World S) {a : A} {w' : World S}
      → transaction m w ≡ (ok a, w')
      → (w1 : World S) × (m (next w) ≡ (ok a, w1)) × (w'.db ≡ w1.db)
  unfolding transaction
  transaction-ok m w h = transaction_if-ok (λ _. true) m w h refl

-- ===== src/Sql/Triples.antt =====
-- What holds after a successful action: one rule for each way to build an action.
use orkai_runiq.Common.{ℕ, ◌≡◌, refl, Bool, true, false, if◌then◌else◌, arith, subst, sym}
use orkai_runiq.Sql.Statements.{
  Error, Result, ok, err, World, Exec, pure, raise, ◌>>=◌, exec, query, next, transaction, time_now,
}
use orkai_runiq.Sql.Invariants.{Keeps}
use orkai_runiq.Sql.Success.{time_now-ok, bind-ok, exec-ok, query-ok, transaction-ok}

-- From a database that satisfies `P`, a success with the value a ends in one that satisfies `Q a`.
pub record Gives {S A : Type 0} (P : S → Type 0) (m : Exec S A) (Q : A → S → Type 0) : Type 0 where
  pub at : (w : World S) (a : A) (w' : World S) → P w.db → m w ≡ (ok a, w') → Q a w'.db

module _ {S A : Type 0} {P : S → Type 0} where
  pub Gives-pure : {Q : A → S → Type 0} (a : A) → ((s : S) → P s → Q a s) → Gives P (pure a) Q
  unfolding pure
  Gives-pure {Q} a k = record {
    at = λ w b w' h e. subst (λ (x : Result A × World S). carried Q x) e (k w.db h);
  }
    where
      carried : (A → S → Type 0) → Result A × World S → Type 0
      carried Q (ok a, w) = Q a w.db
      carried Q (err e, w) = Unit

  pub Gives-raise : {Q : A → S → Type 0} (e : Error) → Gives P (raise {A = A} e) Q
  unfolding raise
  Gives-raise e = record { at = λ w a w' h q. absurd (ground arith) }

  pub Gives-query :
      {Q : A → S → Type 0} (f : ℕ → S → A)
      → ((now : ℕ) (s : S) → P s → Q (f now s) s)
      → Gives P (query f) Q
  Gives-query {Q} f k = record {
    at = λ w a w' h e.
        let (value, same) = query-ok f w e in
        subst (λ x. Q x w'.db) (sym value)
          (subst (λ s. Q (f (w.outside.clock w.step) w.db) s) (sym same) (k _ w.db h));
  }

  pub Gives-Keeps : (m : Exec S A) → Keeps P m → Gives P m (λ a s. P s)
  Gives-Keeps m k = record {
    at = λ w a w' h e. subst (λ (x : Result A × World S). P x.1.db) e (k.at w h);
  }

  pub Gives-weaken :
      {Q R : A → S → Type 0} (m : Exec S A)
      → Gives P m Q
      → ((a : A) (s : S) → Q a s → R a s)
      → Gives P m R
  Gives-weaken m g k = record { at = λ w a w' h e. k a w'.db (g.at w a w' h e) }

  pub Gives-if :
      {Q : A → S → Type 0} (b : Bool) (m n : Exec S A)
      → (b ≡ true → Gives P m Q)
      → (b ≡ false → Gives P n Q)
      → Gives P (if b then m else n) Q
  Gives-if true m n k l = k refl
  Gives-if false m n k l = l refl

module _ {S : Type 0} {P : S → Type 0} where
  pub Gives-time_now : Gives P time_now (λ now s. P s)
  Gives-time_now = record { at = λ w a w' h e. subst P (sym (time_now-ok w e).1) h }

  pub Gives-exec :
      {Q : Unit {0} → S → Type 0} (f : ℕ → S → S)
      → ((now : ℕ) (s : S) → P s → Q tt (f now s))
      → Gives P (exec f) Q
  Gives-exec {Q} f k = record { at = λ w a w' h e. subst (Q tt) (sym (exec-ok f w e)) (k _ w.db h) }

module _ {S A B : Type 0} {P : S → Type 0} where
  pub Gives-bind :
      {Q : A → S → Type 0} {R : B → S → Type 0} (m : Exec S A) (f : A → Exec S B)
      → Gives P m Q
      → ((a : A) → Gives (Q a) (f a) R)
      → Gives P (m >>= f) R
  Gives-bind m f g k = record {
    at = λ w b w'' h e.
        let (a, w', first, rest) = bind-ok m f w e in (k a).at w' b w'' (g.at w a w' h first) rest;
  }

pub Gives-from :
    {S A : Type 0} {P R : S → Type 0} {Q : A → S → Type 0} (m : Exec S A)
    → ((s : S) → R s → P s)
    → Gives P m Q
    → Gives R m Q
Gives-from m k g = record { at = λ w a w' h e. g.at w a w' (k w.db h) e }

-- A transaction that commits has done what its body did.
pub Gives-transaction :
    {S A : Type 0} {P : S → Type 0} {Q : A → S → Type 0} (m : Exec S A)
    → Gives P m Q
    → Gives P (transaction m) Q
Gives-transaction {Q = Q} m g = record {
  at = λ w a w' h e.
      let (w1, run, same) = transaction-ok m w e in
      subst (Q a) (sym same) (g.at (next w) a w1 h run);
}

-- What an action keeps holds beside what it gives.
pub Gives-Keeping :
    {S A : Type 0} {P R : S → Type 0} {Q : A → S → Type 0} (m : Exec S A)
    → Gives P m Q
    → Keeps R m
    → Gives (λ s. P s × R s) m (λ a s. Q a s × R s)
Gives-Keeping m g k = record {
  at = λ w a w' h e. (g.at w a w' h.0 e, (Gives-Keeps m k).at w a w' h.1 e);
}

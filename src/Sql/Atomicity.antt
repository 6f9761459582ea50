-- ===== src/Sql/Atomicity.antt =====
-- Actions that change nothing when they fail, and actions that only read.
use orkai_runiq.Common.{ℕ, ◌≡◌, refl, ◌∙◌, Bool, true, Bool-cases, inl, inr, arith}
use orkai_runiq.Sql.Statements.{
  Error, Result, ok, err, World, Exec, next, settle, statement, time_now, pure, continue, ◌>>=◌,
  void, emptied, finish, transaction_else, transaction_if, transaction,
}
use orkai_runiq.Sql.Invariants.{Keeps, keeps_rules}

-- An action that only reads.
pub record ReadsOnly {S A : Type 0} (m : Exec S A) : Type 0 where
  pub same : (w : World S) → (m w).1.db ≡ w.db

-- An action that leaves the database as it was when it returns an error.
pub record IsAtomic {S A : Type 0} (m : Exec S A) : Type 0 where
  pub rolled_back : (w : World S) (e : Error) → (m w).0 ≡ err e → (m w).1.db ≡ w.db

emptied_error : {A : Type 0} (r : Result A) (e : Error) → emptied r ≡ err e → r ≡ err e
emptied_error (ok a) e h = cc
emptied_error (err x) e h = ground arith

module _ {S A : Type 0} where
  -- What keeps every property keeps the database.
  pub Keeps-ReadsOnly : (m : Exec S A) → ((s : S) → Keeps (λ t. t ≡ s) m) → ReadsOnly m
  Keeps-ReadsOnly m k = record { same = λ w. (k w.db).at w refl }

  pub ReadsOnly-IsAtomic : (m : Exec S A) → ReadsOnly m → IsAtomic m
  ReadsOnly-IsAtomic m r = record { rolled_back = λ w e h. r.same w }

  settle_error :
      (r : Result (A × S)) (w : World S) (e : Error)
      → (settle w r).0 ≡ err e
      → (settle w r).1.db ≡ w.db
  settle_error (ok (a, s)) w e h = cc
  settle_error (err x) w e h = refl

  pub IsAtomic-statement : (f : ℕ → S → Result (A × S)) → IsAtomic (statement f)
  unfolding statement
  IsAtomic-statement f = record {
    rolled_back = λ w e. elim (Bool-cases (w.outside.fails w.step)) [
      | inl b ↦ rw b (λ h. refl)
      | inr b ↦ rw b (settle_error _ (next w) e)
    ];
  }

  pub IsAtomic-void : (m : Exec S A) → IsAtomic m → IsAtomic (void m)
  unfolding void
  IsAtomic-void m k = record {
    rolled_back = λ w e h. k.rolled_back w e (emptied_error (m w).0 e h);
  }

  finish_error :
      (commits : A → Bool) (lost : Result A) (s : S) (out : Result A × World S) (e : Error)
      → (finish commits lost s out).0 ≡ err e
      → (finish commits lost s out).1.db ≡ s
  finish_error commits lost s (err x, w) e = λ h. refl
  finish_error commits lost s (ok a, w) e = elim (Bool-cases (commits a)) [
    | inl c ↦ rw c (elim (Bool-cases (w.outside.fails w.step)) [
      | inl b ↦ rw b (λ h. refl)
      | inr b ↦ rw b (λ h. cc)
    ])
    | inr c ↦ rw c (λ h. cc)
  ]

  pub IsAtomic-transaction_else :
      (commits : A → Bool) (lost : Result A) (m : Exec S A)
      → IsAtomic (transaction_else commits lost m)
  unfolding transaction_else
  IsAtomic-transaction_else commits lost m = record {
    rolled_back = λ w e. elim (Bool-cases (w.outside.fails w.step)) [
      | inl b ↦ rw b (λ h. refl)
      | inr b ↦ rw b (finish_error commits lost w.db (m (next w)) e)
    ];
  }

  pub IsAtomic-transaction_if :
      (commits : A → Bool) (m : Exec S A) → IsAtomic (transaction_if commits m)
  unfolding transaction_if
  IsAtomic-transaction_if commits m = IsAtomic-transaction_else commits _ m

  pub IsAtomic-transaction : (m : Exec S A) → IsAtomic (transaction m)
  unfolding transaction
  IsAtomic-transaction m = IsAtomic-transaction_if (λ _. true) m

module _ {S A B : Type 0} where
  continue_error :
      (f : A → Exec S B) (out : Result A × World S) (s : S) (e : Error)
      → ((a : A) → IsAtomic (f a))
      → out.1.db ≡ s
      → (continue f out).0 ≡ err e
      → (continue f out).1.db ≡ s
  continue_error f (ok a, w) s e k same h = (k a).rolled_back w e h ∙ same
  continue_error f (err x, w) s e k same h = same

  -- Reads may come before the part that writes.
  pub IsAtomic-bind :
      (m : Exec S A) (f : A → Exec S B)
      → ReadsOnly m
      → ((a : A) → IsAtomic (f a))
      → IsAtomic (m >>= f)
  unfolding ◌>>=◌
  IsAtomic-bind m f r k = record {
    rolled_back = λ w e h. continue_error f (m w) w.db e k (r.same w) h;
  }

module _ {S : Type 0} where
  pub IsAtomic-pure : {A : Type 0} (a : A) → IsAtomic (pure {S = S} a)
  unfolding pure
  IsAtomic-pure a = record { rolled_back = λ w e h. cc }

  pub ReadsOnly-time_now : ReadsOnly (time_now {S = S})
  ReadsOnly-time_now = Keeps-ReadsOnly time_now (λ s. search keeps_rules)

pub ruleset atomic_rules = (
  IsAtomic-pure, IsAtomic-void, IsAtomic-statement, IsAtomic-transaction_else,
  IsAtomic-transaction_if, IsAtomic-transaction, IsAtomic-bind, ReadsOnly-time_now,
)

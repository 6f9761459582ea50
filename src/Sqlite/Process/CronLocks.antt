-- ===== src/Sqlite/Process/CronLocks.antt =====
-- The cron locks: queue/sqlite_process.go, LockCronExecution.
use orkai_runiq.Common.{
  ℕ, suc, ◌==◌, ◌≤◌, ◌≡◌, ◌≢◌, ◌⊎◌, ◌∙◌, refl, sym, subst, Text, text_eq, text_eq_refl, Bool, true,
  false, List, [], ◌∷◌, ◌++◌, inl, inr, ltb, arith, Bool-cases, shift,
}
use orkai_runiq.Sql.{
  Result, ok, World, Exec, Keeps, Keeps-bind, Keeps-statement, Keeps-pure, exec, pure, time_now,
  attempt, statement, ◌>>=◌, exists, delete,
}
use orkai_runiq.Sqlite.Tables.{CronLockRow, Db}
use orkai_runiq.Sqlite.Admin.{negated}
use orkai_runiq.Sqlite.Process.{
  truncate_minute, same_execution, insert_cron_lock, hour, forget_cron_locks, lock_cron_execution,
}

abbrev claimed : Text → ℕ → Db → Bool
claimed name minute db = exists (same_execution name minute) db.cron_locks

abbrev claiming : CronLockRow → Exec Db Bool
claiming r = statement (λ _. insert_cron_lock r) >>= λ rows. pure (ltb 0 rows)

same_itself : (r : CronLockRow) → same_execution r.cron_name r.execution_minute r ≡ true
same_itself r = rw (text_eq_refl r.cron_name) (ground arith)

exists-last :
    {A : Type 0} (p : A → Bool) (rs : List A) (r : A) → p r ≡ true → exists p (rs ++ r ∷ []) ≡ true
exists-last p [] r h = rw h refl
exists-last p (a ∷ rs) r h = ground (arith, exists-last p rs r h)

exists-delete :
    {A : Type 0} (p q : A → Bool) (rs : List A)
    → ((a : A) → p a ≡ true → q a ≡ false)
    → exists p rs ≡ true
    → exists p (delete q rs) ≡ true
exists-delete p q [] k h = h
exists-delete p q (r ∷ rs) k h = elim (Bool-cases (p r)) [
  | inl e ↦ rw (k r e, e) refl
  | inr e ↦ elim (Bool-cases (q r)) [
    | inl f ↦ rw f (exists-delete p q rs k (rw e at h))
    | inr f ↦ rw (f, e) (exists-delete p q rs k (rw e at h))
  ]
]

claiming-claimed :
    (r : CronLockRow) (w w' : World Db)
    → claiming r w ≡ (ok true, w')
    → claimed r.cron_name r.execution_minute w'.db ≡ true
unfolding statement ◌>>=◌ pure
claiming-claimed r w w' h = elim (Bool-cases (w.outside.fails w.step)) [
  | inl b ↦ absurd (cc (b, h))
  | inr b ↦ elim (Bool-cases (claimed r.cron_name r.execution_minute w.db)) [
    | inl c ↦ absurd (ground (arith, b, c, h))
    | inr c ↦
        subst
          (λ (out : Result Bool × World Db). claimed r.cron_name r.execution_minute out.1.db ≡ true)
          (rw (b, c) at h) (exists-last _ w.db.cron_locks r (same_itself r))
  ]
]

claiming_refused :
    (r : CronLockRow) (w : World Db)
    → claimed r.cron_name r.execution_minute w.db ≡ true
    → (claiming r w).0 ≢ ok true
unfolding statement ◌>>=◌ pure
claiming_refused r w c q = elim (Bool-cases (w.outside.fails w.step)) [
  | inl b ↦ absurd (cc (b, q))
  | inr b ↦ absurd (ground (arith, b, c, q))
]

abbrev execution : Text → ℕ → ℕ → CronLockRow
execution name minute now = record {
  cron_name = name;
  execution_minute = minute;
  acquired_at = now;
}

-- The claiming comes after a clean-up that may fail.
lock-claims :
    (name : Text) (minute : ℕ) (w : World Db)
    → (v : World Db) × (v.outside ≡ w.outside)
      × ((v.db ≡ w.db)
          ⊎ (v.db ≡ forget_cron_locks (shift (w.outside.clock w.step) (negated hour)) w.db))
      × (lock_cron_execution name minute w
          ≡ claiming
              (execution name (truncate_minute minute) (w.outside.clock (suc (suc w.step))))
              v)
unfolding lock_cron_execution time_now attempt exec statement ◌>>=◌ pure
lock-claims name minute w = elim (Bool-cases (w.outside.fails (suc w.step))) [
  | inl b ↦ (record w { step = suc (suc (suc w.step)) }, refl, inl refl, rw b refl)
  | inr b ↦ (
    record {
      outside = w.outside;
      step = suc (suc (suc w.step));
      db = forget_cron_locks (shift (w.outside.clock w.step) (negated hour)) w.db;
    },
    refl,
    inr refl,
    rw b refl,
  )
]

same_minute :
    (name : Text) (minute before : ℕ) (r : CronLockRow)
    → before ≤ minute
    → same_execution name minute r ≡ true
    → ltb r.execution_minute before ≡ false
same_minute name minute before r h q = elim (Bool-cases (text_eq r.cron_name name)) [
  | inl e ↦ at_minute r.execution_minute (rw e at q)
  | inr e ↦ absurd (cc (e, q))
]
  where
    at_minute : (at : ℕ) → (at == minute) ≡ true → ltb at before ≡ false
    at_minute at k = ground arith

-- The database after other calls: LockCronExecution for any names and minutes, by processes whose clocks
-- are not more than an hour after the minute, and whatever leaves the cron locks alone.
pub data IsAfter (minute : ℕ) (db : Db) : Db → Type 0 where
  at_once : IsAfter minute db db
  locks :
      (name : Text) (at : ℕ) (u : World Db)
      → IsAfter minute db u.db
      → shift (u.outside.clock u.step) (negated hour) ≤ minute
      → IsAfter minute db (lock_cron_execution name at u).1.db
  elsewhere :
      {t : Db} (u : Db) → IsAfter minute db t → u.cron_locks ≡ t.cron_locks → IsAfter minute db u

cleaned-claimed :
    (name : Text) (minute before : ℕ) (db b : Db)
    → ((b ≡ db) ⊎ (b ≡ forget_cron_locks before db))
    → before ≤ minute
    → claimed name minute db ≡ true
    → claimed name minute b ≡ true
cleaned-claimed name minute before db b cleaned late held = elim cleaned [
  | inl e ↦ rw e held
  | inr e ↦
      rw e (exists-delete _ _ db.cron_locks (λ r q. same_minute name minute before r late q) held)
]

exists-longer :
    {A : Type 0} (p : A → Bool) (rs : List A) (r : A)
    → exists p rs ≡ true
    → exists p (rs ++ r ∷ []) ≡ true
exists-longer p [] r h = absurd (ground (arith, h))
exists-longer p (a ∷ rs) r h = elim (Bool-cases (p a)) [
  | inl e ↦ rw e refl
  | inr e ↦ rw e (exists-longer p rs r (rw e at h))
]

inserted-claimed :
    (name : Text) (minute : ℕ) (r : CronLockRow) (db t : Db) (n : ℕ)
    → claimed name minute db ≡ true
    → insert_cron_lock r db ≡ ok (n, t)
    → claimed name minute t ≡ true
inserted-claimed name minute r db t n h e =
    elim (Bool-cases (claimed r.cron_name r.execution_minute db)) [
      | inl c ↦ ground (arith, h, rw c at e)
      | inr c ↦
          ground (arith, exists-longer (same_execution name minute) db.cron_locks r h, rw c at e)
    ]

lock_cron_execution-claimed :
    (name other : Text) (minute at : ℕ) (u : World Db)
    → shift (u.outside.clock u.step) (negated hour) ≤ minute
    → claimed name minute u.db ≡ true
    → claimed name minute (lock_cron_execution other at u).1.db ≡ true
lock_cron_execution-claimed name other minute at u late held =
    let (b, _, cleaned, run) = lock-claims other at u in
    let row = execution other (truncate_minute at) (u.outside.clock (suc (suc u.step))) in
    let keeps : Keeps (λ db. claimed name minute db ≡ true) (claiming row) =
      Keeps-bind _ _
        (Keeps-statement _ (λ now db h n t e. inserted-claimed name minute row db t n h e))
        λ rows. Keeps-pure _ in
    rw run (keeps.at b (cleaned-claimed name minute _ u.db b.db cleaned late held))

IsAfter-claimed :
    (name : Text) {minute : ℕ} {db t : Db}
    → IsAfter minute db t
    → claimed name minute db ≡ true
    → claimed name minute t ≡ true
IsAfter-claimed name at_once h = h
IsAfter-claimed name {minute} (locks other at u before late) h =
    lock_cron_execution-claimed name other minute at u late (IsAfter-claimed name before h)
IsAfter-claimed name (elsewhere u before same) h = rw same (IsAfter-claimed name before h)

-- A cron execution that one process has been given is not given again for the same minute, whatever
-- fails, and whatever other calls of LockCronExecution and changes outside the cron locks come in
-- between, as long as none of the calls after the first reads a time more than an hour after the minute.
pub lock_cron_execution_once :
    (name : Text) (first again : ℕ) (w w' v : World Db)
    → lock_cron_execution name first w ≡ (ok true, w')
    → IsAfter (truncate_minute first) w'.db v.db
    → truncate_minute again ≡ truncate_minute first
    → shift (v.outside.clock v.step) (negated hour) ≤ truncate_minute first
    → (lock_cron_execution name again v).0 ≢ ok true
lock_cron_execution_once name first again w w' v given between minute late =
    let (a, _, _, run) = lock-claims name first w in
    let (b, _, cleaned, again_run) = lock-claims name again v in
    let held =
      IsAfter-claimed name between
        (claiming-claimed (execution name (truncate_minute first) _) a w' (sym run ∙ given)) in
    let kept = cleaned-claimed name (truncate_minute first) _ v.db b.db cleaned late held in
    rw again_run (claiming_refused (execution name (truncate_minute again) _) b (rw minute kept))

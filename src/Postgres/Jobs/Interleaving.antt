-- ===== src/Postgres/Jobs/Interleaving.antt =====
-- Dequeue transactions that run beside one another: queue/postgres.go, lockFirstMatch and tryLockJob.
-- At READ COMMITTED a statement sees what has been committed when it starts, and an update that has not
-- been committed is seen by its own transaction only; FOR UPDATE SKIP LOCKED passes over a row that
-- another transaction has updated. The list of candidates may be out of date by then, so that a worker
-- may try any job at any time.
use orkai_runiq.Common.{
  ℕ, ◌==◌, ◌≡◌, ◌≢◌, ◌⊎◌, sym, ap, ◌∙◌, subst, Text, true, false, Option, none, some, List, [], ◌∷◌,
  In, inl, inr, arith, if◌then◌else◌, Bool-cases, eqb_iff,
}
use orkai_runiq.Sql.{first}
use orkai_runiq.Sqlite.Tables.{Db}
use orkai_runiq.Sqlite.Jobs.Delivery.{AllDistinct}
use orkai_runiq.Postgres.Jobs.{is_free, lock_row_of}
use orkai_runiq.Postgres.Jobs.Committed.{free, after_commit}

-- What has been committed, the row that each worker's open transaction has set to running, and the jobs
-- that committed transactions have handed out.
pub record Shared : Type 0 where
  pub db : Db
  pub holds : ℕ → Option Text
  pub given : List Text

abbrev pub put : ℕ → Option Text → (ℕ → Option Text) → ℕ → Option Text
put n o f k = if k == n then o else f k

pub data Step (s : Shared) : Shared → Type 0 where
  -- tryLockJob finds the row
  lock :
      (n : ℕ) (id : Text)
      → s.holds n ≡ none
      → ((m : ℕ) → s.holds m ≢ some id)
      → free id s.db ≡ true
      → Step s (record s { holds = put n (some id) s.holds })
  -- COMMIT of a transaction that began at the time `started`
  commit :
      (n : ℕ) (id : Text) (started : ℕ)
      → s.holds n ≡ some id
      → Step s (record s {
        db = (lock_row_of id started s.db (first (is_free id) s.db.jobs)).1;
        holds = put n none s.holds;
        given = id ∷ s.given;
      })
  -- ROLLBACK, or a COMMIT that fails
  give_back : (n : ℕ) → Step s (record s { holds = put n none s.holds })
  -- Any other call: it waits for the rows that are locked, and does not put a job back that has been
  -- handed out.
  other :
      (db : Db)
      → ((n : ℕ) (id : Text) → s.holds n ≡ some id → free id db ≡ free id s.db)
      → ((id : Text) → In id s.given → free id db ≡ free id s.db)
      → Step s (record s { db = db })

pub data Reach (s : Shared) : Shared → Type 0 where
  here : Reach s s
  next : {t u : Shared} → Reach s t → Step t u → Reach s u

record IsSound (s : Shared) : Type 0 where
  held : (n : ℕ) (id : Text) → s.holds n ≡ some id → free id s.db ≡ true
  alone : (n m : ℕ) (id : Text) → s.holds n ≡ some id → s.holds m ≡ some id → n ≡ m
  taken : (id : Text) → In id s.given → free id s.db ≡ false
  distinct : AllDistinct s.given

put-some :
    (n k : ℕ) (o : Option Text) (f : ℕ → Option Text) (x : Text)
    → put n o f k ≡ some x
    → ((k ≡ n) × (o ≡ some x)) ⊎ (f k ≡ some x)
put-some n k o f x h = elim (Bool-cases (k == n)) [
  | inl e ↦ inl ((eqb_iff k n).0 e, rw e at h)
  | inr e ↦ inr (rw e at h)
]

freed :
    (n k : ℕ) (f : ℕ → Option Text) (x : Text) → put n none f k ≡ some x → (k ≢ n) × (f k ≡ some x)
freed n k f x h = elim (Bool-cases (k == n)) [
  | inl e ↦ absurd (ground (arith, rw e at h))
  | inr e ↦ ((λ q. ground (arith, e, q)), rw e at h)
]

some_same : {x y : Text} → ◌≡◌ {A = Option Text} (some x) (some y) → x ≡ y
some_same h = ground arith

lock-IsSound :
    (s : Shared) (n : ℕ) (id : Text)
    → ((m : ℕ) → s.holds m ≢ some id)
    → free id s.db ≡ true
    → IsSound s
    → IsSound (record s { holds = put n (some id) s.holds })
lock-IsSound s n id nobody pending i = record {
  held = λ k x h. elim (put-some n k (some id) s.holds x h) [
    | inl (at, same) ↦ subst (λ y. free y s.db ≡ true) (some_same same) pending
    | inr before ↦ i.held k x before
  ];
  alone = λ k l x h h'. elim (put-some n k (some id) s.holds x h) [
    | inl (at, same) ↦ elim (put-some n l (some id) s.holds x h') [
      | inl (at', same') ↦ at ∙ sym at'
      | inr before ↦ absurd (nobody l (before ∙ sym same))
    ]
    | inr before ↦ elim (put-some n l (some id) s.holds x h') [
      | inl (at', same') ↦ absurd (nobody k (before ∙ sym same'))
      | inr before' ↦ i.alone k l x before before'
    ]
  ];
  taken = i.taken;
  distinct = i.distinct;
}

commit-IsSound :
    (s : Shared) (n : ℕ) (id : Text) (t : ℕ)
    → s.holds n ≡ some id
    → IsSound s
    → IsSound (record s {
      db = (lock_row_of id t s.db (first (is_free id) s.db.jobs)).1;
      holds = put n none s.holds;
      given = id ∷ s.given;
    })
commit-IsSound s n id t mine i =
    let was = i.held n id mine in
    let (gone, others) = after_commit id t s.db was in
    record {
      held = λ k x h.
          let (apart, before) = freed n k s.holds x h in
          others x (λ e. apart (i.alone k n x before (mine ∙ ap some (sym e)))) ∙ i.held k x before;
      alone = λ k l x h h'. i.alone k l x (freed n k s.holds x h).1 (freed n l s.holds x h').1;
      taken = λ x g. elim g [
        | inl e ↦ rw e gone
        | inr old ↦ others x (λ e. given_ne was (rw e at (i.taken x old))) ∙ i.taken x old
      ];
      distinct = ((λ y g e. given_ne was (rw e at (i.taken y g))), i.distinct);
    }
  where
    given_ne : free id s.db ≡ true → free id s.db ≡ false → ⊥
    given_ne yes_free not_free_now = ground arith

give_back-IsSound :
    (s : Shared) (n : ℕ) → IsSound s → IsSound (record s { holds = put n none s.holds })
give_back-IsSound s n i = record {
  held = λ k x h. i.held k x (freed n k s.holds x h).1;
  alone = λ k l x h h'. i.alone k l x (freed n k s.holds x h).1 (freed n l s.holds x h').1;
  taken = i.taken;
  distinct = i.distinct;
}

Step-IsSound : {s t : Shared} → Step s t → IsSound s → IsSound t
Step-IsSound {s} (lock n id idle nobody pending) i = lock-IsSound s n id nobody pending i
Step-IsSound {s} (commit n id t mine) i = commit-IsSound s n id t mine i
Step-IsSound {s} (give_back n) i = give_back-IsSound s n i
Step-IsSound (other db keeps_held keeps_given) i = record {
  held = λ k x h. keeps_held k x h ∙ i.held k x h;
  alone = i.alone;
  taken = λ x g. keeps_given x g ∙ i.taken x g;
  distinct = i.distinct;
}

Reach-IsSound : {s t : Shared} → Reach s t → IsSound s → IsSound t
Reach-IsSound here i = i
Reach-IsSound (next r st) i = Step-IsSound st (Reach-IsSound r i)

abbrev pub start : Db → Shared
start db = record { db = db; holds = λ n. none; given = [] }

-- However the Dequeue transactions of any number of workers and other calls are interleaved, whichever
-- of them roll back, and however old the lists are that the workers choose from: no job is handed out
-- twice, and none that has been handed out is pending, as long as no other call puts it back.
pub Reach-AllDistinct :
    (db : Db) {s : Shared}
    → Reach (start db) s
    → AllDistinct s.given × ((id : Text) → In id s.given → free id s.db ≡ false)
Reach-AllDistinct db r =
    let i = Reach-IsSound r (record {
      held = λ n id h. absurd (ground (arith, h));
      alone = λ n m id h h'. absurd (ground (arith, h));
      taken = λ id g. absurd g;
      distinct = tt;
    }) in
    (i.distinct, i.taken)

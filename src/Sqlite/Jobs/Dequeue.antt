-- ===== src/Sqlite/Jobs/Dequeue.antt =====
-- What a job that Dequeue hands out satisfies: queue/sqlite.go, Dequeue.
use orkai_runiq.Common.{
  ℤ, if◌then◌else◌, ltb, text_eq, text_eq_sound, text_eq_refl, pos, ◌≤ℤ◌, ltb_ℤ, leb→le, le→leb,
  ◌/◌, and_parts, ℕ, suc, ◌≤◌, ◌≡◌, refl, ◌∙◌, ap, subst, inl, inr, Text, true, false, Option, none,
  some, List, [], ◌∷◌, In, In-take, take_all, length, arith, Bool-cases,
}
use orkai_runiq.Queue.{JobEnvelope}
use orkai_runiq.Helpers.{match_tags, second}
use orkai_runiq.Helpers.Tags.{Covers, match_tags-Covers}
use orkai_runiq.Sql.{
  ok, World, query, exec, pure, transaction_if-ok, bind-ok, query-ok, exec-ok, select, order_by,
  In-select, select-In, In-order_by, order_by-In, length-order_by, order_by-IsOrdered, IsOrdered,
  IsWeakOrder, next, update,
}
use orkai_runiq.Sqlite.Tables.{JobRow, Db, Status, pending, running, is_pending, current_timestamp}
use orkai_runiq.Sqlite.Jobs.{
  is_due, is_ready, comes_before, candidates, row_tags, scan_job_from, find_matching_job,
  mark_running, claim, dequeue_tx, is_some, dequeue,
}

comes_before-IsWeakOrder : IsWeakOrder comes_before
comes_before-IsWeakOrder = record {
  asym = λ a b h. ground arith;
  cotrans = λ a b c h k. ground arith;
}

-- The row that is found, the rows before it being passed over for their tags.
pub record Found (rows : List JobRow) (tags : List Text) (env : JobEnvelope) : Type 0 where
  pub row : JobRow
  pub listed : In row rows
  pub scanned : env ≡ scan_job_from row
  pub matched : match_tags (row_tags row) tags ≡ true
  pub best :
      (s : JobRow)
      → In s rows
      → match_tags (row_tags s) tags ≡ true
      → IsOrdered comes_before rows
      → comes_before s row ≡ false

not_before_itself : (r : JobRow) → comes_before r r ≡ false
not_before_itself r = ground arith

find_matching_job-Found :
    (rows : List JobRow) (tags : List Text) (env : JobEnvelope)
    → find_matching_job rows tags ≡ some env
    → Found rows tags env
unfolding find_matching_job
find_matching_job-Found [] tags env h = cc
find_matching_job-Found (r ∷ rows) tags env h = elim (Bool-cases (match_tags (row_tags r) tags)) [
  | inl e ↦ record {
    row = r;
    listed = inl refl;
    scanned = ground arith;
    matched = e;
    best = λ s i m o. elim i [ inl q ↦ rw q (not_before_itself r) | inr j ↦ o.0 s j ];
  }
  | inr e ↦
      let f = find_matching_job-Found rows tags env (ground arith) in
      record {
        row = f.row;
        listed = inr f.listed;
        scanned = f.scanned;
        matched = f.matched;
        best = λ s i m o. elim i [ inl q ↦ absurd (ground arith) | inr j ↦ f.best s j m o.1 ];
      }
]

-- The time of the SELECT: BEGIN is the first step of the transaction.
abbrev pub select_time : World Db → ℕ
select_time w = w.outside.clock (suc w.step)

claim-ok :
    (o : Option JobEnvelope) (env : JobEnvelope) (w : World Db) {w' : World Db}
    → claim o w ≡ (ok (some env), w')
    → (o ≡ some env) × ((at : ℕ) × (w'.db ≡ mark_running env.job_id at w.db))
unfolding claim pure
claim-ok none env w h = ground arith
claim-ok (some e) env w h =
    let (u, w1, ran, rest) = bind-ok (exec (mark_running e.job_id)) (λ _. pure (some e)) w h in
    let same : e ≡ env = ground arith in
    (ap some same, (w.outside.clock w.step, ground (arith, exec-ok (mark_running e.job_id) w ran)))

dequeue-ok :
    (queue : Text) (tags : List Text) (w : World Db) (env : JobEnvelope) {w' : World Db}
    → dequeue queue tags w ≡ (ok (some env), w')
    → (find_matching_job (candidates queue (select_time w) w.db) tags ≡ some env)
      × ((at : ℕ) × (w'.db ≡ mark_running env.job_id at w.db))
unfolding dequeue dequeue_tx
dequeue-ok queue tags w env h =
    let (w1, body, same) = transaction_if-ok is_some (dequeue_tx queue tags) w h refl in
    let (rows, w2, read, rest) =
      bind-ok (query (candidates queue)) (λ rows. claim (find_matching_job rows tags)) (next w)
        body in
    let (at_rows, unchanged) = query-ok (candidates queue) (next w) read in
    let (found, (at, marked)) = claim-ok (find_matching_job rows tags) env w2 rest in
    (
      subst (λ x. find_matching_job x tags ≡ some env) at_rows found,
      (at, same ∙ marked ∙ ap (mark_running env.job_id at) unchanged),
    )

In-candidates :
    (queue : Text) (now : ℕ) (db : Db) (r : JobRow)
    → In r (candidates queue now db)
    → In r db.jobs × (is_ready queue now r ≡ true)
unfolding candidates
In-candidates queue now db r i =
    In-select _ db.jobs r (In-order_by comes_before _ r (In-take 100 _ r i))

-- SELECT compares whole seconds: a start that is none, or not in a later second than `now`.
abbrev pub HasStarted : ℕ → Option ℕ → Type 0
HasStarted now none = Unit {0}
HasStarted now (some t) = t / second ≤ now / second

HasStarted-is_due : (now : ℕ) (o : Option ℕ) → is_due now o ≡ true → HasStarted now o
HasStarted-is_due now none h = tt
HasStarted-is_due now (some t) h = leb→le _ _ h

is_due-HasStarted : (now : ℕ) (o : Option ℕ) → HasStarted now o → is_due now o ≡ true
is_due-HasStarted now none h = refl
is_due-HasStarted now (some t) h = le→leb _ _ h

status_of : (s : Status) → is_pending s ≡ true → s ≡ pending
status_of s h = ground arith

-- The row has waited in the queue for its start, which has come.
pub record IsWaiting (queue : Text) (now : ℕ) (r : JobRow) : Type 0 where
  pub in_queue : r.queue ≡ queue
  pub waits : r.status ≡ pending
  pub has_started : HasStarted now r.run_at

IsWaiting-is_ready :
    (queue : Text) (now : ℕ) (r : JobRow) → is_ready queue now r ≡ true → IsWaiting queue now r
IsWaiting-is_ready queue now r h =
    let (q, rest) = and_parts h in
    let (s, d) = and_parts rest in
    record {
      in_queue = text_eq_sound r.queue queue q;
      waits = status_of r.status s;
      has_started = HasStarted-is_due now r.run_at d;
    }

is_ready-IsWaiting :
    (queue : Text) (now : ℕ) (r : JobRow) → IsWaiting queue now r → is_ready queue now r ≡ true
is_ready-IsWaiting queue now r h =
    rw (h.in_queue, text_eq_refl queue, h.waits, is_due-HasStarted now r.run_at h.has_started) refl

-- What the envelope says of the job is what its row said.
pub record Describes (env : JobEnvelope) (r : JobRow) : Type 0 where
  pub job_id : env.job_id ≡ r.job_id
  pub queue : env.queue ≡ r.queue
  pub name : env.name ≡ r.name
  pub args : env.args ≡ r.args
  pub attempts : env.attempts ≡ pos r.attempts
  pub max_attempts : env.max_attempts ≡ r.max_attempts
  pub unique_key : env.unique_key ≡ r.unique_key
  pub batch_id : env.batch_id ≡ r.batch_id

Describes-scan_job_from : (env : JobEnvelope) (r : JobRow) → env ≡ scan_job_from r → Describes env r
Describes-scan_job_from env r h = rw h (record {
  job_id = refl;
  queue = refl;
  name = refl;
  args = refl;
  attempts = refl;
  max_attempts = refl;
  unique_key = refl;
  batch_id = refl;
})

pub dequeue_delivers :
    (queue : Text) (tags : List Text) (w : World Db) (env : JobEnvelope) (w' : World Db)
    → dequeue queue tags w ≡ (ok (some env), w')
    → (row : JobRow) × In row w.db.jobs
      × Describes env row
      × IsWaiting queue (select_time w) row
      × Covers (row_tags row) tags
      × ((at : ℕ) × (w'.db ≡ record w.db {
        jobs =
            update
              (λ r. text_eq r.job_id row.job_id)
              (λ r. record r { status = running; locked_at = some (current_timestamp at) })
              w.db.jobs;
      }))
dequeue_delivers queue tags w env w' h =
    let (found, (at, marked)) = dequeue-ok queue tags w env h in
    let f = find_matching_job-Found _ tags env found in
    let (stored, ready) = In-candidates queue (select_time w) w.db f.row f.listed in
    (
      f.row,
      stored,
      Describes-scan_job_from env f.row f.scanned,
      IsWaiting-is_ready queue (select_time w) f.row ready,
      (match_tags-Covers (row_tags f.row) tags).0 f.matched,
      (at, marked ∙ ap (λ (e : JobEnvelope). mark_running e.job_id at w.db) f.scanned),
    )

candidates_all :
    (queue : Text) (now : ℕ) (db : Db)
    → length (select (is_ready queue now) db.jobs) ≤ 100
    → candidates queue now db ≡ order_by comes_before (select (is_ready queue now) db.jobs)
unfolding candidates
candidates_all queue now db h =
    take_all 100 _
      (omega (arith, length-order_by comes_before (select (is_ready queue now) db.jobs)))

candidates-In :
    (queue : Text) (now : ℕ) (db : Db) (r : JobRow)
    → length (select (is_ready queue now) db.jobs) ≤ 100
    → In r db.jobs
    → is_ready queue now r ≡ true
    → In r (candidates queue now db)
candidates-In queue now db r h i q =
    rw (candidates_all queue now db h) (order_by-In comes_before _ r (select-In _ db.jobs r i q))

candidates-IsOrdered :
    (queue : Text) (now : ℕ) (db : Db)
    → length (select (is_ready queue now) db.jobs) ≤ 100
    → IsOrdered comes_before (candidates queue now db)
candidates-IsOrdered queue now db h =
    rw (candidates_all queue now db h) (order_by-IsOrdered comes_before-IsWeakOrder _)

-- No lower priority, and no later creation at the same priority.
pub record IsNotBehind (r s : JobRow) : Type 0 where
  pub priority : s.priority ≤ℤ r.priority
  pub age : s.priority ≡ r.priority → r.created_at ≤ s.created_at

not_above :
    (p q : ℤ) (t u : ℕ)
    → (if ltb_ℤ q p then true else if ltb_ℤ p q then false else ltb t u) ≡ false
    → p ≤ℤ q
not_above p q t u h = ground arith

not_younger :
    (p q : ℤ) (t u : ℕ)
    → (if ltb_ℤ q p then true else if ltb_ℤ p q then false else ltb t u) ≡ false
    → p ≡ q
    → u ≤ t
not_younger p q t u h e = ground arith

IsNotBehind-comes_before : (r s : JobRow) → comes_before s r ≡ false → IsNotBehind r s
IsNotBehind-comes_before r s h = record {
  priority = not_above s.priority r.priority s.created_at r.created_at h;
  age = λ e. not_younger s.priority r.priority s.created_at r.created_at h e;
}

-- Where at most 100 jobs are ready, the job returned is not behind any that waits in the queue and whose
-- tags the worker has: none of them has a higher priority, and none of the same priority was created
-- earlier.
pub dequeue_takes_best :
    (queue : Text) (tags : List Text) (w : World Db) (env : JobEnvelope) (w' : World Db)
    (s : JobRow)
    → dequeue queue tags w ≡ (ok (some env), w')
    → length (select (is_ready queue (select_time w)) w.db.jobs) ≤ 100
    → In s w.db.jobs
    → IsWaiting queue (select_time w) s
    → Covers (row_tags s) tags
    → (row : JobRow) × In row w.db.jobs × Describes env row × IsNotBehind row s
dequeue_takes_best queue tags w env w' s h few i q m =
    let (found, changed) = dequeue-ok queue tags w env h in
    let f = find_matching_job-Found _ tags env found in
    let (stored, ready) = In-candidates queue (select_time w) w.db f.row f.listed in
    let among =
      candidates-In queue (select_time w) w.db s few i
        (is_ready-IsWaiting queue (select_time w) s q) in
    let sorted = candidates-IsOrdered queue (select_time w) w.db few in
    (
      f.row,
      stored,
      Describes-scan_job_from env f.row f.scanned,
      IsNotBehind-comes_before f.row s
          (f.best s among ((match_tags-Covers (row_tags s) tags).1 m) sorted),
    )

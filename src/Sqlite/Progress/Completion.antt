-- ===== src/Sqlite/Progress/Completion.antt =====
-- What a batch does when one of its jobs is done: queue/sqlite_admin.go, handleBatchAck and what it
-- calls.
use orkai_runiq.Common.{
  ℕ, pos, suc, ◌≡◌, refl, ◌∙◌, ap, Text, true, false, not, ◌||◌, Option, none, some, List, [], ◌∷◌,
  ◌++◌, ◌-ℤ◌, Bool, ℤ, arith, Bool-cases, ◌⊎◌, inl, inr,
}
use orkai_runiq.Sql.{
  ok, World, exec, pure, statement, generate_job_id, ◌>>=◌, first, update, exists, first-update,
}
use orkai_runiq.Sqlite.Tables.{
  sealed, completed, pending, JobRow, BatchRow, BatchStatus, Db, has_batch_id, has_job_id,
  current_timestamp,
}
use orkai_runiq.Sqlite.Progress.{
  decrement, is_past, update_batch_pending, is_sealed, is_zero, enqueue_callback,
  mark_batch_completed, handle_batch_ack,
}

first-decrement :
    (id : Text) (bs : List BatchRow) (b : BatchRow)
    → first (has_batch_id id) bs ≡ some b
    → first (has_batch_id id) (update (has_batch_id id) decrement bs) ≡ some (decrement b)
first-decrement id bs b h = first-update (has_batch_id id) decrement bs b (λ x q. q) h

-- The batch of an identifier.
abbrev pub batch_of : Text → Db → Option BatchRow
batch_of id db = first (has_batch_id id) db.batches

-- The job of a callback: as it is inserted, with the columns that the INSERT leaves out at their defaults.
abbrev pub callback_of : BatchRow → Text → ℕ → JobRow
callback_of b id at = record {
  job_id = id;
  queue = b.callback_queue;
  name = b.callback_name;
  args = b.callback_args;
  trace_id = [];
  span_id = [];
  status = pending;
  attempts = 0;
  max_attempts = pos 3;
  error_message = [];
  created_at = current_timestamp at;
  updated_at = current_timestamp at;
  locked_at = none;
  run_at = some (current_timestamp at);
  unique_key = [];
  batch_id = [];
  priority = pos 0;
  tags = [];
}

or_parts : {a b : Bool} → a || b ≡ false → (a ≡ false) × (b ≡ false)
or_parts {a} {b} h = (ground (arith, h), ground (arith, h))

completes :
    (id : Text) (w : World Db) (b : BatchRow)
    → ((n : ℕ) → w.outside.fails n ≡ false)
    → batch_of id w.db ≡ some b
    → b.status ≡ sealed
    → b.pending_jobs ≡ pos 1
    → b.expires_at ≡ none
    → exists (has_job_id (w.outside.job_id (suc (suc w.step)))) w.db.jobs ≡ false
    → ((handle_batch_ack id w).0 ≡ ok tt)
      × (batch_of id (handle_batch_ack id w).1.db
          ≡ some (record b { pending_jobs = pos 0; status = completed }))
      × ((handle_batch_ack id w).1.db.jobs
          ≡ w.db.jobs
            ++ callback_of b
                (w.outside.job_id (suc (suc w.step)))
                (w.outside.clock (suc (suc (suc w.step))))
              ∷ [])
unfolding handle_batch_ack update_batch_pending is_past mark_batch_completed enqueue_callback
    statement exec generate_job_id pure ◌>>=◌ ◌-ℤ◌
completes id w b works found seal one never fresh =
    rw
      (
        works w.step,
        found,
        never,
        seal,
        one,
        works (suc w.step),
        works (suc (suc (suc w.step))),
        fresh,
      )
      (
        refl,
        first-update (has_batch_id id) (λ b. record b { status = completed })
              (update (has_batch_id id) decrement w.db.batches) (decrement b) (λ x q. q)
              (first-decrement id w.db.batches b found)
            ∙ ap some (rw (one, never) refl),
        refl,
      )

counts :
    (id : Text) (w : World Db) (b : BatchRow)
    → w.outside.fails w.step ≡ false
    → batch_of id w.db ≡ some b
    → (not (is_sealed b.status) || not (is_zero (b.pending_jobs -ℤ pos 1))) ≡ true
    → b.expires_at ≡ none
    → ((handle_batch_ack id w).0 ≡ ok tt)
      × (batch_of id (handle_batch_ack id w).1.db
          ≡ some (record b { pending_jobs = b.pending_jobs -ℤ pos 1 }))
      × ((handle_batch_ack id w).1.db.jobs ≡ w.db.jobs)
unfolding handle_batch_ack update_batch_pending is_past statement pure ◌>>=◌
counts id w b works found more never =
    rw (works, found, never, more)
      (refl, first-decrement id w.db.batches b found ∙ ap some (rw never refl), refl)

-- The batch is sealed and this is its last job.
pub record IsLast (b : BatchRow) : Type 0 where
  pub is_sealed : b.status ≡ sealed
  pub one_left : b.pending_jobs ≡ pos 1

sealed_of : (s : BatchStatus) → (not (is_sealed s)) ≡ false → s ≡ sealed
sealed_of s h = ground arith

one_of : (n : ℤ) → (not (is_zero (n -ℤ pos 1))) ≡ false → n ≡ pos 1
unfolding ◌-ℤ◌
one_of n h = ground arith

not-IsLast :
    (b : BatchRow)
    → (not (is_sealed b.status) || not (is_zero (b.pending_jobs -ℤ pos 1))) ≡ true
    → ¬ IsLast b
unfolding ◌-ℤ◌
not-IsLast b h l = ground (arith, h, l.is_sealed, l.one_left)

-- When a job of a batch without an expiry is done, no statement fails, and the identifier that is drawn
-- for the callback is not that of a stored job: if the batch is sealed and this is its last job, the batch
-- is completed with no job left, and its callback is put at the end of the jobs, pending, with the queue,
-- the name and the arguments that the batch has for it, no attempt counted and three allowed; otherwise
-- the batch has one pending job less, keeps its status, and no job is added.
pub handle_batch_ack_completes :
    (id : Text) (w : World Db) (b : BatchRow)
    → ((n : ℕ) → w.outside.fails n ≡ false)
    → batch_of id w.db ≡ some b
    → b.expires_at ≡ none
    → exists (has_job_id (w.outside.job_id (suc (suc w.step)))) w.db.jobs ≡ false
    → ((handle_batch_ack id w).0 ≡ ok tt)
      × ((IsLast b
            × (batch_of id (handle_batch_ack id w).1.db
                ≡ some (record b { pending_jobs = pos 0; status = completed }))
            × ((handle_batch_ack id w).1.db.jobs
                ≡ w.db.jobs
                  ++ callback_of b
                      (w.outside.job_id (suc (suc w.step)))
                      (w.outside.clock (suc (suc (suc w.step))))
                    ∷ []))
          ⊎ (¬ IsLast b
              × (batch_of id (handle_batch_ack id w).1.db
                  ≡ some (record b { pending_jobs = b.pending_jobs -ℤ pos 1 }))
              × ((handle_batch_ack id w).1.db.jobs ≡ w.db.jobs)))
handle_batch_ack_completes id w b works found never fresh =
    elim (Bool-cases (not (is_sealed b.status) || not (is_zero (b.pending_jobs -ℤ pos 1)))) [
      | inl e ↦
          let (done, batch, jobs) = counts id w b (works w.step) found e never in
          (done, inr (not-IsLast b e, batch, jobs))
      | inr e ↦
          let (s, o) = or_parts e in
          let seal = sealed_of b.status s in
          let one = one_of b.pending_jobs o in
          let (done, batch, jobs) = completes id w b works found seal one never fresh in
          (done, inl (record { is_sealed = seal; one_left = one }, batch, jobs))
    ]

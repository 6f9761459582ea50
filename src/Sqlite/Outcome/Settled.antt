-- ===== src/Sqlite/Outcome/Settled.antt =====
-- Jobs that wait for a parent or are not blocked, and what keeps them so: queue/sqlite_admin.go, Ack.
use orkai_runiq.Common.{
  ℕ, ◌==◌, ◌≡◌, ◌≢◌, refl, sym, ap, subst, ◌∙◌, ◌⊎◌, inl, inr, Text, Bool, true, false, Option,
  none, some, List, [], ◌∷◌, ◌++◌, In, In-append, arith, if◌then◌else◌, Bool-cases,
}
use orkai_runiq.Sql.{
  Error, Result, ok, err, exec, statement, Keeps, Keeps-exec, Keeps-if, Keeps-pure, Keeps-bind,
  Keeps-statement, keeps_rules, first, exists, In-update,
}
use orkai_runiq.Sqlite.Tables.{
  Status, blocked, BatchStatus, BatchRow, JobRow, Db, has_job_id, has_batch_id,
}
use orkai_runiq.Sqlite.Unique.{delete_unique_lock, free_lock}
use orkai_runiq.Sqlite.Burial.{update_job, set_batch_status}
use orkai_runiq.Sqlite.Progress.{
  Progress, returning, update_batch_returning, decrement, is_past, expire_batch,
  update_batch_pending, insert_new_job, callback_row, enqueue_callback, mark_batch_completed,
  handle_batch_ack,
}
use orkai_runiq.Sqlite.Outcome.{release_row, parents_left, check_blocked_children, ack_batch}

abbrev pub is_blocked : Status → Bool
is_blocked blocked = true
is_blocked _ = false

-- No row of this identifier is blocked.
pub record IsUnblocked (c : Text) (db : Db) : Type 0 where
  pub free : (r : JobRow) → In r db.jobs → r.job_id ≡ c → is_blocked r.status ≡ false

-- The job waits for a parent, or is not blocked.
pub record IsSettled (c : Text) (db : Db) : Type 0 where
  pub settled : ((parents_left c db == 0) ≡ false) ⊎ IsUnblocked c db

-- A change of the status of a job to one that is not blocked.
unblocking :
    (c id : Text) (f : JobRow → JobRow) (db : Db)
    → ((r : JobRow) → (f r).job_id ≡ r.job_id)
    → ((r : JobRow) → is_blocked (f r).status ≡ false)
    → IsUnblocked c db
    → IsUnblocked c (update_job id f db)
unblocking c id f db same unblocks h = record {
  free = λ r i e.
      let (b, j, q) = In-update (has_job_id id) f db.jobs r i in unblocked_row b r q e (h.free b j);
}
  where
    unblocked_row :
        (b r : JobRow)
        → r ≡ (if has_job_id id b then f b else b)
        → r.job_id ≡ c
        → (b.job_id ≡ c → is_blocked b.status ≡ false)
        → is_blocked r.status ≡ false
    unblocked_row b r q e k = elim (Bool-cases (has_job_id id b)) [
      | inl own ↦ ap (λ (x : JobRow). is_blocked x.status) (rw own at q) ∙ unblocks b
      | inr other ↦
          let same : r ≡ b = rw other at q in
          ap (λ (x : JobRow). is_blocked x.status) same
          ∙ k (ap (λ (x : JobRow). x.job_id) (sym same) ∙ e)
    ]

module _ (c : Text) where
  exec-Keeps :
      (f : ℕ → Db → Db)
      → ((now : ℕ) (db : Db) → (f now db).dependencies ≡ db.dependencies)
      → ((now : ℕ) (db : Db) → IsUnblocked c db → IsUnblocked c (f now db))
      → Keeps (IsSettled c) (exec f)
  exec-Keeps f same k = Keeps-exec f (λ now db h. record {
    settled = elim h.settled [
      | inl waits ↦ inl (rw (same now db) waits)
      | inr free ↦ inr (k now db free)
    ];
  })

  released : (id : Text) → Keeps (IsSettled c) (exec (λ now. update_job id (release_row now)))
  released id =
      exec-Keeps _ (λ now db. refl)
        (λ now db. unblocking c id (release_row now) db (λ r. refl) (λ r. refl))

  pub check_blocked_children-Keeps :
      (cs : List Text) → Keeps (IsSettled c) (check_blocked_children cs)
  unfolding check_blocked_children
  check_blocked_children-Keeps [] = Keeps-pure tt
  check_blocked_children-Keeps (x ∷ cs) = Keeps-bind _ _ (search keeps_rules) λ left.
      Keeps-bind _ _ (Keeps-if _ _ _ (released x) (Keeps-pure tt))
        λ _. check_blocked_children-Keeps cs

-- The batch bookkeeping, which only adds a callback to the jobs.
module _ (c : Text) where
  elsewhere :
      (f : ℕ → Db → Db)
      → ((now : ℕ) (db : Db) → (f now db).dependencies ≡ db.dependencies)
      → ((now : ℕ) (db : Db) → (f now db).jobs ≡ db.jobs)
      → Keeps (IsSettled c) (exec f)
  elsewhere f deps jobs =
      exec-Keeps c f deps
        (λ now db h. record { free = λ r i e. h.free r (subst (In r) (jobs now db) i) e })

  set_batch_status-Keeps :
      (id : Text) (s : BatchStatus) → Keeps (IsSettled c) (exec (λ _. set_batch_status id s))
  set_batch_status-Keeps id s = elsewhere _ (λ now db. refl) (λ now db. refl)

  mark_batch_completed-Keeps : (id : Text) → Keeps (IsSettled c) (mark_batch_completed id)
  unfolding mark_batch_completed
  mark_batch_completed-Keeps id = set_batch_status-Keeps id BatchStatus.completed

  expire_batch-Keeps : (id : Text) (p : Progress) → Keeps (IsSettled c) (expire_batch id p)
  unfolding expire_batch
  expire_batch-Keeps id p = search (keeps_rules, set_batch_status-Keeps)

  is_past-Keeps : (t : Option ℕ) → Keeps (IsSettled c) (is_past t)
  unfolding is_past
  is_past-Keeps none = search keeps_rules
  is_past-Keeps (some t) = search keeps_rules

  other_batches :
      (db : Db) (bs : List BatchRow) → IsSettled c db → IsSettled c (record db { batches = bs })
  other_batches db bs h = record {
    settled = elim h.settled [ inl waits ↦ inl waits | inr u ↦ inr (record { free = u.free }) ];
  }

  same_result :
      {A : Type 0} {a b : A} {t u : Db} → ◌≡◌ {A = Result (A × Db)} (ok (a, t)) (ok (b, u)) → t ≡ u
  same_result q = ground arith

  returning-Keeps :
      (o : Option BatchRow) (id : Text) (f : BatchRow → BatchRow) (db : Db) (p : Progress) (t : Db)
      → IsSettled c db
      → returning o id f db ≡ ok (p, t)
      → IsSettled c t
  returning-Keeps none id f db p t h e = absurd (ground arith)
  returning-Keeps (some b) id f db p t h e =
      subst (IsSettled c) (same_result e) (other_batches db _ h)

  decrement-Keeps :
      (id : Text) → Keeps (IsSettled c) (statement (λ _. update_batch_returning id decrement))
  decrement-Keeps id = Keeps-statement _ (λ now db h p t e.
      returning-Keeps (first (has_batch_id id) db.batches) id decrement db p t h e)

  update_batch_pending-Keeps : (id : Text) → Keeps (IsSettled c) (update_batch_pending id)
  unfolding update_batch_pending
  update_batch_pending-Keeps id = Keeps-bind _ _ (decrement-Keeps id) λ p.
      Keeps-bind _ _ (is_past-Keeps p.expires_at)
        λ past. Keeps-if _ _ _ (expire_batch-Keeps id p) (Keeps-pure p)

  one_more :
      (r : JobRow) (db : Db)
      → is_blocked r.status ≡ false
      → IsSettled c db
      → IsSettled c (record db { jobs = db.jobs ++ r ∷ [] })
  one_more r db runs h = record {
    settled = elim h.settled [
      | inl waits ↦ inl waits
      | inr u ↦ inr (record {
        free = λ x i e. elim (In-append db.jobs (r ∷ []) x i) [
          | inl j ↦ u.free x j e
          | inr (inl q) ↦ ap (λ (y : JobRow). is_blocked y.status) q ∙ runs
          | inr (inr j) ↦ absurd j
        ];
      })
    ];
  }

  inserted-Keeps :
      (r : JobRow) (db t : Db) (u : Unit {0})
      → is_blocked r.status ≡ false
      → IsSettled c db
      → insert_new_job r db ≡ ok (u, t)
      → IsSettled c t
  inserted-Keeps r db t u runs h e = elim (Bool-cases (exists (has_job_id r.job_id) db.jobs)) [
    | inl there ↦ absurd (refused_ne (rw there at e))
    | inr new ↦ subst (IsSettled c) (same_result (rw new at e)) (one_more r db runs h)
  ]
    where
      refused_ne : {x : Error} → ◌≢◌ {A = Result (Unit {0} × Db)} (err x) (ok (u, t))
      refused_ne q = ground arith

  insert_new_job-Keeps :
      (id queue name : Text) (args : List ℕ)
      → Keeps
          (IsSettled c)
          (statement (λ now. insert_new_job (callback_row id queue name args now)))
  insert_new_job-Keeps id queue name args =
      Keeps-statement _
        (λ now db h u t e. inserted-Keeps (callback_row id queue name args now) db t u refl h e)

  enqueue_callback-Keeps :
      (queue name : Text) (args : List ℕ) → Keeps (IsSettled c) (enqueue_callback queue name args)
  unfolding enqueue_callback
  enqueue_callback-Keeps queue name args = search (keeps_rules, insert_new_job-Keeps)

  pub ack_batch-Keeps : (id : Text) → Keeps (IsSettled c) (ack_batch id)
  unfolding ack_batch handle_batch_ack
  ack_batch-Keeps id = Keeps-if _ _ _ (Keeps-pure tt) (
      Keeps-bind _ _ (update_batch_pending-Keeps id) λ p.
        Keeps-if _ _ _ (Keeps-pure tt)
          (Keeps-bind _ _ (mark_batch_completed-Keeps id) λ _. enqueue_callback-Keeps _ _ _))

  delete_unique_lock-Keeps : (queue key : Text) → Keeps (IsSettled c) (delete_unique_lock queue key)
  unfolding delete_unique_lock
  delete_unique_lock-Keeps queue key =
      Keeps-if _ _ _ (Keeps-pure tt)
        (elsewhere (λ _. free_lock queue key) (λ now db. refl) (λ now db. refl))

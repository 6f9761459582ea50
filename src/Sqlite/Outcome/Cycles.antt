-- ===== src/Sqlite/Outcome/Cycles.antt =====
-- The cascade over dependencies that form a cycle: queue/sqlite_workflow.go has no check for one.
use orkai_runiq.Common.{
  zero, suc, ℕ, ◌≡◌, ◌≢◌, ◌∙◌, refl, sym, ap, subst, inl, inr, Text, text_eq_refl, text_eq_sound,
  Bool, true, false, List, [], ◌∷◌, In, arith, Bool-cases,
}
use orkai_runiq.Sql.{
  ok, Keeps-both, Keeps-attempt, Gives-transaction, Exec, exec, World, Keeps, Keeps-exec, Keeps-if,
  Keeps-pure, keeps_rules, Gives, Gives-bind, Gives-exec, Gives-query, Gives-pure, Gives-raise,
  Gives-Keeps, Gives-weaken, In-map, select-In, delete-In,
}
use orkai_runiq.Sqlite.Tables.{DependencyRow, BatchStatus, Db}
use orkai_runiq.Sqlite.Unique.{delete_unique_lock, free_lock}
use orkai_runiq.Sqlite.Burial.{
  Keys, select_keys, mark_dead, set_batch_status, fail_batch, bury, fail_children, has_parent,
  has_child, children_of, dependency_failed, forget_parents, cascade_dependency_failure,
  query_child_job_ids,
}
use orkai_runiq.Sqlite.Outcome.{cancel, perform_cancel, delete_job}
use orkai_runiq.Sqlite.Burial.Dead.{select_keys-Keeps}

-- Each job of a set has, by `link`, a dependency on which a job of the set depends on it.
pub record IsCyclic (member : Text → Bool) (link : Text → DependencyRow) (db : Db) : Type 0 where
  pub kept : (x : Text) → member x ≡ true → In (link x) db.dependencies
  pub parent : (x : Text) → member x ≡ true → (link x).parent_job_id ≡ x
  pub child : (x : Text) → member x ≡ true → member (link x).job_id ≡ true

module _ (member : Text → Bool) (link : Text → DependencyRow) where
  abbrev Ring : Db → Type 0
  Ring db = IsCyclic member link db

  same-Ring :
      (f : ℕ → Db → Db)
      → ((now : ℕ) (db : Db) → (f now db).dependencies ≡ db.dependencies)
      → Keeps Ring (exec f)
  same-Ring f same = Keeps-exec f (λ now db h. record {
    kept = λ x m. subst (In (link x)) (sym (same now db)) (h.kept x m);
    parent = h.parent;
    child = h.child;
  })

  delete_unique_lock-Ring : (queue key : Text) → Keeps Ring (delete_unique_lock queue key)
  unfolding delete_unique_lock
  delete_unique_lock-Ring queue key =
      Keeps-if _ _ _ (Keeps-pure tt) (same-Ring (λ _. free_lock queue key) (λ now db. refl))

  keys-Ring : (id : Text) → Keeps Ring (select_keys id)
  unfolding select_keys
  keys-Ring id = search keeps_rules

  fail_batch-Ring : (id : Text) → Keeps Ring (fail_batch id)
  unfolding fail_batch
  fail_batch-Ring id =
      Keeps-if _ _ _ (Keeps-pure tt)
        (same-Ring (λ _. set_batch_status id BatchStatus.failed) (λ now db. refl))

  abbrev Freed : Text → Db → Type 0
  Freed c db = (member c ≡ false) × Ring db

  -- Of a list, none is in the set.
  record AllOut (cs : List Text) : Type 0 where
    out : (c : Text) → In c cs → member c ≡ false

  -- A list has the job that a member links to.
  record Lists (p : Text) (cs : List Text) : Type 0 where
    has : member p ≡ true → In (link p).job_id cs

  true-false : true ≢ false
  true-false q = ground arith

  constant : {A : Type 0} {m : Exec Db A} (F : Type 0) → Keeps (λ _. F) m
  constant F = record { at = λ w h. h }

  -- A fact beside the database is still there afterwards.
  after :
      {A : Type 0} {P : Db → Type 0} {Q : A → Db → Type 0} (F : Type 0) (m : Exec Db A)
      → Gives P m Q
      → Gives (λ db. F × P db) m (λ a db. F × Q a db)
  after F m g = record { at = λ w a w' h e. (h.0, g.at w a w' h.1 e) }

  listed : (c : Text) (cs : List Text) → member c ≡ false → AllOut cs → AllOut (c ∷ cs)
  listed c cs o all = record {
    out = λ x i. elim i [ inl e ↦ ap member e ∙ o | inr j ↦ all.out x j ];
  }

  outside :
      {db : Db} (p : Text) (cs : List Text)
      → Lists p cs
      → AllOut cs
      → IsCyclic member link db
      → member p ≡ false
  outside p cs l all h = elim (Bool-cases (member p)) [
    | inl m ↦ absurd (true-false (sym (h.child p m) ∙ all.out _ (l.has m)))
    | inr o ↦ o
  ]

  other_child :
      (c : Text) (d : DependencyRow)
      → member c ≡ false
      → member d.job_id ≡ true
      → has_child c d ≡ false
  other_child c d o m = elim (Bool-cases (has_child c d)) [
    | inl e ↦ absurd (true-false (sym m ∙ ap member (text_eq_sound d.job_id c e) ∙ o))
    | inr e ↦ e
  ]

  forget_parents-Ring :
      (c : Text) → Gives (Freed c) (exec (λ _. forget_parents c)) (λ _ db. Freed c db)
  forget_parents-Ring c = Gives-exec _ (λ now db h. (
    h.0,
    record {
      kept = λ x m.
          delete-In (has_child c) db.dependencies (link x) (h.1.kept x m)
            (other_child c (link x) h.0 (h.1.child x m));
      parent = h.1.parent;
      child = h.1.child;
    },
  ))

  bury-Ring :
      (cascade : Text → Exec Db Unit) (c message : Text) (keys : Keys)
      → Gives Ring (cascade c) (λ _ db. Freed c db)
      → Gives Ring (bury cascade c message keys) (λ _ db. Freed c db)
  unfolding bury
  bury-Ring cascade c message keys k =
      Gives-bind _ _ (Gives-Keeps _ (same-Ring (mark_dead c message) (λ now db. refl))) λ _.
        Gives-bind _ _ (Gives-Keeps _ (delete_unique_lock-Ring keys.queue keys.unique_key)) λ _.
          Gives-bind _ _ k
            λ _. Gives-Keeps _ (Keeps-both _ (constant _) (fail_batch-Ring keys.batch_id))

  fail_children-Ring :
      (cascade : Text → Exec Db Unit) (parent : Text) (children : List Text)
      → ((c : Text) → Gives Ring (cascade c) (λ _ db. Freed c db))
      → Gives Ring (fail_children cascade parent children) (λ _ db. AllOut children × Ring db)
  unfolding fail_children
  fail_children-Ring cascade parent [] k =
      Gives-pure tt (λ s h. (record { out = λ c i. absurd i }, h))
  fail_children-Ring cascade parent (c ∷ cs) k =
      Gives-bind _ _ (Gives-Keeps _ (select_keys-Keeps Ring c)) λ keys.
        Gives-bind _ _ (bury-Ring cascade c (dependency_failed parent) keys (k c)) λ _.
          Gives-bind _ _ (forget_parents-Ring c) λ _.
            Gives-weaken _ (after (member c ≡ false) _ (fail_children-Ring cascade parent cs k))
              (λ u db h. (listed c cs h.0 h.1.0, h.1.1))

  In-link : (p : Text) (db : Db) → Ring db → member p ≡ true → In (link p).job_id (children_of p db)
  In-link p db h m = In-map _ _ (link p) (
      select-In (has_parent p) db.dependencies (link p) (h.kept p m)
        (rw (h.parent p m) (text_eq_refl p)))

  cascade-Ring :
      (fuel : ℕ) (p : Text) → Gives Ring (cascade_dependency_failure fuel p) (λ _ db. Freed p db)
  unfolding cascade_dependency_failure query_child_job_ids
  cascade-Ring zero p = Gives-raise _
  cascade-Ring (suc fuel) p =
      Gives-bind _ _
        (Gives-query {Q = λ children db. Lists p children × Ring db} _
          (λ now db h. (record { has = In-link p db h }, h)))
        λ children.
          Gives-weaken _
            (after (Lists p children) _
              (fail_children-Ring (cascade_dependency_failure fuel) p children (cascade-Ring fuel)))
            (λ u db h. (outside p children h.0 h.1.0 h.1.1, h.1.1))

  -- A job that depends on itself, directly or through others, cannot be cancelled: with any fuel
  -- the call has no success, and the recursion that the source runs does not come to an end.
  pub cancel-IsCyclic :
      (fuel : ℕ) (id : Text) (w : World Db)
      → IsCyclic member link w.db
      → member id ≡ true
      → (cancel fuel id w).0 ≢ ok tt
  unfolding cancel perform_cancel
  cancel-IsCyclic fuel id w h m q =
      let run : Gives Ring (cancel fuel id) (λ _ db. Freed id db) =
        Gives-bind _ _ (Gives-Keeps _ (Keeps-attempt _ (keys-Ring id))) λ r. Gives-transaction _ (
          Gives-bind _ _ (Gives-Keeps _ (same-Ring (λ _. delete_job id) (λ now db. refl))) λ _.
            Gives-bind _ _ (Gives-Keeps _ (delete_unique_lock-Ring _ _))
              λ _. cascade-Ring fuel id) in
      true-false (sym m ∙ (run.at w tt _ h (ap (λ r. (r, (cancel fuel id w).1)) q)).0)

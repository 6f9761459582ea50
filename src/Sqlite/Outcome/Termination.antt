-- ===== src/Sqlite/Outcome/Termination.antt =====
-- The recursion of the cascade in Fail and Cancel: queue/sqlite_workflow.go.
use orkai_runiq.Common.{
  ℕ, ℤ, zero, suc, ◌<◌, ◌≡◌, ◌≢◌, refl, sym, subst, Text, text_eq_sound, List, [], ◌∷◌, In, inl,
  inr, arith, map,
}
use orkai_runiq.Sql.{
  err, out_of_fuel, World, Exec, exec, select, In-select, In-delete, Ends, Ends-exec, Ends-pure,
  Ends-if, Ends-query_row, Ends-or_zero, Ends-attempt, Ends-transaction, Ends-bind, Ends-query_bind,
  Ends-time_now,
}
use orkai_runiq.Sqlite.Tables.{DependencyRow, BatchStatus, Db}
use orkai_runiq.Sqlite.Unique.{delete_unique_lock, free_lock}
use orkai_runiq.Sqlite.Burial.{
  Keys, no_keys, select_keys, mark_dead, set_batch_status, fail_batch, bury, fail_children,
  has_parent, has_child, children_of, dependency_failed, forget_parents, cascade_dependency_failure,
  query_child_job_ids, transition_to_dead, update_job,
}
use orkai_runiq.Sqlite.Outcome.{
  schedule_retry, next_run_after, perform_fail, fail, delete_job, perform_cancel, cancel, retry_row,
}

-- A rank that falls along every dependency: there are no cycles.
pub record IsRanked (rank : Text → ℕ) (db : Db) : Type 0 where
  pub falls : (d : DependencyRow) → In d db.dependencies → rank d.job_id < rank d.parent_job_id

module _ (rank : Text → ℕ) where
  -- A statement that changes no dependency.
  plain-Ends :
      (f : ℕ → Db → Db)
      → ((now : ℕ) (db : Db) → (f now db).dependencies ≡ db.dependencies)
      → Ends (IsRanked rank) (exec f)
  plain-Ends f same =
      Ends-exec f (λ now db h. record { falls = λ d i. h.falls d (subst (In d) (same now db) i) })

  forget_parents-Ends : (c : Text) → Ends (IsRanked rank) (exec (λ _. forget_parents c))
  forget_parents-Ends c = Ends-exec _ (λ now db h. record {
    falls = λ d i. h.falls d (In-delete (has_child c) db.dependencies d i);
  })

  delete_unique_lock-Ends : (queue key : Text) → Ends (IsRanked rank) (delete_unique_lock queue key)
  unfolding delete_unique_lock
  delete_unique_lock-Ends queue key =
      Ends-if _ _ _ (Ends-pure tt) (plain-Ends (λ _. free_lock queue key) (λ now db. refl))

  fail_batch-Ends : (id : Text) → Ends (IsRanked rank) (fail_batch id)
  unfolding fail_batch
  fail_batch-Ends id =
      Ends-if _ _ _ (Ends-pure tt)
        (plain-Ends (λ _. set_batch_status id BatchStatus.failed) (λ now db. refl))

  select_keys-Ends : (id : Text) → Ends (IsRanked rank) (select_keys id)
  unfolding select_keys
  select_keys-Ends id = Ends-query_row _

  bury-Ends :
      (cascade : Text → Exec Db Unit) (id message : Text) (keys : Keys)
      → Ends (IsRanked rank) (cascade id)
      → Ends (IsRanked rank) (bury cascade id message keys)
  unfolding bury
  bury-Ends cascade id message keys k =
      Ends-bind _ _ (plain-Ends (mark_dead id message) (λ now db. refl)) λ _.
        Ends-bind _ _ (delete_unique_lock-Ends keys.queue keys.unique_key)
          λ _. Ends-bind _ _ k λ _. fail_batch-Ends keys.batch_id

  fail_children-Ends :
      (cascade : Text → Exec Db Unit) (parent : Text) (children : List Text)
      → ((c : Text) → In c children → Ends (IsRanked rank) (cascade c))
      → Ends (IsRanked rank) (fail_children cascade parent children)
  unfolding fail_children
  fail_children-Ends cascade parent [] k = Ends-pure tt
  fail_children-Ends cascade parent (c ∷ cs) k =
      Ends-bind _ _ (Ends-or_zero no_keys _ (select_keys-Ends c)) λ keys.
        Ends-bind _ _ (bury-Ends cascade c (dependency_failed parent) keys (k c (inl refl))) λ _.
          Ends-bind _ _ (forget_parents-Ends c)
            λ _. fail_children-Ends cascade parent cs (λ x i. k x (inr i))

  In-children :
      (p c : Text) (ds : List DependencyRow)
      → In c (map (λ (d : DependencyRow). d.job_id) ds)
      → (d : DependencyRow) × In d ds × (c ≡ d.job_id)
  In-children p c [] h = absurd h
  In-children p c (d ∷ ds) (inl e) = (d, inl refl, e)
  In-children p c (d ∷ ds) (inr i) = let (x, j, e) = In-children p c ds i in (x, inr j, e)

  child_ranks :
      (p c : Text) (db : Db) → IsRanked rank db → In c (children_of p db) → rank c < rank p
  child_ranks p c db h i =
      let (d, j, e) = In-children p c (select (has_parent p) db.dependencies) i in
      let (k, q) = In-select (has_parent p) db.dependencies d j in
      let parent : d.parent_job_id ≡ p = text_eq_sound d.parent_job_id p q in
      subst (λ x. rank x < rank p) (sym e)
        (subst (λ x. rank d.job_id < rank x) parent (h.falls d k))

  cascade-Ends :
      (fuel : ℕ) (id : Text)
      → rank id < fuel
      → Ends (IsRanked rank) (cascade_dependency_failure fuel id)
  unfolding cascade_dependency_failure query_child_job_ids
  cascade-Ends zero id h = elim h [ ]
  cascade-Ends (suc fuel) id h = Ends-query_bind _ _ λ now db w ranked same.
      (fail_children-Ends (cascade_dependency_failure fuel) id (children_of id db)
          (λ c i. cascade-Ends fuel c (omega (arith, child_ranks id c db ranked i)))).at
        w (subst (IsRanked rank) (sym same) ranked)

  perform_fail-Ends :
      (fuel : ℕ) (id message : Text) (attempts : ℕ) (max_attempts : ℤ) (keys : Keys)
      → rank id < fuel
      → Ends (IsRanked rank) (perform_fail fuel id message attempts max_attempts keys)
  unfolding perform_fail schedule_retry next_run_after transition_to_dead
  perform_fail-Ends fuel id message attempts max_attempts keys h =
      Ends-if _ _ _
        (Ends-bind _ _
          (Ends-bind _ _ Ends-time_now (λ a. Ends-bind _ _ Ends-time_now (λ b. Ends-pure _)))
          λ next_run.
            plain-Ends (λ now. update_job id (retry_row message next_run now)) (λ now db. refl))
        (bury-Ends _ id message keys (cascade-Ends fuel id h))

  -- Where the dependencies have no cycle, Fail and Cancel come to an end: fuel above the rank of the
  -- job, which bounds the length of a chain of dependents, is enough.
  pub fail-cancel_end :
      (fuel : ℕ) (id message : Text) (w : World Db)
      → IsRanked rank w.db
      → rank id < fuel
      → ((fail fuel id message w).0 ≢ err out_of_fuel) × ((cancel fuel id w).0 ≢ err out_of_fuel)
  unfolding fail cancel perform_cancel
  fail-cancel_end fuel id message w ranked h =
      let failing : Ends (IsRanked rank) (fail fuel id message) =
        Ends-bind _ _ (Ends-query_row _)
          (λ r. Ends-transaction _ (perform_fail-Ends fuel id message _ _ _ h)) in
      let cancelling : Ends (IsRanked rank) (cancel fuel id) =
        Ends-bind _ _ (Ends-attempt _ (select_keys-Ends id)) (λ r. Ends-transaction _ (
          Ends-bind _ _ (plain-Ends (λ _. delete_job id) (λ now db. refl))
            λ _. Ends-bind _ _ (delete_unique_lock-Ends _ _) λ _. cascade-Ends fuel id h)) in
      ((failing.at w ranked).0, (cancelling.at w ranked).0)

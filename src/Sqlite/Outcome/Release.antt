-- ===== src/Sqlite/Outcome/Release.antt =====
-- The jobs that an Ack releases: queue/sqlite_workflow.go, resolveDependencies and
-- checkBlockedChildren.
use orkai_runiq.Common.{
  ℕ, ◌==◌, ◌≡◌, refl, sym, ap, subst, ◌∙◌, inl, inr, Text, text_eq_refl, false, List, [], ◌∷◌, In,
  map, arith, if◌then◌else◌,
}
use orkai_runiq.Sql.{
  ok, World, Exec, exec, pure, Keeps, Keeps-exec, Keeps-if, Keeps-pure, Gives, Gives-bind,
  Gives-exec, Gives-query, Gives-pure, Gives-if, Gives-Keeps, Gives-Keeping, Gives-from,
  Gives-weaken, Gives-transaction, In-update, In-map, select-In, select,
}
use orkai_runiq.Sqlite.Tables.{DependencyRow, Db, has_job_id}
use orkai_runiq.Sqlite.Unique.{delete_unique_lock, free_lock}
use orkai_runiq.Sqlite.Burial.{update_job, has_parent, query_child_job_ids}
use orkai_runiq.Sqlite.Burial.Dead.{select_keys-Keeps}
use orkai_runiq.Sqlite.Outcome.{
  release_row, parents_left, check_blocked_children, resolve_dependencies, processed_row, ack_batch,
  perform_ack, ack,
}
use orkai_runiq.Sqlite.Outcome.Settled.{
  IsUnblocked, IsSettled, check_blocked_children-Keeps, ack_batch-Keeps,
}

-- Every job of a list is settled.
record AllSettled (cs : List Text) (db : Db) : Type 0 where
  each : (c : Text) → In c cs → IsSettled c db

releasing :
    (c : Text) (left : ℕ)
    → Gives
        (λ db. left ≡ parents_left c db)
        (if left == 0 then exec (λ now. update_job c (release_row now)) else pure tt)
        (λ _ db. IsSettled c db)
releasing c left =
    Gives-if _ _ _
      (λ none_left. Gives-exec _ (λ now db h. record { settled = inr (released_row c now db) }))
      (λ some_left.
        Gives-pure tt
          (λ db h. record { settled = inl (subst (λ n. (n == 0) ≡ false) h some_left) }))
  where
    released_row :
        (c : Text) (now : ℕ) (db : Db) → IsUnblocked c (update_job c (release_row now) db)
    released_row c now db = record {
      free = λ r i e.
          let (b, j, q) = In-update (has_job_id c) (release_row now) db.jobs r i in
          ground (arith, q, text_eq_refl c);
    }

check_blocked_children-Gives :
    (cs : List Text) → Gives (λ _. Unit {0}) (check_blocked_children cs) (λ _ db. AllSettled cs db)
unfolding check_blocked_children
check_blocked_children-Gives [] = Gives-pure tt (λ db h. record { each = λ c i. absurd i })
check_blocked_children-Gives (x ∷ cs) =
    Gives-bind _ _ (Gives-query {Q = λ left db. left ≡ parents_left x db} _ (λ now db h. refl))
      λ left. Gives-bind _ _ (releasing x left) λ _.
        Gives-weaken _
          (Gives-from _ (λ db h. (tt, h))
            (Gives-Keeping _ (check_blocked_children-Gives cs) (check_blocked_children-Keeps x cs)))
          (λ u db h. record {
            each = λ c i. elim i [
              | inl e ↦ subst (λ y. IsSettled y db) (sym e) h.1
              | inr j ↦ h.0.each c j
            ];
          })

-- The dependencies are those at the start.
module _ (ds : List DependencyRow) where
  record HasAll (db : Db) : Type 0 where
    all : db.dependencies ≡ ds

  exec-HasAll :
      (f : ℕ → Db → Db)
      → ((now : ℕ) (db : Db) → (f now db).dependencies ≡ db.dependencies)
      → Keeps HasAll (exec f)
  exec-HasAll f same = Keeps-exec f (λ now db h. record { all = same now db ∙ h.all })

  lock-HasAll : (queue key : Text) → Keeps HasAll (delete_unique_lock queue key)
  unfolding delete_unique_lock
  lock-HasAll queue key =
      Keeps-if _ _ _ (Keeps-pure tt) (exec-HasAll (λ _. free_lock queue key) (λ now db. refl))

  -- The children of a job under the dependencies at the start.
  abbrev children_at : Text → List Text
  children_at p = map (λ (d : DependencyRow). d.job_id) (select (has_parent p) ds)

  resolve_dependencies-Gives :
      (p : Text) → Gives HasAll (resolve_dependencies p) (λ _ db. AllSettled (children_at p) db)
  unfolding resolve_dependencies query_child_job_ids
  resolve_dependencies-Gives p =
      Gives-bind _ _
        (Gives-query {Q = λ cs db. cs ≡ children_at p} _ (λ now db h.
          ap
            (λ (es : List DependencyRow).
              map (λ (d : DependencyRow). d.job_id) (select (has_parent p) es))
            h.all))
        λ cs. Gives-bind _ _ (Gives-exec {Q = λ u db. cs ≡ children_at p} _ (λ now db h. h)) λ u.
          Gives-weaken _
            (Gives-from _ (λ db h. (tt, h))
              (Gives-Keeping _ (check_blocked_children-Gives cs) (constant_Keeps cs)))
            (λ v db h. subst (λ xs. AllSettled xs db) h.1 h.0)
    where
      constant_Keeps :
          {A : Type 0} {m : Exec Db A} (cs : List Text) → Keeps (λ _. cs ≡ children_at p) m
      constant_Keeps cs = record { at = λ w h. h }

settled_after_batch :
    (cs : List Text) (batch_id : Text)
    → Gives (AllSettled cs) (ack_batch batch_id) (λ _ db. AllSettled cs db)
settled_after_batch cs batch_id =
    Gives-Keeps _ (record {
      at = λ w h. record { each = λ c i. (ack_batch-Keeps c batch_id).at w (h.each c i) };
    })

-- After a successful Ack every job that depended on the job has another dependency
-- left or is not blocked.
pub ack-IsSettled :
    (id : Text) (d : DependencyRow) (w w' : World Db)
    → ack id w ≡ (ok tt, w')
    → In d w.db.dependencies
    → d.parent_job_id ≡ id
    → IsSettled d.job_id w'.db
unfolding ack perform_ack
ack-IsSettled id d w w' h i parent =
    let ds = w.db.dependencies in
    let run : Gives (HasAll ds) (ack id) (λ _ db. AllSettled (children_at ds id) db) =
      Gives-bind _ _ (Gives-Keeps _ (select_keys-Keeps (HasAll ds) id)) λ keys.
        Gives-transaction _ (
          Gives-bind _ _
            (Gives-Keeps _
              (exec-HasAll ds (λ now. update_job id (processed_row now)) (λ now db. refl)))
            λ _. Gives-bind _ _ (Gives-Keeps _ (lock-HasAll ds keys.queue keys.unique_key)) λ _.
              Gives-bind _ _ (resolve_dependencies-Gives ds id)
                λ _. settled_after_batch (children_at ds id) keys.batch_id) in
    (run.at w tt w' (record { all = refl }) h).each d.job_id (
      In-map (λ (x : DependencyRow). x.job_id) (select (has_parent id) ds) d
        (select-In (has_parent id) ds d i (rw parent (text_eq_refl id))))

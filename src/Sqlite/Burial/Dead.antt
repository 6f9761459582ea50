-- ===== src/Sqlite/Burial/Dead.antt =====
-- Dead jobs and the cascade of Fail and Cancel.
use orkai_runiq.Common.{
  ℕ, zero, suc, ◌≡◌, refl, subst, Text, text_eq_refl, true, List, [], ◌∷◌, In, arith,
}
use orkai_runiq.Sql.{
  Exec, exec, or_zero, Keeps, Keeps-exec, Keeps-if, Keeps-pure, Keeps-bind, keeps_rules, In-update,
}
use orkai_runiq.Sqlite.Tables.{JobRow, BatchStatus, Db, has_job_id, is_dead}
use orkai_runiq.Sqlite.Unique.{delete_unique_lock, free_lock}
use orkai_runiq.Sqlite.Burial.{
  Keys, no_keys, select_keys, dead_row, mark_dead, set_batch_status, fail_batch, bury,
  fail_children, dependency_failed, forget_parents, cascade_dependency_failure, query_child_job_ids,
}

-- Every row of this identifier is dead.
pub record IsDead (id : Text) (db : Db) : Type 0 where
  pub all_dead : (r : JobRow) → In r db.jobs → r.job_id ≡ id → is_dead r.status ≡ true

pub mark_dead-IsDead :
    (x id message : Text) (now : ℕ) (db : Db) → IsDead x db → IsDead x (mark_dead id message now db)
mark_dead-IsDead x id message now db t = record {
  all_dead = λ r i e.
      let (b, j, q) = In-update (has_job_id id) (dead_row message now) db.jobs r i in
      ground (arith, q, t.all_dead b j);
}

pub mark_dead_kills :
    (id message : Text) (now : ℕ) (db : Db) → IsDead id (mark_dead id message now db)
mark_dead_kills id message now db = record {
  all_dead = λ r i e.
      let (b, j, q) = In-update (has_job_id id) (dead_row message now) db.jobs r i in
      ground (arith, q, text_eq_refl id);
}

pub exec-IsDead : (x id message : Text) → Keeps (IsDead x) (exec (mark_dead id message))
exec-IsDead x id message = Keeps-exec (mark_dead id message) (mark_dead-IsDead x id message)

pub same_jobs-IsDead : (x : Text) (db db' : Db) → db'.jobs ≡ db.jobs → IsDead x db → IsDead x db'
same_jobs-IsDead x db db' same t = record {
  all_dead = λ r i e. t.all_dead r (subst (In r) same i) e;
}

-- A statement on other tables.
pub elsewhere-IsDead :
    (x : Text) (f : ℕ → Db → Db)
    → ((now : ℕ) (db : Db) → (f now db).jobs ≡ db.jobs)
    → Keeps (IsDead x) (exec f)
elsewhere-IsDead x f same = Keeps-exec f (λ now db. same_jobs-IsDead x db (f now db) (same now db))

pub delete_unique_lock-IsDead :
    (x queue key : Text) → Keeps (IsDead x) (delete_unique_lock queue key)
unfolding delete_unique_lock
delete_unique_lock-IsDead x queue key =
    let frees = elsewhere-IsDead x (λ _. free_lock queue key) (λ now db. refl) in
    Keeps-if _ _ _ (Keeps-pure tt) frees

pub fail_batch-IsDead : (x id : Text) → Keeps (IsDead x) (fail_batch id)
unfolding fail_batch
fail_batch-IsDead x id =
    let fails = elsewhere-IsDead x (λ _. set_batch_status id BatchStatus.failed) (λ now db. refl) in
    Keeps-if _ _ _ (Keeps-pure tt) fails

pub forget_parents-IsDead : (x id : Text) → Keeps (IsDead x) (exec (λ _. forget_parents id))
forget_parents-IsDead x id = elsewhere-IsDead x (λ _. forget_parents id) (λ now db. refl)

pub select_keys-Keeps : (P : Db → Type 0) (id : Text) → Keeps P (or_zero no_keys (select_keys id))
unfolding select_keys
select_keys-Keeps P id = search keeps_rules

ruleset dead_rules = (
  keeps_rules, exec-IsDead, delete_unique_lock-IsDead, fail_batch-IsDead, forget_parents-IsDead,
  select_keys-Keeps,
)

module _ (x : Text) (cascade : Text → Exec Db Unit)
    (k : (id : Text) → Keeps (IsDead x) (cascade id)) where
  pub bury-IsDead :
      (id message : Text) (keys : Keys) → Keeps (IsDead x) (bury cascade id message keys)
  unfolding bury
  bury-IsDead id message keys = search (dead_rules, k)

  fail_children-IsDead :
      (parent : Text) (children : List Text)
      → Keeps (IsDead x) (fail_children cascade parent children)
  unfolding fail_children
  fail_children-IsDead parent [] = search keeps_rules
  fail_children-IsDead parent (child ∷ children) =
      Keeps-bind _ _ (select_keys-Keeps (IsDead x) child) λ keys.
        Keeps-bind _ _ (bury-IsDead child (dependency_failed parent) keys) λ _.
          Keeps-bind _ _ (forget_parents-IsDead x child) λ _. fail_children-IsDead parent children

pub cascade-IsDead :
    (x : Text) (fuel : ℕ) (id : Text) → Keeps (IsDead x) (cascade_dependency_failure fuel id)
unfolding cascade_dependency_failure query_child_job_ids
cascade-IsDead x zero id = search keeps_rules
cascade-IsDead x (suc fuel) id = search (
  keeps_rules,
  fail_children-IsDead x (cascade_dependency_failure fuel) (cascade-IsDead x fuel) id,
)

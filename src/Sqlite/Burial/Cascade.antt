-- ===== src/Sqlite/Burial/Cascade.antt =====
-- The jobs downstream of a job that is buried: queue/sqlite_workflow.go, cascadeDependencyFailure.
use orkai_runiq.Common.{
  ℕ, zero, suc, ◌≡◌, refl, sym, subst, ◌⊎◌, inl, inr, Text, text_eq, text_eq_refl, text_eq_sound,
  List, [], ◌∷◌, In, Bool-cases,
}
use orkai_runiq.Sql.{
  ok, Exec, exec, World, Keeps, Keeps-exec, Keeps-if, Keeps-pure, Keeps-both, Gives, Gives-bind,
  Gives-exec, Gives-query, Gives-pure, Gives-raise, Gives-Keeps, Gives-Keeping, Gives-weaken,
  In-map, select-In, delete-In,
}
use orkai_runiq.Sqlite.Tables.{DependencyRow, BatchStatus, Db}
use orkai_runiq.Sqlite.Unique.{delete_unique_lock, free_lock}
use orkai_runiq.Sqlite.Burial.{
  Keys, mark_dead, set_batch_status, fail_batch, bury, fail_children, has_parent, has_child,
  children_of, dependency_failed, forget_parents, cascade_dependency_failure, query_child_job_ids,
  transition_to_dead,
}
use orkai_runiq.Sqlite.Burial.Dead.{
  IsDead, mark_dead_kills, mark_dead-IsDead, same_jobs-IsDead, delete_unique_lock-IsDead,
  fail_batch-IsDead, bury-IsDead, cascade-IsDead, select_keys-Keeps,
}

-- The jobs that depend on `p` under some dependencies, at any distance.
pub data Downstream (ds : List DependencyRow) : Text → Text → Type 0 where
  child :
      {p c : Text} (d : DependencyRow)
      → In d ds
      → d.parent_job_id ≡ p
      → d.job_id ≡ c
      → Downstream ds p c
  further :
      {p c : Text} (d : DependencyRow)
      → In d ds
      → d.parent_job_id ≡ p
      → Downstream ds d.job_id c
      → Downstream ds p c

module _ (ds : List DependencyRow) where
  -- A job and all that is downstream of it are dead.
  pub record Fallen (c : Text) (db : Db) : Type 0 where
    pub itself : IsDead c db
    pub below : (x : Text) → Downstream ds c x → IsDead x db

  -- Of the dependencies at the start, those that are gone led to jobs that have fallen.
  pub record Accounted (db : Db) : Type 0 where
    pub settled : (d : DependencyRow) → In d ds → In d db.dependencies ⊎ Fallen d.job_id db

  -- The children of `p` have fallen, but for those of a list.
  pub record FallenBut (p : Text) (rest : List Text) (db : Db) : Type 0 where
    pub child_of :
        (d : DependencyRow) → In d ds → d.parent_job_id ≡ p → In d.job_id rest ⊎ Fallen d.job_id db

module _ {ds : List DependencyRow} {A : Type 0} (m : Exec Db A)
    (k : (x : Text) → Keeps (IsDead x) m) where
  Keeps-Fallen : (c : Text) → Keeps (Fallen ds c) m
  Keeps-Fallen c = record {
    at = λ w f. record { itself = (k c).at w f.itself; below = λ x b. (k x).at w (f.below x b) };
  }

  Keeps-FallenBut : (p : Text) (rest : List Text) → Keeps (FallenBut ds p rest) m
  Keeps-FallenBut p rest = record {
    at = λ w f. record {
      child_of = λ d i e. elim (f.child_of d i e) [
        | inl j ↦ inl j
        | inr fallen ↦ inr ((Keeps-Fallen d.job_id).at w fallen)
      ];
    };
  }

-- A statement that changes no dependency.
module _ {ds : List DependencyRow} (f : ℕ → Db → Db)
    (same : (now : ℕ) (db : Db) → (f now db).dependencies ≡ db.dependencies)
    (k : (x : Text) → (now : ℕ) (db : Db) → IsDead x db → IsDead x (f now db)) where
  Keeps-Accounted : Keeps (Accounted ds) (exec f)
  Keeps-Accounted = Keeps-exec f λ now db a. record {
    settled = λ d i. elim (a.settled d i) [
      | inl j ↦ inl (subst (In d) (sym (same now db)) j)
      | inr fallen ↦ inr (record {
        itself = k d.job_id now db fallen.itself;
        below = λ x b. k x now db (fallen.below x b);
      })
    ];
  }

delete_unique_lock-Accounted :
    (ds : List DependencyRow) (queue key : Text)
    → Keeps (Accounted ds) (delete_unique_lock queue key)
unfolding delete_unique_lock
delete_unique_lock-Accounted ds queue key = Keeps-if _ _ _ (Keeps-pure tt) (
    Keeps-Accounted (λ _. free_lock queue key) (λ now db. refl)
      (λ x now db. same_jobs-IsDead x db (free_lock queue key db) refl))

fail_batch-Accounted : (ds : List DependencyRow) (id : Text) → Keeps (Accounted ds) (fail_batch id)
unfolding fail_batch
fail_batch-Accounted ds id = Keeps-if _ _ _ (Keeps-pure tt) (
    Keeps-Accounted (λ _. set_batch_status id BatchStatus.failed) (λ now db. refl)
      (λ x now db. same_jobs-IsDead x db (set_batch_status id BatchStatus.failed db) refl))

Fallen-of :
    (ds : List DependencyRow) (c : Text) (db : Db)
    → FallenBut ds c [] db
    → IsDead c db
    → Fallen ds c db
Fallen-of ds c db f t = record { itself = t; below = below }
  where
    one : (d : DependencyRow) → In d ds → d.parent_job_id ≡ c → Fallen ds d.job_id db
    one d i e = elim (f.child_of d i e) [ inl j ↦ absurd j | inr fallen ↦ fallen ]

    below : (x : Text) → Downstream ds c x → IsDead x db
    below x (child d i e q) = subst (λ y. IsDead y db) q (one d i e).itself
    below x (further d i e b) = (one d i e).below x b

-- What the callers of the cascade need of it.
record Sweeps (ds : List DependencyRow) (cascade : Text → Exec Db Unit) : Type 0 where
  stable : (x id : Text) → Keeps (IsDead x) (cascade id)
  sweeps :
      (id : Text)
      → Gives (Accounted ds) (cascade id) (λ u db. Accounted ds db × FallenBut ds id [] db)

module _ {ds : List DependencyRow} {cascade : Text → Exec Db Unit} (s : Sweeps ds cascade) where
  bury-Fallen :
      (id message : Text) (keys : Keys)
      → Gives
          (Accounted ds)
          (bury cascade id message keys)
          (λ u db. Accounted ds db × Fallen ds id db)
  unfolding bury
  bury-Fallen id message keys =
      Gives-bind _ _
        (Gives-exec {Q = λ u db. Accounted ds db × IsDead id db} (mark_dead id message) (λ now db a.
          (
            record {
              settled = λ d i. elim (a.settled d i) [
                | inl j ↦ inl j
                | inr fallen ↦ inr (record {
                  itself = mark_dead-IsDead d.job_id id message now db fallen.itself;
                  below = λ x b. mark_dead-IsDead x id message now db (fallen.below x b);
                })
              ];
            },
            mark_dead_kills id message now db,
          )))
        λ _.
          Gives-bind _ _
            (Gives-Keeps _ (
              Keeps-both _ (delete_unique_lock-Accounted ds keys.queue keys.unique_key)
                (delete_unique_lock-IsDead id keys.queue keys.unique_key)))
            λ _. Gives-bind _ _ (Gives-Keeping _ (s.sweeps id) (s.stable id id)) λ _.
              Gives-weaken _
                (Gives-Keeps _ (
                  Keeps-both _
                    (Keeps-both _ (fail_batch-Accounted ds keys.batch_id)
                      (Keeps-FallenBut _ (λ x. fail_batch-IsDead x keys.batch_id) id []))
                    (fail_batch-IsDead id keys.batch_id)))
                (λ u db h. (h.0.0, Fallen-of ds id db h.0.1 h.1))

module _ {ds : List DependencyRow} (c : Text) (db : Db) where
  -- `forget_parents` leaves the jobs alone.
  forget-Fallen : (x : Text) → Fallen ds x db → Fallen ds x (forget_parents c db)
  forget-Fallen x f = record {
    itself = same_jobs-IsDead x db _ refl f.itself;
    below = λ y b. same_jobs-IsDead y db _ refl (f.below y b);
  }

  forget-Accounted : Fallen ds c db → Accounted ds db → Accounted ds (forget_parents c db)
  forget-Accounted f a = record {
    settled = λ d i. elim (a.settled d i) [
      | inl j ↦ elim (Bool-cases (text_eq d.job_id c)) [
        | inl hit ↦ inr (
            forget-Fallen d.job_id
              (subst (λ x. Fallen ds x db) (sym (text_eq_sound d.job_id c hit)) f))
        | inr miss ↦ inl (delete-In (has_child c) db.dependencies d j miss)
      ]
      | inr fallen ↦ inr (forget-Fallen d.job_id fallen)
    ];
  }

  forget-FallenBut :
      (p : Text) (cs : List Text)
      → Fallen ds c db
      → FallenBut ds p (c ∷ cs) db
      → FallenBut ds p cs (forget_parents c db)
  forget-FallenBut p cs f b = record {
    child_of = λ d i e. elim (b.child_of d i e) [
      | inl (inl q) ↦ inr (forget-Fallen d.job_id (subst (λ x. Fallen ds x db) (sym q) f))
      | inl (inr j) ↦ inl j
      | inr fallen ↦ inr (forget-Fallen d.job_id fallen)
    ];
  }

module _ {ds : List DependencyRow} {cascade : Text → Exec Db Unit} (s : Sweeps ds cascade) where
  fail_children-Fallen :
      (parent : Text) (children : List Text)
      → Gives
          (λ db. Accounted ds db × FallenBut ds parent children db)
          (fail_children cascade parent children)
          (λ u db. Accounted ds db × FallenBut ds parent [] db)
  unfolding fail_children
  fail_children-Fallen parent [] = Gives-pure tt (λ db h. h)
  fail_children-Fallen parent (c ∷ cs) =
      Gives-bind _ _ (Gives-Keeps _ (select_keys-Keeps _ c)) λ keys.
        Gives-bind _ _
          (Gives-Keeping _ (bury-Fallen s c (dependency_failed parent) keys) (
            Keeps-FallenBut _
              (λ x. bury-IsDead x cascade (s.stable x) c (dependency_failed parent) keys) parent
              (c ∷ cs)))
          λ _.
            Gives-bind _ _
              (Gives-exec {Q = λ u db. Accounted ds db × FallenBut ds parent cs db}
                (λ _. forget_parents c)
                (λ now db h.
                  (forget-Accounted c db h.0.1 h.0.0, forget-FallenBut c db parent cs h.0.1 h.1)))
              λ _. fail_children-Fallen parent cs

children_listed :
    (ds : List DependencyRow) (p : Text) (db : Db)
    → Accounted ds db
    → FallenBut ds p (children_of p db) db
children_listed ds p db a = record {
  child_of = λ d i e. elim (a.settled d i) [
    | inl j ↦
        inl (In-map _ _ d (select-In (has_parent p) db.dependencies d j (rw e (text_eq_refl p))))
    | inr fallen ↦ inr fallen
  ];
}

cascade-Sweeps : (ds : List DependencyRow) (fuel : ℕ) → Sweeps ds (cascade_dependency_failure fuel)
unfolding cascade_dependency_failure query_child_job_ids
cascade-Sweeps ds zero = record {
  stable = λ x id. cascade-IsDead x zero id;
  sweeps = λ id. Gives-raise _;
}
cascade-Sweeps ds (suc fuel) = record {
  stable = λ x id. cascade-IsDead x (suc fuel) id;
  sweeps = λ id.
      Gives-bind _ _
        (Gives-query {Q = λ children db. Accounted ds db × FallenBut ds id children db} _
          (λ now db a. (a, children_listed ds id db a)))
        λ children. fail_children-Fallen (cascade-Sweeps ds fuel) id children;
}

all-Accounted : (db : Db) → Accounted db.dependencies db
all-Accounted db = record { settled = λ d i. inl i }

-- A job that is buried, and all that is downstream of it, end up dead.
pub transition_to_dead-Fallen :
    (fuel : ℕ) (id message : Text) (keys : Keys) (w w' : World Db)
    → transition_to_dead fuel id message keys w ≡ (ok tt, w')
    → Fallen w.db.dependencies id w'.db
unfolding transition_to_dead
transition_to_dead-Fallen fuel id message keys w w' h =
    ((bury-Fallen (cascade-Sweeps w.db.dependencies fuel) id message keys).at w tt w'
      (all-Accounted w.db) h).1

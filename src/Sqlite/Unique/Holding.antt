-- ===== src/Sqlite/Unique/Holding.antt =====
-- The lock after an Enqueue with a unique key: queue/sqlite.go.
use orkai_runiq.Common.{
  ℕ, ℤ, ◌<◌, ◌≡◌, ◌≢◌, refl, sym, ◌∙◌, ap, subst, inl, inr, Text, text_eq, text_eq_sound,
  text_eq_refl, is_empty, Bool, true, false, some, List, arith, Bool-cases, if◌then◌else◌,
}
use orkai_runiq.Queue.{JobEnvelope}
use orkai_runiq.Helpers.{get_run_at, get_max_attempts}
use orkai_runiq.Sql.{
  ok, World, Exec, exec, pure, query, query_row, statement, time_now, raise, attempt, ◌>>=◌, first,
  exists, exists-first, first-upsert, bind-ok, exec-ok, query_row-ok, continue-ok,
}
use orkai_runiq.Sqlite.Tables.{JobRow, LockRow, Db, has_job_id, has_lock_key}
use orkai_runiq.Sqlite.Unique.{
  lock_key_of, insert_lock, replace_lock, try_insert_lock, check_lock_collision,
  handle_lock_collision, lock_row, take_lock,
}
use orkai_runiq.Sqlite.Unique.Exclusion.{
  enqueue-keyed, enqueue_refused, lookup_fails, check_time, third_step, expiry_of, inserting,
}
use orkai_runiq.Sqlite.Jobs.{enqueue, insert_job, put_job, inserted_row, requeued_row}

-- The lock of a key is in the hands of a job, and the jobs are as they were.
record Held (key holder : Text) (jobs : List JobRow) (db : Db) : Type 0 where
  row : LockRow
  locked : first (has_lock_key key) db.unique_locks ≡ some row
  holds : row.job_id ≡ holder
  untouched : db.jobs ≡ jobs

replace_lock-Held : (r : LockRow) (db : Db) → Held r.lock_key r.job_id db.jobs (replace_lock r db)
replace_lock-Held r db =
    elim (first-upsert (has_lock_key r.lock_key)
      (λ x. record x { job_id = r.job_id; expires_at = r.expires_at }) r db.unique_locks (λ x h. h)
      (text_eq_refl r.lock_key)) [
        | inl e ↦ record { row = r; locked = e; holds = refl; untouched = refl }
        | inr (a, was, e) ↦ record { row = _; locked = e; holds = refl; untouched = refl }
      ]

handle_lock_collision-Held :
    (r l : LockRow) (w w' : World Db)
    → handle_lock_collision r l w ≡ (ok tt, w')
    → Held r.lock_key r.job_id w.db.jobs w'.db
unfolding handle_lock_collision ◌>>=◌ attempt exec query statement time_now raise
handle_lock_collision-Held r l w w' h =
    subst (Held r.lock_key r.job_id w.db.jobs) (ground arith) (replace_lock-Held r w.db)

insert_lock-first :
    (r : LockRow) (db : Db)
    → (l : LockRow) × (first (has_lock_key r.lock_key) (insert_lock r db).unique_locks ≡ some l)
insert_lock-first r db =
    elim (first-upsert (has_lock_key r.lock_key) (λ x. x) r db.unique_locks (λ x h. h)
      (text_eq_refl r.lock_key)) [ inl e ↦ (r, e) | inr (a, was, e) ↦ (a, e) ]

settled :
    (b : Bool) (m : Exec Db Unit) (w w' : World Db)
    → b ≡ true
    → (if b then pure tt else m) w ≡ (ok tt, w')
    → w.db ≡ w'.db
unfolding pure
settled true m w w' e h = ground arith
settled false m w w' e h = cc

check_lock_collision-Held :
    (r : LockRow) (w w' : World Db)
    → check_lock_collision r w ≡ (ok tt, w')
    → Held r.lock_key r.job_id w.db.jobs w'.db
unfolding check_lock_collision
check_lock_collision-Held r w w' h =
    let (l, w1, read, rest) =
      bind-ok (query_row λ db. first (has_lock_key r.lock_key) db.unique_locks)
        (λ (existing : LockRow).
          if text_eq existing.job_id r.job_id then pure tt else handle_lock_collision r existing)
        w h in
    let (was, same) =
      query_row-ok (λ (db : Db). first (has_lock_key r.lock_key) db.unique_locks) w read in
    elim (Bool-cases (text_eq l.job_id r.job_id)) [
      | inl own ↦
          subst (Held r.lock_key r.job_id w.db.jobs) (sym same ∙ settled _ _ w1 w' own rest)
            (record {
              row = l;
              locked = was;
              holds = text_eq_sound l.job_id r.job_id own;
              untouched = refl;
            })
      | inr other ↦
          subst (λ (js : List JobRow). Held r.lock_key r.job_id js w'.db)
            (ap (λ (db : Db). db.jobs) same)
            (handle_lock_collision-Held r l w1 w' (rw other at rest))
    ]

take_lock-Held :
    (r : LockRow) (w w' : World Db)
    → take_lock r w ≡ (ok tt, w')
    → Held r.lock_key r.job_id w.db.jobs w'.db
unfolding take_lock try_insert_lock
take_lock-Held r w w' h =
    let (u, w1, ran, rest) = bind-ok (exec λ _. insert_lock r) (λ _. check_lock_collision r) w h in
    let inserted = exec-ok (λ _. insert_lock r) w ran in
    let held = check_lock_collision-Held r w1 w' rest in
    subst (λ (js : List JobRow). Held r.lock_key r.job_id js w'.db)
      (ap (λ (db : Db). db.jobs) inserted) held

put_job_stored :
    (env : JobEnvelope) (run_at : ℕ) (max_attempts : ℤ) (now : ℕ) (db : Db)
    → exists (has_job_id env.job_id) (put_job env run_at max_attempts now db).jobs ≡ true
put_job_stored env run_at max_attempts now db =
    elim (first-upsert (has_job_id env.job_id) (requeued_row env run_at max_attempts now)
      (inserted_row env run_at max_attempts now) db.jobs (λ x h. h) (text_eq_refl env.job_id)) [
        | inl e ↦
            exists-first (has_job_id env.job_id) (put_job env run_at max_attempts now db).jobs _ e
        | inr (a, was, e) ↦
            exists-first (has_job_id env.job_id) (put_job env run_at max_attempts now db).jobs _ e
      ]

-- After an Enqueue with a unique key the job is in the table and holds the lock of the key.
pub enqueue_holds :
    (env : JobEnvelope) (w w' : World Db)
    → is_empty env.unique_key ≡ false
    → enqueue env w ≡ (ok tt, w')
    → (exists (has_job_id env.job_id) w'.db.jobs ≡ true)
      × ((l : LockRow) × (first
              (has_lock_key (lock_key_of env.queue env.unique_key))
              w'.db.unique_locks
            ≡ some l)
          × (l.job_id ≡ env.job_id))
unfolding insert_job
enqueue_holds env w w' keyed h =
    let wanted = lock_row env (expiry_of env w) in
    let (u, w1, took, rest) =
      continue-ok (λ _. inserting env w) (take_lock wanted (third_step w))
        (sym (enqueue-keyed env w keyed) ∙ h) in
    let held = take_lock-Held wanted (third_step w) w1 took in
    let put =
      exec-ok
        (put_job env (get_run_at (w.outside.clock w.step) env.run_at)
          (get_max_attempts env.max_attempts))
        w1 rest in
    (rw put (put_job_stored env _ _ _ w1.db), (held.row, rw put held.locked, held.holds))

-- Once a job with a unique key is enqueued, Enqueue of another job with the same queue and key does
-- not succeed and changes nothing before the lock expires, if it can look the holder up.
pub enqueue_excludes :
    (env other : JobEnvelope) (w w' : World Db)
    → is_empty env.unique_key ≡ false
    → enqueue env w ≡ (ok tt, w')
    → other.queue ≡ env.queue
    → other.unique_key ≡ env.unique_key
    → other.job_id ≢ env.job_id
    → lookup_fails w' ≡ false
    → (l : LockRow)
    → first (has_lock_key (lock_key_of env.queue env.unique_key)) w'.db.unique_locks ≡ some l
    → check_time w' < l.expires_at
    → ((enqueue other w').0 ≢ ok tt) × ((enqueue other w').1.db ≡ w'.db)
enqueue_excludes env other w w' keyed h q k ne readable l locked early =
    let (stored, (row, found_row, holds)) = enqueue_holds env w w' keyed h in
    let same : row ≡ l = ground (arith, found_row, locked) in
    let mine : l.job_id ≡ env.job_id = sym (ap (λ (x : LockRow). x.job_id) same) ∙ holds in
    enqueue_refused other w' l (rw k keyed) (rw (q, k) locked) (λ e. ne (sym e ∙ mine))
      (rw mine stored) readable early

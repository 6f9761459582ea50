-- ===== src/Sqlite/Unique/Exclusion.antt =====
-- The uniqueness lock of Enqueue.
use orkai_runiq.Common.{
  ℕ, suc, ◌+◌, ◌<◌, ◌≡◌, ◌≢◌, refl, Text, text_eq_ne, is_empty, Bool, true, false, Option, some,
  arith, shift,
}
use orkai_runiq.Queue.{JobEnvelope}
use orkai_runiq.Helpers.{get_run_at, get_max_attempts}
use orkai_runiq.Sql.{
  Result, ok, err, World, Exec, exec, continue, pure, query, query_row, statement, time_now, raise,
  attempt, ◌>>=◌, first, exists, update_same, exists-first, next,
}
use orkai_runiq.Sqlite.Tables.{LockRow, Db, has_job_id, has_lock_key}
use orkai_runiq.Sqlite.Unique.{
  lock_key_of, insert_lock, try_insert_lock, check_lock_collision, handle_lock_collision, lock_row,
  lock_ttl, take_lock, acquire_unique_lock, get_lock_expires,
}
use orkai_runiq.Sqlite.Jobs.{enqueue, insert_job}

abbrev lock_of : Text → Db → Option LockRow
lock_of key db = first (has_lock_key key) db.unique_locks

pub insert_lock_held :
    (r l : LockRow) (db : Db) → lock_of r.lock_key db ≡ some l → insert_lock r db ≡ db
insert_lock_held r l db h = ground (
  arith,
  exists-first (has_lock_key r.lock_key) db.unique_locks l h,
  update_same (has_lock_key r.lock_key) db.unique_locks,
)

-- take_lock, while another job that exists holds the lock.
module _ (wanted l : LockRow) (w : World Db) (held : lock_of wanted.lock_key w.db ≡ some l)
    (other : l.job_id ≢ wanted.job_id) (alive : exists (has_job_id l.job_id) w.db.jobs ≡ true) where
  take_lock_refused :
      (readable : w.outside.fails (suc (suc w.step)) ≡ false)
      (early : w.outside.clock (suc (suc (suc w.step))) < l.expires_at)
      → ((take_lock wanted w).0 ≢ ok tt) × ((take_lock wanted w).1.db ≡ w.db)
  unfolding take_lock try_insert_lock check_lock_collision handle_lock_collision ◌>>=◌ exec query
      query_row statement time_now raise attempt
  take_lock_refused readable early =
      ground (arith, insert_lock_held wanted l w.db held, text_eq_ne l.job_id wanted.job_id other)

-- The step at which Enqueue's take_lock begins: two readings of the clock come before.
abbrev pub third_step : World Db → World Db
third_step w = next (next w)

-- The lookup of the holder's row, and the reading of the clock after it.
abbrev pub lookup_fails : World Db → Bool
lookup_fails w = w.outside.fails (w.step + 4)

abbrev pub check_time : World Db → ℕ
check_time w = w.outside.clock (w.step + 5)

abbrev pub expiry_of : JobEnvelope → World Db → ℕ
expiry_of env w = shift (w.outside.clock (suc w.step)) (lock_ttl env)

-- An Enqueue with a unique key takes the lock, and inserts the job only if it got it.
abbrev pub inserting : JobEnvelope → World Db → Exec Db Unit
inserting env w =
    insert_job env (get_run_at (w.outside.clock w.step) env.run_at)
      (get_max_attempts env.max_attempts)

pub enqueue-keyed :
    (env : JobEnvelope) (w : World Db)
    → is_empty env.unique_key ≡ false
    → enqueue env w
      ≡ continue (λ _. inserting env w) (take_lock (lock_row env (expiry_of env w)) (third_step w))
unfolding enqueue acquire_unique_lock get_lock_expires ◌>>=◌ time_now pure
enqueue-keyed env w keyed = rw keyed refl

continue_stops :
    (k : Exec Db Unit) (out : Result (Unit {0}) × World Db) (s : Db)
    → out.0 ≢ ok tt
    → out.1.db ≡ s
    → ((continue (λ _. k) out).0 ≢ ok tt) × ((continue (λ _. k) out).1.db ≡ s)
continue_stops k (ok tt, w) s h e = absurd (h refl)
continue_stops k (err x, w) s h e = (h, e)

-- While another job that exists holds the lock of the unique key, and has not let it expire, Enqueue
-- does not succeed and changes nothing, if the lookup of the holder's row does not fail.
pub enqueue_refused :
    (env : JobEnvelope) (w : World Db) (l : LockRow)
    → is_empty env.unique_key ≡ false
    → first (has_lock_key (lock_key_of env.queue env.unique_key)) w.db.unique_locks ≡ some l
    → l.job_id ≢ env.job_id
    → exists (has_job_id l.job_id) w.db.jobs ≡ true
    → lookup_fails w ≡ false
    → check_time w < l.expires_at
    → ((enqueue env w).0 ≢ ok tt) × ((enqueue env w).1.db ≡ w.db)
enqueue_refused env w l keyed held other alive readable early =
    let wanted = lock_row env (expiry_of env w) in
    let (stopped, same) =
      take_lock_refused wanted l (third_step w) held other alive (ground (arith, readable))
        (ground (arith, early)) in
    rw (enqueue-keyed env w keyed)
      (continue_stops (inserting env w) (take_lock wanted (third_step w)) w.db stopped same)

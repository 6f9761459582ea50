-- ===== src/Examples/Locks.antt =====
-- Runs of Enqueue with a unique key.
use orkai_runiq.Common.{
  ℕ, ◌==◌, ◌<◌, ◌≡◌, ◌≢◌, ◌*◌, sym, refl, codes, text_eq, is_empty, true, false, some, [], ◌∷◌,
  arith,
}
use orkai_runiq.Helpers.{second, get_run_at, get_max_attempts}
use orkai_runiq.Sql.{
  ok, World, statement, exec, query, query_row, pure, time_now, ◌>>=◌, first, exists,
}
use orkai_runiq.Sqlite.Tables.{Status, LockRow, Db, empty, has_job_id, has_lock_key}
use orkai_runiq.Sqlite.Unique.{
  lock_key_of, get_lock_expires, acquire_unique_lock, take_lock, try_insert_lock,
  check_lock_collision, handle_lock_collision,
}
use orkai_runiq.Sqlite.Unique.Exclusion.{lookup_fails, check_time}
use orkai_runiq.Sqlite.Unique.Holding.{enqueue_excludes}
use orkai_runiq.Sqlite.Unique.Lost.{enqueue_ignores_lock}
use orkai_runiq.Sqlite.Jobs.{enqueue, insert_job}
use orkai_runiq.Examples.{sunny, job_row, envelope, id_a, id_b, seconds_pass, fresh_id}

abbrev after_a : World Db
after_a = (enqueue (envelope id_a) (sunny empty)).1

enqueue_a : enqueue (envelope id_a) (sunny empty) ≡ (ok tt, after_a)
unfolding enqueue insert_job acquire_unique_lock get_lock_expires take_lock try_insert_lock
    check_lock_collision handle_lock_collision lock_key_of text_eq is_empty statement exec query
    query_row pure time_now ◌>>=◌ get_run_at get_max_attempts
enqueue_a = refl

has_key : is_empty (codes "k") ≡ false
unfolding is_empty
has_key = refl

abbrev lock_a : LockRow
lock_a = record { lock_key = codes "mail:k"; job_id = id_a; expires_at = 71 * second }

locked_a :
    first (has_lock_key (lock_key_of (codes "mail") (codes "k"))) after_a.db.unique_locks
    ≡ some lock_a
unfolding enqueue insert_job acquire_unique_lock get_lock_expires take_lock try_insert_lock
    check_lock_collision handle_lock_collision lock_key_of text_eq is_empty statement exec query
    query_row pure time_now ◌>>=◌ get_run_at get_max_attempts
locked_a = refl

early_a : check_time after_a < lock_a.expires_at
unfolding enqueue insert_job acquire_unique_lock get_lock_expires take_lock try_insert_lock
    check_lock_collision handle_lock_collision lock_key_of text_eq is_empty statement exec query
    query_row pure time_now ◌>>=◌ get_run_at get_max_attempts
early_a = omega arith

readable_a : lookup_fails after_a ≡ false
unfolding enqueue insert_job acquire_unique_lock get_lock_expires take_lock try_insert_lock
    check_lock_collision handle_lock_collision lock_key_of text_eq is_empty statement exec query
    query_row pure time_now ◌>>=◌ get_run_at get_max_attempts
readable_a = refl

other_id : id_b ≢ id_a
other_id e = ground arith

enqueue_excludes_example :
    ((enqueue (envelope id_b) after_a).0 ≢ ok tt)
    × ((enqueue (envelope id_b) after_a).1.db ≡ after_a.db)
enqueue_excludes_example =
    enqueue_excludes (envelope id_a) (envelope id_b) (sunny empty) after_a has_key enqueue_a refl
      refl other_id readable_a lock_a locked_a early_a

abbrev with_lock : Db
with_lock = record empty { jobs = job_row id_a Status.running 0 ∷ []; unique_locks = lock_a ∷ [] }

locked :
    first (has_lock_key (lock_key_of (codes "mail") (codes "k"))) with_lock.unique_locks
    ≡ some lock_a
unfolding lock_key_of text_eq
locked = refl

stored : exists (has_job_id id_a) with_lock.jobs ≡ true
unfolding text_eq
stored = refl

-- Only the lookup of the holder's row fails.
abbrev lookup_broken : World Db
lookup_broken = record {
  outside = record { clock = seconds_pass; fails = λ n. n == 4; job_id = fresh_id };
  step = 0;
  db = with_lock;
}

rest_works : (n : ℕ) → n ≢ 4 → (n == 4) ≡ false
rest_works n h = ground arith

enqueue_ignores_lock_example : (enqueue (envelope id_b) lookup_broken).0 ≡ ok tt
enqueue_ignores_lock_example =
    enqueue_ignores_lock (envelope id_b) lookup_broken lock_a has_key locked (λ e. other_id (sym e))
      refl rest_works

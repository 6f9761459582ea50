-- ===== src/Sqlite/Unique/Lost.antt =====
-- What a failed lookup of the lock's holder does to the exclusion.
use orkai_runiq.Common.{ℕ, suc, ◌+◌, ◌≡◌, ◌≢◌, text_eq_ne, is_empty, true, false, some, arith}
use orkai_runiq.Queue.{JobEnvelope}
use orkai_runiq.Sql.{
  ok, World, exec, query, query_row, statement, time_now, raise, attempt, ◌>>=◌, first,
}
use orkai_runiq.Sqlite.Tables.{LockRow, Db, has_lock_key}
use orkai_runiq.Sqlite.Unique.{
  lock_key_of, replace_lock, try_insert_lock, check_lock_collision, handle_lock_collision, lock_row,
  take_lock,
}
use orkai_runiq.Sqlite.Unique.Exclusion.{
  enqueue-keyed, lookup_fails, third_step, expiry_of, insert_lock_held,
}
use orkai_runiq.Sqlite.Jobs.{enqueue, insert_job}

take_lock_anyway :
    (r l : LockRow) (w : World Db)
    → first (has_lock_key r.lock_key) w.db.unique_locks ≡ some l
    → l.job_id ≢ r.job_id
    → w.outside.fails (w.step) ≡ false
    → w.outside.fails (suc w.step) ≡ false
    → w.outside.fails (suc (suc w.step)) ≡ true
    → w.outside.fails (suc (suc (suc (suc w.step)))) ≡ false
    → take_lock r w ≡ (
      ok tt,
      record {
        outside = w.outside;
        step = suc (suc (suc (suc (suc w.step))));
        db = replace_lock r w.db;
      },
    )
unfolding take_lock try_insert_lock check_lock_collision handle_lock_collision ◌>>=◌ exec query
    query_row statement time_now raise attempt
take_lock_anyway r l w held other a b c d =
    ground (arith, insert_lock_held r l w.db held, text_eq_ne l.job_id r.job_id other)

-- If the lookup of the holder's row is the one statement that fails, Enqueue succeeds although
-- another job holds the lock, whether or not that job exists and the lock is still good.
pub enqueue_ignores_lock :
    (env : JobEnvelope) (w : World Db) (l : LockRow)
    → is_empty env.unique_key ≡ false
    → first (has_lock_key (lock_key_of env.queue env.unique_key)) w.db.unique_locks ≡ some l
    → l.job_id ≢ env.job_id
    → lookup_fails w ≡ true
    → ((n : ℕ) → n ≢ w.step + 4 → w.outside.fails n ≡ false)
    → (enqueue env w).0 ≡ ok tt
unfolding insert_job exec statement
enqueue_ignores_lock env w l keyed held other broken works =
    let wanted = lock_row env (expiry_of env w) in
    let took =
      take_lock_anyway wanted l (third_step w) held other (works (suc (suc w.step)) (omega arith))
        (works (suc (suc (suc w.step))) (omega arith)) (ground (arith, broken))
        (works (suc (suc (suc (suc (suc (suc w.step)))))) (omega arith)) in
    rw (enqueue-keyed env w keyed, took)
      (ground (arith, works (suc (suc (suc (suc (suc (suc (suc w.step)))))))))

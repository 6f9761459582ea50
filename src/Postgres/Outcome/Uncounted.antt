-- ===== src/Postgres/Outcome/Uncounted.antt =====
-- An Ack whose first query fails: queue/postgres_admin.go, Ack.
use orkai_runiq.Common.{
  ℕ, suc, ◌≤◌, ◌<◌, ◌≡◌, ap, refl, Text, text_eq, is_empty, true, false, [], none, arith,
}
use orkai_runiq.Sql.{
  ok, World, exec, query, query_row, attempt, statement, pure, transaction_if, transaction_else,
  update, delete, next, ◌>>=◌,
}
use orkai_runiq.Sqlite.Tables.{processed, Db}
use orkai_runiq.Sqlite.Burial.{select_keys, children_of, no_keys, has_parent}
use orkai_runiq.Postgres.{transaction_from, always}
use orkai_runiq.Postgres.Unique.{delete_unique_lock}
use orkai_runiq.Postgres.Burial.{query_child_job_ids}
use orkai_runiq.Postgres.Outcome.{
  check_blocked_children, resolve_dependencies, finish_ack, perform_ack, ack,
}

-- The Ack without keys of a job on which no other depends.
bare_ack :
    (id : Text) (v : World Db)
    → ((n : ℕ) → v.step ≤ n → v.outside.fails n ≡ false)
    → children_of id v.db ≡ []
    → ((transaction_from always (perform_ack id no_keys) v).0 ≡ ok tt)
      × ((transaction_from always (perform_ack id no_keys) v).1.db ≡ record v.db {
        jobs =
            update
              (λ r. text_eq r.job_id id)
              (λ r. record r {
                status = processed;
                locked_at = none;
                updated_at = v.outside.clock v.step;
              })
              v.db.jobs;
        dependencies = delete (has_parent id) v.db.dependencies;
      })
unfolding perform_ack transaction_from transaction_if transaction_else delete_unique_lock
    resolve_dependencies query_child_job_ids check_blocked_children finish_ack is_empty exec query
    pure statement ◌>>=◌
bare_ack id v works alone =
    rw
      (
        works v.step (omega arith),
        works (suc v.step) (omega arith),
        works (suc (suc v.step)) (omega arith),
        alone,
        works (suc (suc (suc v.step))) (omega arith),
        works (suc (suc (suc (suc v.step)))) (omega arith),
      )
      (refl, refl)

-- The query that fails only takes its step.
without_keys :
    (id : Text) (w : World Db)
    → w.outside.fails w.step ≡ true
    → ack id w ≡ transaction_from always (perform_ack id no_keys) (next w)
unfolding ack select_keys query_row statement attempt ◌>>=◌
without_keys id w broken = rw broken refl

-- If the first query of an Ack fails and every later statement works, the Ack of a job on which no other
-- depends succeeds and the job is processed, but whatever its batch and its unique key are, no batch
-- counts it and no unique lock is freed.
pub ack_uncounted :
    (id : Text) (w : World Db)
    → w.outside.fails w.step ≡ true
    → ((n : ℕ) → w.step < n → w.outside.fails n ≡ false)
    → children_of id w.db ≡ []
    → ((ack id w).0 ≡ ok tt)
      × ((ack id w).1.db.jobs
          ≡ update
              (λ r. text_eq r.job_id id)
              (λ r. record r {
                status = processed;
                locked_at = none;
                updated_at = w.outside.clock (suc w.step);
              })
              w.db.jobs)
      × ((ack id w).1.db.batches ≡ w.db.batches)
      × ((ack id w).1.db.unique_locks ≡ w.db.unique_locks)
ack_uncounted id w broken works alone =
    let (done, after) = bare_ack id (next w) (λ n h. works n (omega (arith, h))) alone in
    rw (without_keys id w broken) (
      done,
      ap (λ (db : Db). db.jobs) after,
      ap (λ (db : Db). db.batches) after,
      ap (λ (db : Db). db.unique_locks) after,
    )

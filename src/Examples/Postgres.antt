-- ===== src/Examples/Postgres.antt =====
-- Runs of the PostgreSQL storage.
use orkai_runiq.Common.{
  pos, ◌==◌, ◌≡◌, refl, Text, codes, text_eq, is_empty, true, false, none, some, [], ◌∷◌, In, arith,
}
use orkai_runiq.Sql.{
  ok, World, exec, query, statement, pure, time_now, transaction_if, transaction_else, ◌>>=◌,
  exists, order_by, insert_before,
}
use orkai_runiq.Sqlite.Tables.{pending, running, processed, Db, empty, has_job_id}
use orkai_runiq.Sqlite.Jobs.{row_tags}
use orkai_runiq.Sqlite.Jobs.Delivery.{AllDistinct}
use orkai_runiq.Helpers.{match_tags}
use orkai_runiq.Postgres.{transaction_from}
use orkai_runiq.Sql.{first}
use orkai_runiq.Postgres.Jobs.{
  is_free, lock_row_of, candidates, dequeue, dequeue_tx, lock_first_match, try_lock_job,
}
use orkai_runiq.Postgres.Jobs.Interleaving.{
  lock, commit, Reach, here, next, start, put, Reach-AllDistinct,
}
use orkai_runiq.Postgres.Jobs.Committed.{free}
use orkai_runiq.Postgres.Outcome.{ack}
use orkai_runiq.Postgres.Outcome.Uncounted.{ack_uncounted}
use orkai_runiq.Postgres.Admin.{archive_jobs, archive_tx, archive_rows}
use orkai_runiq.Postgres.Admin.Lost.{rows_of, archive_jobs_loses}
use orkai_runiq.Common.{ℕ, ◌<◌}
use orkai_runiq.Sql.{update}
use orkai_runiq.Sqlite.Tables.{BatchStatus}
use orkai_runiq.Examples.{sunny, job_row, id_a, id_b, seconds_pass, fresh_id}

abbrev one_job : Db
one_job = record empty { jobs = job_row id_a pending 0 ∷ [] }

pending_a : free id_a one_job ≡ true
unfolding text_eq
pending_a = refl

-- Two workers see the job; one locks it and commits.
handed_out : Reach (start one_job) (record {
  db = (lock_row_of id_a 7 one_job (first (is_free id_a) one_job.jobs)).1;
  holds = put 1 none (put 1 (some id_a) (λ n. none));
  given = id_a ∷ [];
})
handed_out =
    next (next here (lock 1 id_a refl (λ m e. ground (arith, e)) pending_a)) (commit 1 id_a 7 refl)

Reach-AllDistinct_example :
    AllDistinct (id_a ∷ [])
    × ((id : Text)
        → In id (id_a ∷ [])
        → free id (lock_row_of id_a 7 one_job (first (is_free id_a) one_job.jobs)).1 ≡ false)
Reach-AllDistinct_example = Reach-AllDistinct one_job handed_out

-- The same job, dequeued by the executable model.
dequeues :
    (dequeue (codes "mail") [] (sunny one_job)).1.db.jobs
    ≡ (record (job_row id_a running 0) { locked_at = some (seconds_pass 0) }) ∷ []
unfolding dequeue dequeue_tx transaction_from candidates lock_first_match try_lock_job match_tags
    row_tags is_empty text_eq statement query pure ◌>>=◌ transaction_if transaction_else
    insert_before order_by
dequeues = refl

-- Only the first query of an Ack fails.
abbrev broken : Db → World Db
broken db = record {
  outside = record { clock = seconds_pass; fails = λ n. n == 0; job_id = fresh_id };
  step = 0;
  db = db;
}

abbrev member : Db
member = record empty {
  jobs = (record (job_row id_a running 0) { batch_id = id_b; unique_key = codes "k" }) ∷ [];
  batches =
      (record {
        batch_id = id_b;
        callback_queue = codes "mail";
        callback_name = codes "done";
        callback_args = [];
        total_jobs = pos 1;
        pending_jobs = pos 1;
        status = BatchStatus.sealed;
        expires_at = none;
      })
      ∷ [];
  unique_locks = (record { lock_key = codes "mail:k"; job_id = id_a; expires_at = 9 }) ∷ [];
}

later_works : (n : ℕ) → 0 < n → (n == 0) ≡ false
later_works n h = ground arith

ack_uncounted_example :
    ((ack id_a (broken member)).0 ≡ ok tt)
    × ((ack id_a (broken member)).1.db.jobs
        ≡ update
            (λ r. text_eq r.job_id id_a)
            (λ r. record r { status = processed; locked_at = none; updated_at = seconds_pass 1 })
            member.jobs)
    × ((ack id_a (broken member)).1.db.batches ≡ member.batches)
    × ((ack id_a (broken member)).1.db.unique_locks ≡ member.unique_locks)
ack_uncounted_example = ack_uncounted id_a (broken member) refl later_works refl

abbrev archived_before : Db
archived_before = record empty {
  jobs = job_row id_a processed 2 ∷ [];
  archived_jobs = job_row id_a processed 0 ∷ [];
}

archives :
    archive_jobs (pos 0) (sunny archived_before)
    ≡ (ok 1, (archive_jobs (pos 0) (sunny archived_before)).1)
unfolding archive_jobs archive_tx archive_rows transaction_from text_eq statement exec pure time_now
    ◌>>=◌ transaction_if transaction_else
archives = refl

there : exists (has_job_id id_a) archived_before.archived_jobs ≡ true
unfolding text_eq
there = refl

archive_jobs_loses_example :
    (In (job_row id_a processed 2) (archive_jobs (pos 0) (sunny archived_before)).1.db.jobs → ⊥)
    × (rows_of id_a (archive_jobs (pos 0) (sunny archived_before)).1.db.archived_jobs
        ≡ rows_of id_a archived_before.archived_jobs)
archive_jobs_loses_example =
    archive_jobs_loses (pos 0) 1 (sunny archived_before) _ (job_row id_a processed 2) archives refl
      there

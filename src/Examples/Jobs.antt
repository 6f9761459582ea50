-- ===== src/Examples/Jobs.antt =====
-- Runs of Dequeue, and a call that fails half-way.
use orkai_runiq.Common.{
  ◌==◌, ◌≤◌, ◌≡◌, refl, inl, pos, Text, codes, text_eq, is_empty, split, some, List, [], ◌∷◌,
  length, In, arith,
}
use orkai_runiq.Helpers.{match_tags, tags_found, tag_found}
use orkai_runiq.Helpers.Tags.{Covers}
use orkai_runiq.Sql.{
  ok, err, driver_error, World, statement, exec, query, query_row, pure, ◌>>=◌, or_zero,
  transaction, transaction_if, transaction_else, insert_before, order_by, select,
}
use orkai_runiq.Sqlite.Tables.{Status, JobRow, Db, empty}
use orkai_runiq.Sqlite.Jobs.{
  dequeue, dequeue_tx, claim, candidates, find_matching_job, row_tags, scan_job_from, is_ready,
}
use orkai_runiq.Sqlite.Jobs.Dequeue.{
  dequeue_takes_best, select_time, Describes, IsWaiting, IsNotBehind,
}
use orkai_runiq.Sqlite.Tables.{running}
use orkai_runiq.Sqlite.Jobs.Delivery.{deliveries-AllDistinct, deliveries, AllDistinct}
use orkai_runiq.Sqlite.Unique.{delete_unique_lock, lock_key_of}
use orkai_runiq.Sqlite.Burial.{select_keys, query_child_job_ids}
use orkai_runiq.Sqlite.Outcome.{ack, perform_ack, resolve_dependencies}
use orkai_runiq.Sqlite.Calls.{acks, perform}
use orkai_runiq.Sqlite.Transactions.{perform_all_or_nothing}
use orkai_runiq.Examples.{sunny, job_row, id_a, id_b, seconds_pass, fresh_id}

abbrev urgent : JobRow
urgent = record (job_row id_b Status.pending 0) { priority = pos 5; tags = codes "gpu" }

abbrev two_jobs : Db
two_jobs = record empty { jobs = job_row id_a Status.pending 0 ∷ urgent ∷ [] }

abbrev gpu_worker : List Text
gpu_worker = codes "gpu" ∷ []

dequeue-urgent :
    dequeue (codes "mail") gpu_worker (sunny two_jobs)
    ≡ (ok (some (scan_job_from urgent)), (dequeue (codes "mail") gpu_worker (sunny two_jobs)).1)
unfolding dequeue dequeue_tx claim candidates find_matching_job row_tags match_tags tags_found
    tag_found text_eq is_empty split statement exec query pure ◌>>=◌ transaction_if transaction_else
    insert_before order_by
dequeue-urgent = refl

few_ready :
    length (select (is_ready (codes "mail") (select_time (sunny two_jobs))) two_jobs.jobs) ≤ 100
unfolding text_eq
few_ready = omega arith

a_waits : IsWaiting (codes "mail") (select_time (sunny two_jobs)) (job_row id_a Status.pending 0)
a_waits = record { in_queue = refl; waits = refl; has_started = tt }

a_covered : Covers (row_tags (job_row id_a Status.pending 0)) gpu_worker
unfolding row_tags is_empty
a_covered t i = absurd i

dequeue_takes_best_example :
    (row : JobRow) × In row two_jobs.jobs
    × Describes (scan_job_from urgent) row
    × IsNotBehind row (job_row id_a Status.pending 0)
dequeue_takes_best_example =
    dequeue_takes_best (codes "mail") gpu_worker (sunny two_jobs) (scan_job_from urgent)
      (dequeue (codes "mail") gpu_worker (sunny two_jobs)).1 (job_row id_a Status.pending 0)
      dequeue-urgent few_ready (inl refl) a_waits a_covered

abbrev three_requests : List (Text × List Text)
three_requests = (codes "mail", gpu_worker) ∷ (codes "mail", gpu_worker) ∷ (codes "mail", []) ∷ []

deliveries-AllDistinct_example : AllDistinct (deliveries (sunny two_jobs) three_requests)
deliveries-AllDistinct_example = deliveries-AllDistinct (sunny two_jobs) three_requests

deliveries_test : deliveries (sunny two_jobs) three_requests ≡ id_b ∷ id_a ∷ []
unfolding deliveries dequeue dequeue_tx claim candidates find_matching_job row_tags match_tags
    tags_found tag_found text_eq is_empty split statement exec query pure ◌>>=◌ transaction_if
    transaction_else insert_before order_by
deliveries_test = refl

-- The third statement fails: the lock is gone by then, had the transaction not been rolled back.
abbrev broken : World Db
broken = record {
  outside = record { clock = seconds_pass; fails = λ n. n == 3; job_id = fresh_id };
  step = 0;
  db = record empty {
    jobs = record (job_row id_a Status.running 0) { unique_key = codes "k" } ∷ [];
    unique_locks = (record { lock_key = codes "mail:k"; job_id = id_a; expires_at = 0 }) ∷ [];
  };
}

ack_fails : (perform 0 (acks id_a) broken).0 ≡ err driver_error
unfolding perform ack select_keys perform_ack delete_unique_lock resolve_dependencies
    query_child_job_ids text_eq is_empty lock_key_of statement exec query query_row pure ◌>>=◌
    or_zero transaction transaction_if transaction_else
ack_fails = refl

perform_all_or_nothing_example : (perform 0 (acks id_a) broken).1.db ≡ broken.db
perform_all_or_nothing_example =
    perform_all_or_nothing 0 (acks id_a) broken driver_error refl ack_fails

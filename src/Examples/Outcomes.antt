-- ===== src/Examples/Outcomes.antt =====
-- Runs of Fail, Cancel and of the batch bookkeeping.
use orkai_runiq.Common.{
  ℕ, ℤ, pos, ◌<◌, ◌≡◌, ◌≢◌, refl, sym, inl, inr, Text, codes, text_eq, text_eq_sound, ◌-◌, is_empty,
  Bool, true, some, none, [], ◌∷◌, In, arith,
}
use orkai_runiq.Helpers.{get_max_attempts}
use orkai_runiq.Sql.{
  ok, err, out_of_fuel, World, next, statement, exec, query, query_row, pure, time_now, ◌>>=◌,
  or_zero, transaction, transaction_if, transaction_else,
}
use orkai_runiq.Sqlite.Tables.{Status, BatchStatus, BatchRow, DependencyRow, Db, empty}
use orkai_runiq.Sqlite.Unique.{delete_unique_lock}
use orkai_runiq.Sqlite.Burial.{
  transition_to_dead, bury, fail_children, fail_batch, cascade_dependency_failure,
  query_child_job_ids, select_keys, find_job,
}
use orkai_runiq.Sqlite.Progress.{handle_batch_ack}
use orkai_runiq.Sqlite.Outcome.{fail, cancel, perform_fail, schedule_retry, next_run_after}
use orkai_runiq.Sqlite.Burial.Dead.{IsDead}
use orkai_runiq.Sqlite.Burial.Cascade.{Downstream, child, further}
use orkai_runiq.Sqlite.Outcome.{
  ack, perform_ack, ack_batch, resolve_dependencies, check_blocked_children,
}
use orkai_runiq.Sqlite.Outcome.Settled.{IsSettled}
use orkai_runiq.Sqlite.Outcome.Release.{ack-IsSettled}
use orkai_runiq.Sqlite.Outcome.Failing.{fail_retries, fail_buries, rescheduled}
use orkai_runiq.Sqlite.Outcome.Termination.{fail-cancel_end}
use orkai_runiq.Sqlite.Outcome.Cycles.{cancel-IsCyclic}
use orkai_runiq.Sqlite.Progress.Completion.{
  batch_of, callback_of, IsLast, handle_batch_ack_completes,
}
use orkai_runiq.Common.{◌⊎◌, ◌-ℤ◌}
use orkai_runiq.Examples.{sunny, job_row, depends, id_a, id_b, id_c, seconds_pass, fresh_id}

-- c depends on b, and b on a, which has `attempts` attempts behind it.
abbrev chain : ℕ → Db
chain attempts = record empty {
  jobs =
      job_row id_a Status.running attempts
      ∷ job_row id_b Status.blocked 0
      ∷ job_row id_c Status.blocked 0
      ∷ [];
  dependencies = depends id_b id_a ∷ depends id_c id_b ∷ [];
}

found_a :
    (attempts : ℕ) → find_job id_a (chain attempts) ≡ some (job_row id_a Status.running attempts)
unfolding text_eq
found_a attempts = refl

abbrev retried : World Db
retried = (fail 4 id_a (codes "broken") (sunny (chain 0))).1

fails_first : fail 4 id_a (codes "broken") (sunny (chain 0)) ≡ (ok tt, retried)
unfolding fail perform_fail schedule_retry next_run_after get_max_attempts text_eq is_empty
    statement exec query_row pure time_now ◌>>=◌ transaction transaction_if transaction_else
fails_first = refl

left_one : get_max_attempts (pos 3) ≡ pos 3
unfolding get_max_attempts
left_one = refl

fail_retries_example :
    retried.db ≡ rescheduled id_a (codes "broken") 0 (next (next (sunny (chain 0))))
unfolding get_max_attempts
fail_retries_example =
    fail_retries 4 id_a (codes "broken") (sunny (chain 0)) retried (job_row id_a Status.running 0)
      fails_first (found_a 0) refl

abbrev buried : World Db
buried = (fail 4 id_a (codes "broken") (sunny (chain 2))).1

fails_last : fail 4 id_a (codes "broken") (sunny (chain 2)) ≡ (ok tt, buried)
unfolding fail perform_fail transition_to_dead bury fail_children fail_batch
    cascade_dependency_failure query_child_job_ids select_keys delete_unique_lock get_max_attempts
    text_eq is_empty statement exec query query_row pure time_now ◌>>=◌ or_zero transaction
    transaction_if transaction_else
fails_last = refl

c_below_a : Downstream (chain 2).dependencies id_a id_c
c_below_a =
    further (depends id_b id_a) (inl refl) refl
      (child (depends id_c id_b) (inr (inl refl)) refl refl)

fail_buries_example : IsDead id_a buried.db × IsDead id_c buried.db
unfolding get_max_attempts
fail_buries_example =
    fail_buries 4 id_a (codes "broken") (sunny (chain 2)) buried (job_row id_a Status.running 2)
      id_c fails_last (found_a 2) refl c_below_a

-- The rank of an identifier of one letter: c is below b, and b below a.
abbrev letter_rank : Text → ℕ
letter_rank [] = 0
letter_rank (x ∷ xs) = 100 - x

letters_fall :
    (d : DependencyRow)
    → In d (chain 2).dependencies
    → letter_rank d.job_id < letter_rank d.parent_job_id
letters_fall d (inl e) = rw e (omega arith)
letters_fall d (inr (inl e)) = rw e (omega arith)
letters_fall d (inr (inr x)) = elim x [ ]

fail-cancel_end_example :
    ((fail 4 id_a (codes "broken") (sunny (chain 2))).0 ≢ err out_of_fuel)
    × ((cancel 4 id_a (sunny (chain 2))).0 ≢ err out_of_fuel)
fail-cancel_end_example =
    fail-cancel_end letter_rank 4 id_a (codes "broken") (sunny (chain 2))
      (record { falls = letters_fall }) (omega arith)

-- a depends on itself.
abbrev loop : Db
loop = record empty {
  jobs = job_row id_a Status.blocked 0 ∷ [];
  dependencies = depends id_a id_a ∷ [];
}

abbrev only_a : Text → Bool
only_a x = text_eq x id_a

only_a_parent : (x : Text) → only_a x ≡ true → id_a ≡ x
only_a_parent x h = sym (text_eq_sound x id_a h)

only_a_itself : only_a id_a ≡ true
unfolding text_eq
only_a_itself = refl

cancel-IsCyclic_example : (cancel 1000 id_a (sunny loop)).0 ≢ ok tt
cancel-IsCyclic_example =
    cancel-IsCyclic only_a (λ _. depends id_a id_a) 1000 id_a (sunny loop)
      (record { kept = λ x h. inl refl; parent = only_a_parent; child = λ x h. only_a_itself })
      only_a_itself

abbrev batch : BatchStatus → ℤ → BatchRow
batch status pending_jobs = record {
  batch_id = codes "batch";
  callback_queue = codes "mail";
  callback_name = codes "done";
  callback_args = [];
  total_jobs = pos 2;
  pending_jobs = pending_jobs;
  status = status;
  expires_at = none;
}

abbrev with_batch : BatchStatus → ℤ → World Db
with_batch status pending_jobs = sunny (record empty { batches = batch status pending_jobs ∷ [] })

found_batch :
    (status : BatchStatus) (pending_jobs : ℤ)
    → batch_of (codes "batch") (with_batch status pending_jobs).db
      ≡ some (batch status pending_jobs)
unfolding text_eq
found_batch status pending_jobs = refl

handle_batch_ack_completes_example :
    ((handle_batch_ack (codes "batch") (with_batch BatchStatus.sealed (pos 1))).0 ≡ ok tt)
    × ((IsLast (batch BatchStatus.sealed (pos 1))
          × (batch_of
                (codes "batch")
                (handle_batch_ack (codes "batch") (with_batch BatchStatus.sealed (pos 1))).1.db
              ≡ some (batch BatchStatus.completed (pos 0)))
          × ((handle_batch_ack (codes "batch") (with_batch BatchStatus.sealed (pos 1))).1.db.jobs
              ≡ callback_of (batch BatchStatus.sealed (pos 1)) (fresh_id 2) (seconds_pass 3) ∷ []))
        ⊎ (¬ IsLast (batch BatchStatus.sealed (pos 1))
            × (batch_of
                  (codes "batch")
                  (handle_batch_ack (codes "batch") (with_batch BatchStatus.sealed (pos 1))).1.db
                ≡ some (batch BatchStatus.sealed (pos 0)))
            × ((handle_batch_ack (codes "batch") (with_batch BatchStatus.sealed (pos 1))).1.db.jobs
                ≡ [])))
unfolding ◌-ℤ◌
handle_batch_ack_completes_example =
    handle_batch_ack_completes (codes "batch") (with_batch BatchStatus.sealed (pos 1))
      (batch BatchStatus.sealed (pos 1)) (λ n. refl) (found_batch BatchStatus.sealed (pos 1)) refl
      refl

abbrev acked : World Db
acked = (ack id_a (sunny (chain 0))).1

acks_a : ack id_a (sunny (chain 0)) ≡ (ok tt, acked)
unfolding ack select_keys perform_ack ack_batch resolve_dependencies query_child_job_ids
    check_blocked_children delete_unique_lock text_eq is_empty statement exec query query_row pure
    ◌>>=◌ or_zero transaction transaction_if transaction_else
acks_a = refl

ack-IsSettled_example : IsSettled id_b acked.db
ack-IsSettled_example =
    ack-IsSettled id_a (depends id_b id_a) (sunny (chain 0)) acked acks_a (inl refl) refl

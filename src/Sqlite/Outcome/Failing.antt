-- ===== src/Sqlite/Outcome/Failing.antt =====
-- What Fail does with a job: another attempt, or its burial.
use orkai_runiq.Common.{
  ℕ, suc, ◌+◌, ◌%◌, text_eq, none, ◌≡◌, sym, ◌∙◌, ap, subst, pos, ltb_ℤ, Text, Bool, true, false,
  some, arith, shift,
}
use orkai_runiq.Helpers.{second, compute_backoff_delay, get_max_attempts}
use orkai_runiq.Sql.{
  ok, World, exec, query_row, time_now, pure, transaction, ◌>>=◌, bind-ok, query_row-ok,
  query_row-next, transaction-ok, next, update,
}
use orkai_runiq.Sqlite.Tables.{JobRow, Db, pending, current_timestamp}
use orkai_runiq.Sqlite.Burial.{keys_of, find_job}
use orkai_runiq.Sqlite.Outcome.{next_run_after, schedule_retry, perform_fail, fail}
use orkai_runiq.Sqlite.Burial.Dead.{IsDead}
use orkai_runiq.Sqlite.Burial.Cascade.{Downstream, Fallen, transition_to_dead-Fallen}

-- There is an attempt left after this one.
abbrev pub may_retry : JobRow → Bool
may_retry r = ltb_ℤ (pos (r.attempts + 1)) (get_max_attempts r.max_attempts)

fail-ok :
    (fuel : ℕ) (id message : Text) (w w' : World Db)
    → fail fuel id message w ≡ (ok tt, w')
    → (r : JobRow) × (find_job id w.db ≡ some r)
      × ((w1 : World Db) × (w2 : World Db) × (w1 ≡ next (next w))
          × (w'.db ≡ w2.db)
          × (perform_fail fuel id message r.attempts
                (get_max_attempts r.max_attempts)
                (keys_of r)
                w1
              ≡ (ok tt, w2)))
unfolding fail
fail-ok fuel id message w w' h =
    let (r, w1, read, rest) =
      bind-ok (query_row (find_job id))
        (λ (r : JobRow).
          transaction
            (perform_fail fuel id message r.attempts (get_max_attempts r.max_attempts) (keys_of r)))
        w h in
    let (was, same) = query_row-ok (find_job id) w read in
    let (w2, body, after) =
      transaction-ok
        (perform_fail fuel id message r.attempts (get_max_attempts r.max_attempts) (keys_of r)) w1
        rest in
    (r, was, (next w1, w2, ap next (query_row-next (find_job id) w read), after, body))

-- The database in which the job waits for another attempt: the rows of the identifier are pending and
-- not locked, one more attempt is counted, the start is the backoff delay after the time of the first
-- step, and the message is that of the failure. The clock is read for the start, for the jitter and for
-- the UPDATE.
abbrev pub rescheduled : Text → Text → ℕ → World Db → Db
rescheduled id message attempts w =
    let delay = compute_backoff_delay attempts (w.outside.clock (suc w.step) % second) in
    record w.db {
      jobs =
          update (λ r. text_eq r.job_id id)
            (λ r. record r {
              status = pending;
              attempts = r.attempts + 1;
              run_at = some (shift (w.outside.clock w.step) delay);
              error_message = message;
              locked_at = none;
              updated_at = current_timestamp (w.outside.clock (suc (suc w.step)));
            })
            w.db.jobs;
    }

schedule_retry-ok :
    (id message : Text) (attempts : ℕ) (w w' : World Db)
    → schedule_retry id message attempts w ≡ (ok tt, w')
    → w'.db ≡ rescheduled id message attempts w
unfolding schedule_retry next_run_after ◌>>=◌ time_now pure exec
schedule_retry-ok id message attempts w w' h = ground arith

-- With an attempt left, a successful Fail puts the job back to pending, not locked, with one more
-- attempt counted, the message and a start that is the backoff delay after the time it has read, and
-- changes nothing else.
pub fail_retries :
    (fuel : ℕ) (id message : Text) (w w' : World Db) (r : JobRow)
    → fail fuel id message w ≡ (ok tt, w')
    → find_job id w.db ≡ some r
    → may_retry r ≡ true
    → w'.db ≡ rescheduled id message r.attempts (next (next w))
unfolding perform_fail
fail_retries fuel id message w w' r h was again =
    let (r', was', (w1, w2, same, after, body)) = fail-ok fuel id message w w' h in
    let e : r' ≡ r = ground (arith, was, was') in
    let body' =
      subst
        (λ (x : JobRow).
          perform_fail fuel id message x.attempts (get_max_attempts x.max_attempts) (keys_of x) w1
          ≡ (ok tt, w2))
        e body in
    after
    ∙ subst (λ (v : World Db). w2.db ≡ rescheduled id message r.attempts v) same
        (schedule_retry-ok id message r.attempts w1 w2 (rw again at body'))

-- The job falls with all that depends on it.
pub fail-Fallen :
    (fuel : ℕ) (id message : Text) (w w' : World Db) (r : JobRow)
    → fail fuel id message w ≡ (ok tt, w')
    → find_job id w.db ≡ some r
    → may_retry r ≡ false
    → Fallen w.db.dependencies id w'.db
unfolding perform_fail
fail-Fallen fuel id message w w' r h was last =
    let (r', was', (w1, w2, same, after, body)) = fail-ok fuel id message w w' h in
    let e : r' ≡ r = ground (arith, was, was') in
    let body' =
      subst
        (λ (y : JobRow).
          perform_fail fuel id message y.attempts (get_max_attempts y.max_attempts) (keys_of y) w1
          ≡ (ok tt, w2))
        e body in
    let f = transition_to_dead-Fallen fuel id message (keys_of r) w1 w2 (rw last at body') in
    let g = subst (λ (v : World Db). Fallen v.db.dependencies id w2.db) same f in
    subst (Fallen w.db.dependencies id) (sym after) g

-- After the last attempt a successful Fail leaves the job dead, and with it every job that depends on
-- it, at any distance.
pub fail_buries :
    (fuel : ℕ) (id message : Text) (w w' : World Db) (r : JobRow) (x : Text)
    → fail fuel id message w ≡ (ok tt, w')
    → find_job id w.db ≡ some r
    → may_retry r ≡ false
    → Downstream w.db.dependencies id x
    → IsDead id w'.db × IsDead x w'.db
fail_buries fuel id message w w' r x h was last down =
    let f = fail-Fallen fuel id message w w' r h was last in (f.itself, f.below x down)

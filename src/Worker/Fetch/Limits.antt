-- ===== src/Worker/Fetch/Limits.antt =====
-- The limits of a handler over the SQLite storage: queue/worker.go, checkLimitsAndPostpone.
use orkai_runiq.Common.{
  ℕ, suc, ◌+◌, pos, ◌≡◌, ◌∙◌, refl, sym, ap, subst, Text, text_eq, Bool, true, false, some, ltb_ℤ,
  leb_ℤ, ℤ, List, arith, ◌&&◌, if◌then◌else◌, negsuc, none,
}
use orkai_runiq.Queue.{JobEnvelope}
use orkai_runiq.Helpers.{second}
use orkai_runiq.Sql.{
  Result, ok, err, World, Exec, exec, statement, query, pure, attempt, time_now, next, ◌>>=◌,
  bind-ok, count, Keeps, Keeps-exec, Keeps-bind, Keeps-if, Keeps-pure, Keeps-attempt,
  Keeps-transaction_if, Keeps-time_now, Keeps-query,
}
use orkai_runiq.Sqlite.Tables.{Db, JobRow, pending, is_running}
use orkai_runiq.Sqlite.Burial.{update_job}
use orkai_runiq.Sqlite.Process.{
  get_running_jobs_count, check_rate_limit, evaluate_rate_limit, postpone_job,
}
use orkai_runiq.Worker.{WorkerPool, PoolState, HandlerConfig, call, inside, find_key}
use orkai_runiq.Worker.OnSqlite.{sqlite_pool_storage}
use orkai_runiq.Worker.Fetch.{
  over_concurrency, over_rate, postpone, check_limits, check_with, check_limits_and_postpone,
}

-- The jobs of a name that are running.
abbrev pub running_jobs : Text → Db → ℕ
running_jobs name db = count (λ r. text_eq r.name name && is_running r.status) db.jobs

call-Keeps :
    {S A : Type 0} (P : S → Type 0) (m : Exec S A)
    → Keeps P m
    → Keeps (λ (s : PoolState S). P s.stored) (call m)
unfolding call
call-Keeps P m k = record { at = λ w h. k.at (inside w) h }

check_rate_limit-Keeps :
    (js : List JobRow) (name : Text) (limit period : ℤ)
    → Keeps (λ (db : Db). db.jobs ≡ js) (check_rate_limit name limit period)
unfolding check_rate_limit evaluate_rate_limit
check_rate_limit-Keeps js name limit period = Keeps-transaction_if _ _ (
    Keeps-bind _ _ Keeps-time_now λ now. Keeps-bind _ _ (Keeps-exec _ (λ t db h. h)) λ u.
      Keeps-bind _ _ (Keeps-query _) λ n.
        Keeps-if _ _ _ (Keeps-pure _)
          (Keeps-bind _ _ (Keeps-exec _ (λ t db h. h)) λ v. Keeps-pure _))

few_of : (n : ℕ) (max : ℤ) → ltb_ℤ max (pos n) ≡ false → leb_ℤ (pos n) max ≡ true
few_of n (pos m) h = ground arith
few_of n (negsuc m) h = ground arith

abbrev value_of : Result Bool × World (PoolState Db) → Bool
value_of (ok b, w) = b
value_of (err e, w) = false

module _ (pool : WorkerPool Db) (fuel : ℕ) (cfg : HandlerConfig) (env : JobEnvelope) where
  over_concurrency-eq :
      (w : World (PoolState Db))
      → pool.storage ≡ sqlite_pool_storage fuel
      → ltb_ℤ (pos 0) cfg.max_concurrency ≡ true
      → w.outside.fails w.step ≡ false
      → over_concurrency pool cfg env w
        ≡ (ok (ltb_ℤ cfg.max_concurrency (pos (running_jobs env.name w.db.stored))), next w)
  unfolding over_concurrency call attempt ◌>>=◌ pure get_running_jobs_count query statement
  over_concurrency-eq w sqlite limited works = rw (limited, sqlite, works) refl

  postpone_refuses : (w : World (PoolState Db)) → (postpone pool env w).0 ≡ ok false
  unfolding postpone call attempt ◌>>=◌ pure
  postpone_refuses w = refl

  over_rate-Keeps :
      (js : List JobRow)
      → pool.storage ≡ sqlite_pool_storage fuel
      → Keeps (λ (s : PoolState Db). s.stored.jobs ≡ js) (over_rate pool cfg env)
  unfolding over_rate
  over_rate-Keeps js sqlite = rw sqlite (
      Keeps-if _ _ _
        (Keeps-bind _ _
          (Keeps-attempt _
            (call-Keeps (λ db. db.jobs ≡ js) _ (check_rate_limit-Keeps js env.name _ _)))
          λ r. Keeps-pure _)
        (Keeps-pure false))

  not_allowed : (w w' : World (PoolState Db)) → postpone pool env w ≡ (ok true, w') → ⊥
  not_allowed w w' h = absurd (
      ground
        (arith, ap (λ (out : Result Bool × World (PoolState Db)). out.0) h, postpone_refuses w))

  -- What is left of checkLimitsAndPostpone after the first limit.
  abbrev then_rate : Bool → Exec (PoolState Db) Bool
  then_rate busy =
      if busy
      then postpone pool env
      else do limited ← over_rate pool cfg env; if limited then postpone pool env else pure true

  passed :
      (limited : Bool) (w w' : World (PoolState Db))
      → (if limited then postpone pool env else pure true) w ≡ (ok true, w')
      → w ≡ w'
  unfolding pure
  passed true w w' h = absurd (not_allowed w w' h)
  passed false w w' h = ap (λ (out : Result Bool × World (PoolState Db)). out.1) h

  allowed-jobs :
      (busy : Bool) (w w' : World (PoolState Db))
      → pool.storage ≡ sqlite_pool_storage fuel
      → then_rate busy w ≡ (ok true, w')
      → (busy ≡ false) × (w'.db.stored.jobs ≡ w.db.stored.jobs)
  allowed-jobs true w w' sqlite h = absurd (not_allowed w w' h)
  allowed-jobs false w w' sqlite h =
      let (limited, v, first, rest) = bind-ok (over_rate pool cfg env) _ w h in
      let kept = (over_rate-Keeps w.db.stored.jobs sqlite).at w refl in
      let kept' : v.db.stored.jobs ≡ w.db.stored.jobs =
        subst
          (λ (out : Result Bool × World (PoolState Db)). out.1.db.stored.jobs ≡ w.db.stored.jobs)
          first kept in
      (
        refl,
        ap (λ (x : World (PoolState Db)). x.db.stored.jobs) (sym (passed limited v w' rest))
            ∙ kept',
      )

  -- Over the SQLite storage, a job that checkLimitsAndPostpone lets run, its handler having a limit on
  -- the concurrency and the query of the running jobs having worked, is one of at most so many running
  -- jobs of its name, and the call has changed no job.
  pub check_limits_and_postpone_allows :
      (w w' : World (PoolState Db))
      → pool.storage ≡ sqlite_pool_storage fuel
      → find_key env.name pool.configs ≡ some cfg
      → ltb_ℤ (pos 0) cfg.max_concurrency ≡ true
      → w.outside.fails w.step ≡ false
      → check_limits_and_postpone pool env w ≡ (ok true, w')
      → (leb_ℤ (pos (running_jobs env.name w'.db.stored)) cfg.max_concurrency ≡ true)
        × (w'.db.stored.jobs ≡ w.db.stored.jobs)
  unfolding check_limits_and_postpone check_with check_limits
  check_limits_and_postpone_allows w w' sqlite known limited works h =
      let (busy, v, first, rest) =
        bind-ok (over_concurrency pool cfg env) then_rate w (rw known at h) in
      let ran = over_concurrency-eq w sqlite limited works in
      let busy_is = ap value_of (sym first ∙ ran) in
      let then_v = ap (λ (out : Result Bool × World (PoolState Db)). out.1) (sym first ∙ ran) in
      let (free, jobs) = allowed-jobs busy v w' sqlite rest in
      let same : w'.db.stored.jobs ≡ w.db.stored.jobs =
        jobs ∙ ap (λ (x : World (PoolState Db)). x.db.stored.jobs) then_v in
      (
        subst
            (λ js.
              leb_ℤ (pos (count (λ r. text_eq r.name env.name && is_running r.status) js))
                cfg.max_concurrency
              ≡ true)
            (sym same) (few_of _ cfg.max_concurrency (sym busy_is ∙ free)),
        same,
      )

  -- Over the SQLite storage that works, a job of which more run than its handler allows is not let run
  -- but put back to pending, to start a second later; nothing else changes.
  pub check_limits_and_postpone_defers :
      (w : World (PoolState Db))
      → pool.storage ≡ sqlite_pool_storage fuel
      → find_key env.name pool.configs ≡ some cfg
      → ltb_ℤ (pos 0) cfg.max_concurrency ≡ true
      → ((n : ℕ) → w.outside.fails n ≡ false)
      → ltb_ℤ cfg.max_concurrency (pos (running_jobs env.name w.db.stored)) ≡ true
      → ((check_limits_and_postpone pool env w).0 ≡ ok false)
        × ((check_limits_and_postpone pool env w).1.db ≡ record w.db {
          stored =
              update_job env.job_id
                (λ r. record r {
                  status = pending;
                  run_at = some (w.outside.clock (suc w.step) + second);
                  locked_at = none;
                })
                w.db.stored;
        })
  unfolding check_limits_and_postpone check_with check_limits over_concurrency postpone call attempt
      ◌>>=◌ pure get_running_jobs_count postpone_job query exec time_now statement
  check_limits_and_postpone_defers w sqlite known limited works many =
      rw (known, limited, sqlite, works w.step, many, works (suc (suc w.step))) (refl, refl)

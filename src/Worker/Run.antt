-- ===== src/Worker/Run.antt =====
-- queue/worker.go: the execution of a job that has been fetched.
use orkai_runiq.Common.{
  pos, ◌+ℤ◌, ltb_ℤ, Text, codes, quoted, is_empty, Option, none, some, List, [], ◌∷◌, ◌++◌,
  if◌then◌else◌,
}
use orkai_runiq.Queue.{JobEnvelope}
use orkai_runiq.Helpers.{get_max_attempts}
use orkai_runiq.Sql.{World, ok, Exec, pure, attempt, time_now, ◌>>=◌, ◌>>◌}
use orkai_runiq.Crypto.{Outcome, done, refused, is_encrypted, decrypt_payload}
use orkai_runiq.Worker.{
  WorkerPool, PoolState, Performed, returned, returned_error, panicked, JobHandler, Job, EventType,
  job_completed, job_failed, job_dead, call, inside, around, find_key, trigger_event,
}

-- The first middleware is the outermost.
unfoldable pub wrap :
    {S : Type 0} → List (JobHandler S → JobHandler S) → JobHandler S → JobHandler S
wrap [] handler = handler
wrap (mw ∷ mws) handler = mw (wrap mws handler)

abbrev pub error_of : Performed → Option Text
error_of returned = none
error_of (returned_error e) = some e
error_of (panicked r) = some (codes "panic: " ++ r)

abbrev pub not_registered : Text → Text
not_registered name = codes "job type not registered: name=" ++ quoted name

abbrev pub no_key : Text
no_key = codes "payload is encrypted but worker has no key configured"

abbrev pub not_decrypted : Text → Text
not_decrypted e = codes "failed to decrypt payload: " ++ e

-- Whether the pool reports a failure as one that will be retried.
abbrev pub failure_event : JobEnvelope → EventType
failure_event env =
    if ltb_ℤ (env.attempts +ℤ pos 1) (get_max_attempts env.max_attempts)
    then job_failed
    else job_dead

-- User code runs on the storage.
abbrev pub performing :
    {S : Type 0} → (World S → Performed × World S) → Exec (PoolState S) Performed
performing run w = let (r, v) = run (inside w) in (ok r, around w v)

module _ {S : Type 0} (pool : WorkerPool S) where
  -- The error of Fail is dropped.
  unfoldable pub fail_quietly : JobEnvelope → Text → Exec (PoolState S) Unit
  unfolding call
  fail_quietly env message = do _ ← attempt (call (pool.storage.fail env.job_id message)); pure tt

  unfoldable pub finalize_job_failure : JobEnvelope → Text → Exec (PoolState S) Unit
  unfolding fail_quietly trigger_event
  finalize_job_failure env message = do
    fail_quietly env message
    trigger_event pool (failure_event env) env (some message)

  -- The error of Ack is dropped.
  unfoldable pub finalize_success : JobEnvelope → Exec (PoolState S) Unit
  unfolding call trigger_event
  finalize_success env = do
    _ ← attempt (call (pool.storage.ack env.job_id))
    trigger_event pool job_completed env none

  abbrev pub finalize_with : JobEnvelope → Option Text → Exec (PoolState S) Unit
  finalize_with env none = finalize_success env
  finalize_with env (some message) = finalize_job_failure env message

  -- time.Since(start)
  unfoldable pub finalize_job : JobEnvelope → Option Text → Exec (PoolState S) Unit
  unfolding finalize_success finalize_job_failure
  finalize_job env error = do _ ← time_now; finalize_with env error

  -- A panic of the job or of a middleware is recovered from. The clock is read for the latency.
  unfoldable pub run_job_perform : JobEnvelope → Job S → Exec (PoolState S) Unit
  unfolding finalize_job wrap
  run_job_perform env job = do
    _ ← time_now
    result ← performing (wrap pool.middlewares (λ je. job je.args) env)
    finalize_job env (error_of result)

  unfoldable pub run_decrypted : JobEnvelope → Job S → Outcome Text → Exec (PoolState S) Unit
  unfolding run_job_perform fail_quietly
  run_decrypted env job (done args) = run_job_perform (record env { args = args }) job
  run_decrypted env job (refused e) = fail_quietly env (not_decrypted pool.crypto_error)

  unfoldable pub run_registered : JobEnvelope → Option (Job S) → Exec (PoolState S) Unit
  unfolding run_decrypted
  run_registered env none = fail_quietly env (not_registered env.name)
  run_registered env (some job) =
      if is_encrypted env.args
      then (if is_empty pool.encryption_key
          then fail_quietly env no_key
          else run_decrypted env job (decrypt_payload pool.library env.args pool.encryption_key))
      else run_job_perform env job

  unfoldable pub execute_job : JobEnvelope → Exec (PoolState S) Unit
  unfolding run_registered find_key
  execute_job env = run_registered env (find_key env.name pool.registry)

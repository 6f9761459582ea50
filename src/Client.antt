-- ===== src/Client.antt =====
-- queue/client.go and queue/batch.go: the client over a storage. The storage is an interface; the
-- tracer and the encryption library are parameters.
pub mod Breaker
pub mod Unique
use orkai_runiq.Common.{
  ℕ, suc, ℤ, pos, Text, is_empty, Bool, true, false, ◌&&◌, ◌||◌, not, Option, none, some, List, [],
  ◌∷◌, ◌++◌, if◌then◌else◌, non_positive, shift, sub_ℕ,
}
use orkai_runiq.Queue.{TraceContext, JobEnvelope}
use orkai_runiq.Sql.{
  Error, Result, ok, err, circuit_breaker_open, not_encrypted, invalid_callback, World, Exec, pure,
  raise, ◌>>=◌, ◌>>◌, attempt, time_now, generate_job_id, with_db,
}
use orkai_runiq.CircuitBreaker.{CircuitBreaker, before_call, after_call}
use orkai_runiq.Crypto.{Outcome, done, refused, Library, encrypt_payload}

-- ClientStorage: what a client calls.
pub record ClientStorage (S : Type 0) : Type 0 where
  pub enqueue : JobEnvelope → Exec S Unit
  pub enqueue_workflow : List JobEnvelope → Exec S Unit
  pub create_batch : Text → JobEnvelope → Option ℕ → Exec S Unit
  pub enqueue_in_batch : Text → JobEnvelope → Exec S Unit
  pub submit_batch : Text → Exec S Unit

-- The state of a client is that of its storage and that of its circuit breaker.
pub record State (S : Type 0) : Type 0 where
  pub stored : S
  pub cb : Option CircuitBreaker

abbrev pub failed : Result (Unit {0}) → Bool
failed (ok a) = false
failed (err e) = true

abbrev pub change_cb :
    (CircuitBreaker → CircuitBreaker) → Option CircuitBreaker → Option CircuitBreaker
change_cb f none = none
change_cb f (some cb) = some (f cb)

abbrev pub hand_back : {S : Type 0} → Result (Unit {0}) → Exec S Unit
hand_back r w = (r, w)

module _ {S : Type 0} where
  -- A call of the storage.
  unfoldable pub lift : Exec S Unit → Exec (State S) Unit
  lift m w =
      let (r, v) = m (record { outside = w.outside; step = w.step; db = w.db.stored }) in
      (r, record { outside = v.outside; step = v.step; db = record w.db { stored = v.db } })

  abbrev pub set_cb : CircuitBreaker → Exec (State S) Unit
  set_cb cb w = (ok tt, with_db w (record w.db { cb = some cb }))

  abbrev pub update_cb : (CircuitBreaker → CircuitBreaker) → Exec (State S) Unit
  update_cb f w = (ok tt, with_db w (record w.db { cb = change_cb f w.db.cb }))

  unfoldable pub measured : Exec S Unit → Exec (State S) Unit
  unfolding lift
  measured fn = do
    start ← time_now
    r ← attempt (lift fn)
    end ← time_now
    now ← time_now
    update_cb (after_call (failed r) (sub_ℕ end start) now)
    hand_back r

  unfoldable pub through : Option CircuitBreaker → Exec S Unit → Exec (State S) Unit
  unfolding lift measured
  through none fn = lift fn
  through (some cb) fn = do
    since ← time_now
    now ← time_now
    let (allowed, cb') = before_call since now cb in
        do set_cb cb'; if allowed then measured fn else raise circuit_breaker_open

  unfoldable pub execute : Exec S Unit → Exec (State S) Unit
  unfolding through
  execute fn w = through w.db.cb fn w

-- What a client is built with. `extract_trace` is what the tracer finds in the context.
pub record Client (S : Type 0) : Type 0 where
  pub storage : ClientStorage S
  pub extract_trace : TraceContext
  pub encryption_key : Text
  pub library : Library

abbrev pub encrypted : JobEnvelope → Outcome Text → Result JobEnvelope
encrypted env (done args) = ok (record env { args = args })
encrypted env (refused e) = err not_encrypted

abbrev pub new_job : Text → Text → Text → List ℕ → JobEnvelope
new_job id queue name args = record {
  trace_context = record { trace_id = []; span_id = [] };
  args = args;
  dependencies = [];
  tags = [];
  job_id = id;
  queue = queue;
  name = name;
  unique_key = [];
  batch_id = [];
  run_at = none;
  unique_ttl = pos 0;
  priority = pos 0;
  attempts = pos 0;
  max_attempts = pos 3;
}

abbrev pub with_priority : ℤ → JobEnvelope → JobEnvelope
with_priority priority env = record env { priority = priority }

abbrev pub require_tags : List Text → JobEnvelope → JobEnvelope
require_tags tags env = record env { tags = tags }

-- The parent is not nil.
abbrev pub depends_on : JobEnvelope → JobEnvelope → JobEnvelope
depends_on parent env =
    if is_empty parent.job_id
    then env
    else record env { dependencies = env.dependencies ++ parent.job_id ∷ [] }

abbrev pub with_trace : TraceContext → JobEnvelope → JobEnvelope
with_trace trace env =
    if is_empty env.trace_context.trace_id then record env { trace_context = trace } else env

module _ {S : Type 0} (c : Client S) where
  unfoldable pub encrypt_envelope : JobEnvelope → Result JobEnvelope
  encrypt_envelope env =
      if is_empty c.encryption_key || is_empty env.args
      then ok env
      else encrypted env (encrypt_payload c.library env.args c.encryption_key)

  abbrev pub send : (JobEnvelope → Exec S Unit) → Result JobEnvelope → Exec (State S) Unit
  send call (err e) = raise e
  send call (ok env) = execute (call env)

  -- The envelope of a call is encrypted and handed to the storage.
  unfoldable pub send_encrypted : JobEnvelope → Exec (State S) Unit
  unfolding encrypt_envelope execute
  send_encrypted env = send c.storage.enqueue (encrypt_envelope env)

  unfoldable pub enqueue : Text → Text → List ℕ → Exec (State S) Unit
  unfolding send_encrypted
  enqueue queue name args = do
    id ← generate_job_id
    send_encrypted (record (new_job id queue name args) { trace_context = c.extract_trace })

  unfoldable pub enqueue_at : Text → Text → List ℕ → ℕ → Exec (State S) Unit
  unfolding send_encrypted
  enqueue_at queue name args run_at = do
    id ← generate_job_id
    send_encrypted (record (new_job id queue name args) {
      trace_context = c.extract_trace;
      run_at = some run_at;
    })

  unfoldable pub enqueue_in : Text → Text → List ℕ → ℤ → Exec (State S) Unit
  unfolding enqueue_at
  enqueue_in queue name args delay = do now ← time_now; enqueue_at queue name args (shift now delay)

  unfoldable pub enqueue_with_delay : Text → Text → List ℕ → ℤ → Exec (State S) Unit
  unfolding enqueue_in
  enqueue_with_delay = enqueue_in

  unfoldable pub enqueue_unique : Text → Text → List ℕ → Text → ℤ → Exec (State S) Unit
  unfolding send_encrypted
  enqueue_unique queue name args unique_key unique_ttl = do
    id ← generate_job_id
    send_encrypted (record (new_job id queue name args) {
      trace_context = c.extract_trace;
      unique_key = unique_key;
      unique_ttl = unique_ttl;
    })

  abbrev pub complete : JobEnvelope → JobEnvelope
  complete env = with_trace c.extract_trace (record env {
    max_attempts = if non_positive env.max_attempts then pos 3 else env.max_attempts;
  })

  unfoldable pub job_id_of : JobEnvelope → Exec (State S) Text
  job_id_of env = if is_empty env.job_id then generate_job_id else pure env.job_id

  unfoldable pub enqueue_job : JobEnvelope → Exec (State S) Unit
  unfolding send_encrypted job_id_of
  enqueue_job env = do id ← job_id_of env; send_encrypted (complete (record env { job_id = id }))

  -- The loop of EnqueueWorkflow, which stops at the first error.
  abbrev pub and_rest : Result JobEnvelope → Result (List JobEnvelope) → Result (List JobEnvelope)
  and_rest (err e) rest = err e
  and_rest (ok env) (err e) = err e
  and_rest (ok env) (ok envs) = ok (env ∷ envs)

  unfoldable pub prepare_all : List JobEnvelope → Result (List JobEnvelope)
  unfolding encrypt_envelope
  prepare_all [] = ok []
  prepare_all (job ∷ jobs) =
      and_rest (encrypt_envelope (with_trace c.extract_trace job)) (prepare_all jobs)

  abbrev pub send_all : Result (List JobEnvelope) → Exec (State S) Unit
  send_all (err e) = raise e
  send_all (ok jobs) = execute (c.storage.enqueue_workflow jobs)

  unfoldable pub enqueue_workflow : List JobEnvelope → Exec (State S) Unit
  unfolding prepare_all execute
  enqueue_workflow jobs = send_all (prepare_all jobs)

  -- The callback is not nil.
  abbrev pub validate_callback : JobEnvelope → Bool
  validate_callback cb = if is_empty cb.queue || is_empty cb.name then false else true

  unfoldable pub evaluate_batch_options : ℤ → Exec (State S) (Option ℕ)
  evaluate_batch_options timeout =
      if non_positive timeout then pure none else do now ← time_now; pure (some (shift now timeout))

  -- The identifier of the new batch.
  unfoldable pub new_batch : JobEnvelope → ℤ → Exec (State S) Text
  unfolding evaluate_batch_options execute
  new_batch callback timeout =
      if not (validate_callback callback) then raise invalid_callback else do
        expires_at ← evaluate_batch_options timeout
        batch_id ← generate_job_id
        execute (c.storage.create_batch batch_id callback expires_at)
        pure batch_id

  unfoldable pub batch_enqueue : Text → Text → Text → List ℕ → Exec (State S) Unit
  unfolding execute
  batch_enqueue batch_id queue name args = do
    id ← generate_job_id
    execute (
        c.storage.enqueue_in_batch batch_id (record (new_job id queue name args) {
          batch_id = batch_id;
          trace_context = c.extract_trace;
        }))

  unfoldable pub batch_submit : Text → Exec (State S) Unit
  unfolding execute
  batch_submit batch_id = execute (c.storage.submit_batch batch_id)

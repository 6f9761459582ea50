-- ===== src/Examples/Clients.antt =====
-- Runs of a client.
use orkai_runiq.Common.{
  ℕ, suc, pos, ◌*◌, ◌<◌, ◌≡◌, ◌≢◌, ◌⊎◌, refl, codes, text_eq, is_empty, true, false, Option, some,
  none, [], arith,
}
use orkai_runiq.Helpers.{second, get_run_at, get_max_attempts}
use orkai_runiq.Sql.{
  ok, err, circuit_breaker_open, World, Exec, exec, statement, query, query_row, pure, time_now,
  generate_job_id, ◌>>=◌, first,
}
use orkai_runiq.Sqlite.Tables.{LockRow, Db, empty, has_lock_key}
use orkai_runiq.Sqlite.Unique.{
  lock_key_of, get_lock_expires, acquire_unique_lock, take_lock, try_insert_lock,
  check_lock_collision, handle_lock_collision,
}
use orkai_runiq.Sqlite.Unique.Exclusion.{lookup_fails, check_time}
use orkai_runiq.Sqlite.Jobs.{enqueue, insert_job}
use orkai_runiq.CircuitBreaker.{CircuitBreaker, cb_state_open}
use orkai_runiq.Client.{
  State, Client, execute, enqueue_unique, send_encrypted, encrypt_envelope, through, lift,
}
use orkai_runiq.Client.Breaker.{entering, IsBlocked, IsCallAt, execute-IsCallAt}
use orkai_runiq.Client.Unique.{sqlite_storage, enqueue_unique_once}
use orkai_runiq.Examples.{seconds_pass, fresh_id}
use orkai_runiq.Examples.Parts.{toy, three_failures}

abbrev plain_client : Client Db
plain_client = record {
  storage = sqlite_storage;
  extract_trace = record { trace_id = []; span_id = [] };
  encryption_key = [];
  library = toy;
}

abbrev client_world : Option CircuitBreaker → World (State Db)
client_world cb = record {
  outside = record { clock = seconds_pass; fails = λ n. false; job_id = fresh_id };
  step = 0;
  db = record { stored = empty; cb = cb };
}

abbrev wipe : Exec Db Unit
wipe = exec (λ now db. empty)

-- The breaker has opened at the time of the first step, and has not cooled down.
abbrev open_breaker : CircuitBreaker
open_breaker = record {
  last_state_chg = seconds_pass 0;
  config = three_failures;
  failures = 3;
  state = cb_state_open;
}

execute-IsCallAt_example :
    (IsBlocked (some open_breaker) (seconds_pass 0)
      × ((execute wipe (client_world (some open_breaker))).0 ≡ err circuit_breaker_open)
      × ((execute wipe (client_world (some open_breaker))).1.db.stored ≡ empty)
      × ((execute wipe (client_world (some open_breaker))).1.db.cb ≡ some open_breaker))
    ⊎ (¬ IsBlocked (some open_breaker) (seconds_pass 0)
        × ((step : ℕ) × IsCallAt wipe
              (client_world (some open_breaker))
              (execute wipe (client_world (some open_breaker)))
              step))
execute-IsCallAt_example = execute-IsCallAt wipe (client_world (some open_breaker))

abbrev once : World (State Db)
once =
    (enqueue_unique plain_client (codes "mail") (codes "send") [] (codes "k") (pos (60 * second))
      (client_world none)).1

abbrev lock : LockRow
lock = record { lock_key = codes "mail:k"; job_id = fresh_id 0; expires_at = 72 * second }

key_is_there : is_empty (codes "k") ≡ false
unfolding is_empty
key_is_there = refl

no_encryption : is_empty plain_client.encryption_key ≡ true
unfolding is_empty
no_encryption = refl

sent :
    (enqueue_unique plain_client
      (codes "mail")
      (codes "send")
      []
      (codes "k")
      (pos (60 * second))
      (client_world none)).0
    ≡ ok tt
unfolding enqueue_unique send_encrypted encrypt_envelope execute through lift enqueue insert_job
    acquire_unique_lock get_lock_expires take_lock try_insert_lock check_lock_collision
    handle_lock_collision lock_key_of text_eq is_empty statement exec query query_row pure time_now
    generate_job_id ◌>>=◌ get_run_at get_max_attempts
sent = refl

-- What is known of the world after the first call.
record IsOnce (v : World (State Db)) : Type 0 where
  no_cb : v.db.cb ≡ none
  other : v.outside.job_id v.step ≢ fresh_id 0
  held :
      first (has_lock_key (lock_key_of (codes "mail") (codes "k"))) v.db.stored.unique_locks
      ≡ some lock
  readable : lookup_fails (entering v (suc v.step)) ≡ false
  early : check_time (entering v (suc v.step)) < lock.expires_at

once-IsOnce : IsOnce once
unfolding enqueue_unique send_encrypted encrypt_envelope execute through lift enqueue insert_job
    acquire_unique_lock get_lock_expires take_lock try_insert_lock check_lock_collision
    handle_lock_collision lock_key_of text_eq is_empty statement exec query query_row pure time_now
    generate_job_id ◌>>=◌ get_run_at get_max_attempts
once-IsOnce = record {
  no_cb = refl;
  other = λ e. ground arith;
  held = refl;
  readable = refl;
  early = omega arith;
}

enqueue_unique_once_example :
    ((enqueue_unique plain_client (codes "mail") (codes "again") [] (codes "k") (pos second) once).0
      ≢ ok tt)
    × ((enqueue_unique plain_client
          (codes "mail")
          (codes "again")
          []
          (codes "k")
          (pos second)
          once).1.db.stored
        ≡ once.db.stored)
enqueue_unique_once_example =
    enqueue_unique_once plain_client (codes "mail") (codes "k") (pos (60 * second)) (pos second)
      (codes "send") (codes "again") [] [] (client_world none) once lock refl no_encryption
      key_is_there refl once-IsOnce.no_cb sent refl once-IsOnce.other once-IsOnce.held
      once-IsOnce.readable once-IsOnce.early

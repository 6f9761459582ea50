-- ===== src/Examples/Workers.antt =====
-- Runs of a worker pool.
use orkai_runiq.Common.{
  pos, ◌+◌, ◌*◌, ◌≡◌, refl, Text, codes, text_eq, true, false, none, some, List, [], ◌∷◌, inl, inr,
  ltb_ℤ, leb_ℤ, arith,
}
use orkai_runiq.Sqlite.Tables.{blocked, LeaseRow}
use orkai_runiq.Sqlite.Burial.{update_job}
use orkai_runiq.Sqlite.Process.{get_running_jobs_count}
use orkai_runiq.Worker.{call}
use orkai_runiq.Worker.Fetch.{
  check_limits_and_postpone, check_with, check_limits, over_concurrency, over_rate,
}
use orkai_runiq.Worker.Fetch.Limits.{
  running_jobs, check_limits_and_postpone_allows, check_limits_and_postpone_defers,
}
use orkai_runiq.Worker.Leading.{elect_leader}
use orkai_runiq.Worker.OnSqlite.Elections.{do_duty, archive, elect_leader_idle}
use orkai_runiq.Examples.{depends}
use orkai_runiq.Queue.{JobEnvelope}
use orkai_runiq.Helpers.{second}
use orkai_runiq.Sql.{ok, World, statement, query, pure, attempt, ◌>>=◌}
use orkai_runiq.Sqlite.Tables.{running, pending, Db, empty}
use orkai_runiq.Worker.{WorkerPool, PoolState, HandlerConfig, job_failed, job_dead}
use orkai_runiq.Worker.OnSqlite.{sqlite_pool_storage}
use orkai_runiq.Worker.Fetch.Cycle.{search_orders, IsFair, search_orders-IsFair}
use orkai_runiq.Worker.{find_key}
use orkai_runiq.Worker.Setup.{weighted, weight_of, append_times, setup_weighted_queues}
use orkai_runiq.Examples.{job_row, id_a, id_b, envelope, seconds_pass, fresh_id}
use orkai_runiq.Examples.Parts.{toy}

abbrev mail : Text
mail = codes "mail"

abbrev bulk : Text
bulk = codes "bulk"

-- Two mails for each bulk job, at most one job of a name at a time, and leader election.
abbrev pub workers : WorkerPool Db
workers = record {
  storage = sqlite_pool_storage 5;
  first_queues = [];
  cron_jobs = [];
  middlewares = [];
  process_id = id_a;
  registry = [];
  configs =
      (codes "send", record { max_concurrency = pos 1; rate_limit = pos 0; rate_period = pos 0 })
      ∷ [];
  weights = (mail, pos 2) ∷ [];
  event_handlers = (job_failed, 0) ∷ (job_dead, 1) ∷ [];
  concurrency = pos 4;
  dlq_ttl = pos 0;
  leader_ttl = pos (60 * second);
  archival_age = pos 0;
  archival_interval = pos 0;
  encryption_key = [];
  interval_jobs = [];
  tags = [];
  library = toy;
  crypto_error = codes "bad";
  load_location = λ name. none;
}

abbrev pub working : Db → World (PoolState Db)
working db = record {
  outside = record { clock = seconds_pass; fails = λ n. false; job_id = fresh_id };
  step = 0;
  db = record {
    stored = db;
    fetch_counter = 5;
    is_leader = false;
    last_interval_ticks = [];
    last_minute = none;
    sizes = none;
    handled = [];
  };
}

search_orders-IsFair_example :
    (orders : List (List Text)) × ((search_orders
        (setup_weighted_queues workers (mail ∷ bulk ∷ []))
        3
        (mail ∷ bulk ∷ [])
        (working empty)).0
      ≡ ok orders)
    × IsFair workers.weights (mail ∷ bulk ∷ []) orders
unfolding weighted weight_of append_times find_key text_eq
search_orders-IsFair_example =
    search_orders-IsFair workers (mail ∷ bulk ∷ []) (working empty)
      ((λ i. elim i [ inl e ↦ ground arith | inr j ↦ j ]), ((λ i. i), tt)) (λ e. ground arith)
      (omega arith)

abbrev one_running : Db
one_running = record empty { jobs = job_row id_a running 0 ∷ [] }

abbrev sent : JobEnvelope
sent = record (envelope id_a) { max_attempts = pos 3 }

abbrev one_at_a_time : HandlerConfig
one_at_a_time = record { max_concurrency = pos 1; rate_limit = pos 0; rate_period = pos 0 }

allows :
    check_limits_and_postpone workers sent (working one_running)
    ≡ (ok true, (check_limits_and_postpone workers sent (working one_running)).1)
unfolding check_limits_and_postpone check_with check_limits over_concurrency over_rate find_key call
    get_running_jobs_count text_eq statement query pure ◌>>=◌ attempt
allows = refl

known : find_key (codes "send") workers.configs ≡ some one_at_a_time
unfolding find_key text_eq
known = refl

check_limits_and_postpone_allows_example :
    (leb_ℤ
        (pos (
          running_jobs
            (codes "send")
            (check_limits_and_postpone workers sent (working one_running)).1.db.stored))
        (pos 1)
      ≡ true)
    × ((check_limits_and_postpone workers sent (working one_running)).1.db.stored.jobs
        ≡ one_running.jobs)
check_limits_and_postpone_allows_example =
    check_limits_and_postpone_allows workers 5 one_at_a_time sent (working one_running) _ refl known
      refl refl allows

abbrev two_running : Db
two_running = record empty { jobs = job_row id_a running 0 ∷ job_row id_b running 0 ∷ [] }

many : ltb_ℤ (pos 1) (pos (running_jobs (codes "send") two_running)) ≡ true
unfolding text_eq
many = refl

check_limits_and_postpone_defers_example :
    ((check_limits_and_postpone workers sent (working two_running)).0 ≡ ok false)
    × ((check_limits_and_postpone workers sent (working two_running)).1.db
        ≡ record (working two_running).db {
          stored =
              update_job id_a
                (λ r. record r {
                  status = pending;
                  run_at = some (seconds_pass 1 + second);
                  locked_at = none;
                })
                two_running;
        })
check_limits_and_postpone_defers_example =
    check_limits_and_postpone_defers workers 5 one_at_a_time sent (working two_running) refl known
      refl (λ n. refl) many

-- The third attempt of three.
abbrev last_try : Db
last_try = record empty {
  jobs = job_row id_a running 2 ∷ job_row id_b blocked 0 ∷ [];
  dependencies = depends id_b id_a ∷ [];
}

abbrev last_envelope : JobEnvelope
last_envelope = record (envelope id_a) { attempts = pos 2 }

abbrev other_leads : LeaseRow
other_leads = record { holder_id = id_b; expires_at = 20 * second }

abbrev led_by_other : Db
led_by_other = record empty { leader = some other_leads }

abbrev standing : World (PoolState Db)
standing = record (working led_by_other) {
  outside = record { clock = λ n. 10 * second; fails = λ n. false; job_id = fresh_id };
}

elect_leader_idle_example :
    (do_duty workers archive (elect_leader workers standing).1
      ≡ (ok tt, (elect_leader workers standing).1))
    × ((elect_leader workers standing).1.db.stored.leader ≡ some other_leads)
elect_leader_idle_example =
    elect_leader_idle workers 5 standing other_leads archive refl refl refl (λ e. ground arith)
      (λ n. omega arith)

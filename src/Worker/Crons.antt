-- ===== src/Worker/Crons.antt =====
-- queue/worker.go: cron jobs. The goroutines that a tick starts are run one after another, in the
-- order in which the names were put into the map; Go's order over a map is any.
pub mod Merged
use orkai_runiq.Common.{
  ℕ, ◌+◌, ◌-◌, ◌*◌, ◌/◌, ◌%◌, ◌==◌, ℤ, pos, negsuc, Text, codes, decimal, is_empty, Bool, true,
  false, not, Option, none, some, List, [], ◌∷◌, ◌++◌, ltb, if◌then◌else◌, shift,
}
use orkai_runiq.Queue.{JobEnvelope}
use orkai_runiq.Helpers.{second}
use orkai_runiq.Sql.{Result, ok, err, Exec, pure, attempt, time_now, ◌>>=◌, ◌>>◌}
use orkai_runiq.Sqlite.Tables.{CronJob}
use orkai_runiq.Cron.{Moment, match_cron}
use orkai_runiq.Worker.{
  WorkerPool, PoolState, Location, LocatedCron, job_enqueued, call, modify, inspect, put_key,
  trigger_event,
}
use orkai_runiq.Worker.Setup.{utc}
use orkai_runiq.Worker.Leading.{if_leader}

-- The job of an execution: its identifier names the second.
abbrev pub recurring_envelope : Text → Text → Text → List ℕ → ℕ → JobEnvelope
recurring_envelope prefix queue name payload at = record {
  trace_context = record { trace_id = []; span_id = [] };
  args = payload;
  dependencies = [];
  tags = [];
  job_id = prefix ++ name ++ b'-' ∷ decimal (at / second);
  queue = queue;
  name = name;
  unique_key = [];
  batch_id = [];
  run_at = none;
  unique_ttl = pos 0;
  priority = pos 0;
  attempts = pos 0;
  max_attempts = pos 3;
}

abbrev pub create_cron_envelope : CronJob → ℕ → JobEnvelope
create_cron_envelope c now = recurring_envelope (codes "cron-") c.queue c.name c.payload now

-- `err != nil || !ok` is false.
abbrev pub was_given : Result Bool → Bool
was_given (ok given) = given
was_given (err e) = false

-- Days since 1 March of the year 0, of an instant after the epoch.
abbrev pub civil_days : ℕ → ℕ
civil_days t = t / (86400 * second) + 719468

abbrev pub day_of_era : ℕ → ℕ
day_of_era days = days % 146097

abbrev pub year_of_era : ℕ → ℕ
year_of_era doe = (doe - doe / 1460 + doe / 36524 - doe / 146096) / 365

-- The day within a year that begins in March.
abbrev pub day_of_year : ℕ → ℕ
day_of_year doe = let yoe = year_of_era doe in doe - (365 * yoe + yoe / 4 - yoe / 100)

abbrev pub month_from_march : ℕ → ℕ
month_from_march doy = (5 * doy + 2) / 153

-- The fields of an instant in UTC. 1 January 1970 was a Thursday.
unfoldable pub utc_moment : ℕ → Moment
utc_moment t =
    let doy = day_of_year (day_of_era (civil_days t)) in
    let mp = month_from_march doy in
    record {
      minute = t / (60 * second) % 60;
      hour = t / (3600 * second) % 24;
      day = doy - (153 * mp + 2) / 5 + 1;
      month = if ltb mp 10 then mp + 3 else mp - 9;
      weekday = (t / (86400 * second) + 4) % 7;
    }

-- A duration of so many seconds.
abbrev pub seconds : ℤ → ℤ
seconds (pos n) = pos (n * second)
seconds (negsuc n) = negsuc (n * second + second - 1)

-- now.In(location)
unfoldable pub moment_in : Option Location → ℕ → Moment
unfolding utc_moment
moment_in none now = utc_moment now
moment_in (some location) now = utc_moment (shift now (seconds (location.offset now)))

abbrev pub or_utc : Option Location → Location
or_utc none = utc
or_utc (some location) = location

-- The loop over the jobs of the code: m[c.Name] = c.
unfoldable pub put_static : List LocatedCron → List (Text × LocatedCron) → List (Text × LocatedCron)
unfolding put_key
put_static [] m = m
put_static (c ∷ cs) m = put_static cs (put_key c.cron.name c m)

module _ {S : Type 0} (pool : WorkerPool S) where
  abbrev pub get_cron_location : Text → Location
  get_cron_location tz = if is_empty tz then utc else or_utc (pool.load_location tz)

  abbrev pub located : CronJob → LocatedCron
  located c = record {
    cron = c;
    location = if is_empty c.timezone then none else some (get_cron_location c.timezone);
  }

  -- The loop over the jobs of the storage.
  unfoldable pub put_dynamic : List CronJob → List (Text × LocatedCron) → List (Text × LocatedCron)
  unfolding put_key
  put_dynamic [] m = m
  put_dynamic (c ∷ cs) m = put_dynamic cs (put_key c.name (located c) m)

  abbrev pub with_dynamic :
      List (Text × LocatedCron) → Result (List CronJob) → List (Text × LocatedCron)
  with_dynamic m (err e) = m
  with_dynamic m (ok dyn) = put_dynamic dyn m

  unfoldable pub merge_cron_jobs : Exec (PoolState S) (List (Text × LocatedCron))
  unfolding call put_static put_dynamic
  merge_cron_jobs = do
    dyn ← attempt (call pool.storage.get_cron_schedules)
    pure (with_dynamic (put_static pool.cron_jobs []) dyn)

  -- An event only if Enqueue has succeeded.
  abbrev pub announce : JobEnvelope → Result (Unit {0}) → Exec (PoolState S) Unit
  announce env (ok u) = trigger_event pool job_enqueued env none
  announce env (err e) = pure tt

  -- Enqueue of a job whose execution has been locked.
  unfoldable pub enqueue_given : JobEnvelope → Result Bool → Exec (PoolState S) Unit
  unfolding call trigger_event
  enqueue_given env lock =
      if was_given lock
      then (do done ← attempt (call (pool.storage.enqueue env)); announce env done)
      else pure tt

  unfoldable pub enqueue_cron_job : CronJob → ℕ → Exec (PoolState S) Unit
  unfolding call enqueue_given
  enqueue_cron_job c now = do
    lock ← attempt (call (pool.storage.lock_cron_execution c.name now))
    enqueue_given (create_cron_envelope c now) lock

  -- The expression is looked at only if the job is not paused.
  abbrev pub is_time_for : LocatedCron → ℕ → Bool
  is_time_for c now =
      if c.cron.paused then false else match_cron c.cron.spec (moment_in c.location now)

  unfoldable pub enqueue_matching : List (Text × LocatedCron) → ℕ → Exec (PoolState S) Unit
  unfolding enqueue_cron_job match_cron moment_in
  enqueue_matching [] now = pure tt
  enqueue_matching ((name, c) ∷ m) now =
      let rest = enqueue_matching m now in
      do (if is_time_for c now then enqueue_cron_job c.cron now else pure tt); rest

  unfoldable pub process_cron_jobs : ℕ → Exec (PoolState S) Unit
  unfolding merge_cron_jobs enqueue_matching
  process_cron_jobs now = do m ← merge_cron_jobs; enqueue_matching m now

  -- now.Minute() != lastMinute
  abbrev pub is_new_minute : Option ℕ → ℕ → Bool
  is_new_minute none minute = true
  is_new_minute (some last) minute = not (minute == last)

  abbrev pub minute_of : ℕ → ℕ
  minute_of now = now / (60 * second) % 60

  unfoldable pub cron_tick : Exec (PoolState S) Unit
  unfolding if_leader process_cron_jobs
  cron_tick = if_leader pool do
    now ← time_now
    last ← inspect λ s. s.last_minute
    if is_new_minute last (minute_of now)
        then (do modify λ s. record s { last_minute = some (minute_of now) }; process_cron_jobs now)
        else pure tt

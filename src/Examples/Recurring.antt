-- ===== src/Examples/Recurring.antt =====
-- Runs of recurring jobs and of the processing loop.
use orkai_runiq.Common.{
  pos, ◌+◌, ◌*◌, ◌≤◌, ◌≡◌, refl, Text, codes, text_eq, true, false, some, List, [], ◌∷◌, arith,
}
use orkai_runiq.Helpers.{second}
use orkai_runiq.Sql.{ok, World, statement, exec, pure, time_now, attempt, ◌>>=◌}
use orkai_runiq.Sqlite.Tables.{CronJob, Db, empty}
use orkai_runiq.Sqlite.Process.{lock_cron_execution}
use orkai_runiq.Sqlite.Process.CronLocks.{at_once}
use orkai_runiq.Sqlite.Schedules.{get_cron_schedules}
use orkai_runiq.Sql.{query, order_by, insert_before}
use orkai_runiq.Worker.{Location, WorkerPool, IntervalJob, LocatedCron, inside, find_key}
use orkai_runiq.Worker.Crons.{merge_cron_jobs, utc_moment}
use orkai_runiq.Worker.Crons.Merged.{
  later, last_named, static_name, stored_crons, merge_cron_jobs_lem,
}
use orkai_runiq.Worker.Intervals.{enqueue_interval_job}
use orkai_runiq.Worker.OnSqlite.Recurring.{Untouched, enqueue_interval_job_once}
use orkai_runiq.Worker.Loop.{
  Loop, cancel, go_on, acquire, spawn, Run, here, quiet, starts, checking, selecting,
}
use orkai_runiq.Worker.Loop.Slots.{started_with, Run-bounds}
use orkai_runiq.Worker.Setup.{utc}
use orkai_runiq.Examples.{sunny}
use orkai_runiq.Examples.Workers.{workers, working}

-- 14 November 2023, 22:13:20, a Tuesday.
tuesday :
    utc_moment (1700000000 * second)
    ≡ record { minute = 13; hour = 22; day = 14; month = 11; weekday = 2 }
unfolding utc_moment
tuesday = refl

-- The leap day of 2000, a Tuesday too.
leap_day :
    utc_moment (951782400 * second)
    ≡ record { minute = 0; hour = 0; day = 29; month = 2; weekday = 2 }
unfolding utc_moment
leap_day = refl

-- Every thirty seconds.
abbrev pulse : IntervalJob
pulse = record {
  payload = [];
  interval = pos (30 * second);
  name = codes "pulse";
  queue = codes "mail";
}

abbrev pulsed : World Db
pulsed = (lock_cron_execution (codes "pulse") (60 * second) (sunny empty)).1

pulses : lock_cron_execution (codes "pulse") (60 * second) (sunny empty) ≡ (ok true, pulsed)
unfolding lock_cron_execution text_eq statement exec pure time_now ◌>>=◌ attempt
pulses = refl

enqueue_interval_job_once_example :
    Untouched (working pulsed.db) (enqueue_interval_job workers pulse (90 * second))
unfolding lock_cron_execution text_eq statement exec pure time_now ◌>>=◌ attempt
enqueue_interval_job_once_example =
    enqueue_interval_job_once workers 5 pulse (60 * second) (90 * second) (sunny empty) pulsed
      (working pulsed.db) refl pulses at_once refl (omega arith)

abbrev nightly : CronJob
nightly = record {
  payload = [];
  spec = codes "0 3 * * *";
  name = codes "nightly";
  queue = codes "mail";
  timezone = [];
  paused = false;
}

abbrev in_code : LocatedCron
in_code = record { cron = nightly; location = some utc }

abbrev tokyo : Location
tokyo = record { name = codes "Asia/Tokyo"; offset = λ t. pos 32400 }

abbrev with_cron : WorkerPool Db
with_cron = record workers { cron_jobs = in_code ∷ []; load_location = λ name. some tokyo }

abbrev in_tokyo : CronJob
in_tokyo = record nightly { timezone = codes "Asia/Tokyo" }

abbrev scheduled : Db
scheduled = record empty { cron_schedules = (record { cron = in_tokyo; updated_at = 0 }) ∷ [] }

merge_cron_jobs_lem_example :
    (m : List (Text × LocatedCron)) × ((merge_cron_jobs with_cron (working scheduled)).0 ≡ ok m)
    × (find_key (codes "nightly") m
        ≡ later
            (last_named static_name (codes "nightly") (
              stored_crons with_cron
                (with_cron.storage.get_cron_schedules (inside (working scheduled))).0))
            (last_named static_name (codes "nightly") (in_code ∷ [])))
merge_cron_jobs_lem_example = merge_cron_jobs_lem with_cron (codes "nightly") (working scheduled)

-- It is the stored one, in the zone that it names.
merged_test :
    later
      (last_named static_name (codes "nightly") (
        stored_crons with_cron
          (with_cron.storage.get_cron_schedules (inside (working scheduled))).0))
      (last_named static_name (codes "nightly") (in_code ∷ []))
    ≡ some (record { cron = in_tokyo; location = some tokyo })
unfolding get_cron_schedules text_eq query statement order_by insert_before
merged_test = refl

-- The context is cancelled while the loop is at its select, and a job is started all the same.
abbrev cancelled : Loop
cancelled = record {
  place = selecting;
  cancelled = true;
  tokens = 1;
  active = 0;
  put_in = 1;
  taken_out = 0;
}

abbrev one_more : Loop
one_more = record cancelled { place = checking; tokens = 2; active = 1 }

up_to_cancel : Run 2 (started_with 1) 0 cancelled
up_to_cancel = quiet (quiet here (go_on refl refl)) cancel

after_cancel : Run 2 cancelled 1 one_more
after_cancel = starts (quiet here (acquire refl (omega arith))) (spawn refl)

Run-bounds_example : (1 + 1 ≤ 2 + 0) × (1 ≤ 1)
Run-bounds_example = Run-bounds 1 (omega arith) up_to_cancel refl after_cancel

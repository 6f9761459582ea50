-- ===== src/Sqlite/Stats.antt =====
-- The statistics of the dashboard: queue/sqlite_admin.go, GetStats and what it calls, with
-- sortCronJobs of queue/helpers.go.
pub mod Sums
pub mod Counted
use orkai_runiq.Common.{
  ℕ, suc, ℤ, pos, ◌+ℤ◌, Text, text_eq, Bool, true, false, ◌&&◌, List, [], ◌∷◌, ltb, map, take,
  if◌then◌else◌,
}
use orkai_runiq.Queue.{QueueStats}
use orkai_runiq.Sql.{Result, ok, err, Exec, pure, query, attempt, ◌>>=◌, order_by}
use orkai_runiq.Sqlite.Tables.{
  Status, pending, running, processed, dead, blocked, failed, JobRow, CronRow, Db,
}
use orkai_runiq.Sqlite.Registry.{ProcessInfo, get_active_processes}
use orkai_runiq.Sqlite.Schedules.{text_lt}
use orkai_runiq.Sqlite.Counts.{
  JobDetail, Source, from_code, from_schedules, CronJobDetail, Stats, fetch_queue_stats,
  apply_paused_queues,
}

-- ORDER BY created_at DESC
abbrev pub created_later : JobRow → JobRow → Bool
created_later a b = ltb b.created_at a.created_at

abbrev pub detail_of : JobRow → JobDetail
detail_of r = record {
  job_id = r.job_id;
  queue = r.queue;
  name = r.name;
  status = r.status;
  trace_id = r.trace_id;
  error_message = r.error_message;
  created_at = r.created_at;
}

unfoldable pub fetch_recent_jobs : Exec Db (List JobDetail)
fetch_recent_jobs = query λ _ db. map detail_of (take 100 (order_by created_later db.jobs))

abbrev pub cron_detail : Source → Bool → CronRow → CronJobDetail
cron_detail source paused r = record {
  name = r.cron.name;
  expression = r.cron.spec;
  queue = r.cron.queue;
  payload = r.cron.payload;
  timezone = r.cron.timezone;
  source = source;
  paused = paused;
}

-- m[cd.Name] = cd
unfoldable pub put_detail : CronJobDetail → List CronJobDetail → List CronJobDetail
put_detail cd [] = cd ∷ []
put_detail cd (x ∷ xs) =
    let rest = put_detail cd xs in if text_eq x.name cd.name then cd ∷ xs else x ∷ rest

unfoldable pub load_each :
    (CronRow → CronJobDetail) → Result (List CronRow) → List CronJobDetail → List CronJobDetail
unfolding put_detail
load_each detail (err e) m = m
load_each detail (ok []) m = m
load_each detail (ok (r ∷ rows)) m = load_each detail (ok rows) (put_detail (detail r) m)

unfoldable pub load_static_crons : List CronJobDetail → Exec Db (List CronJobDetail)
unfolding load_each
load_static_crons m = do
  rows ← attempt (query λ _ db. db.cron_jobs)
  pure (load_each (cron_detail from_code false) rows m)

unfoldable pub load_dynamic_crons : List CronJobDetail → Exec Db (List CronJobDetail)
unfolding load_each
load_dynamic_crons m = do
  rows ← attempt (query λ _ db. db.cron_schedules)
  pure (load_each (λ r. cron_detail from_schedules r.cron.paused r) rows m)

unfoldable pub sort_cron_jobs : List CronJobDetail → List CronJobDetail
unfolding text_lt
sort_cron_jobs m = order_by (λ a b. text_lt a.name b.name) m

unfoldable pub fetch_cron_jobs : Exec Db (List CronJobDetail)
unfolding load_static_crons load_dynamic_crons sort_cron_jobs
fetch_cron_jobs = do
  static ← load_static_crons []
  all ← load_dynamic_crons static
  pure (sort_cron_jobs all)

abbrev pub processes_or_none : Result (List ProcessInfo) → List ProcessInfo
processes_or_none (ok list) = list
processes_or_none (err e) = []

unfoldable pub load_active_processes : Exec Db (List ProcessInfo)
load_active_processes = do list ← attempt get_active_processes; pure (processes_or_none list)

unfoldable pub get_stats : Exec Db Stats
unfolding fetch_queue_stats apply_paused_queues fetch_recent_jobs fetch_cron_jobs
    load_active_processes
get_stats = do
  (stats, queue_map) ← fetch_queue_stats
  queues ← apply_paused_queues queue_map
  jobs ← fetch_recent_jobs
  cron_jobs ← fetch_cron_jobs
  processes ← load_active_processes
  pure (record stats { queues = queues; jobs = jobs; cron_jobs = cron_jobs; processes = processes })

-- ===== src/Examples/Counts.antt =====
-- Runs of GetStats.
use orkai_runiq.Common.{◌≡◌, refl, pos, codes, text_eq, [], ◌∷◌}
use orkai_runiq.Autoscaler.{monitors, pending_of}
use orkai_runiq.Sql.{Result, ok, err, attempt, exec, query, pure, statement, time_now, ◌>>=◌}
use orkai_runiq.Sqlite.Tables.{pending, running, dead, failed, Db, empty}
use orkai_runiq.Sqlite.Registry.{get_active_processes, scan_processes, mark_leader, mark_with}
use orkai_runiq.Sqlite.Counts.{Stats, no_stats, fetch_queue_stats, apply_paused_queues}
use orkai_runiq.Sqlite.Stats.{
  get_stats, fetch_recent_jobs, fetch_cron_jobs, load_static_crons, load_dynamic_crons,
  load_active_processes,
}
use orkai_runiq.Sqlite.Stats.Counted.{get_stats-counts}
use orkai_runiq.Examples.{sunny, job_row, id_a, id_b}

abbrev busy : Db
busy = record empty {
  jobs =
      job_row id_a pending 0
      ∷ (record (job_row id_b pending 0) { queue = codes "other" })
      ∷ job_row (codes "c") dead 3
      ∷ job_row (codes "d") failed 3
      ∷ job_row (codes "e") running 0
      ∷ [];
  paused_queues = codes "idle" ∷ [];
}

abbrev or_no_stats : Result Stats → Stats
or_no_stats (ok s) = s
or_no_stats (err e) = no_stats

reads :
    get_stats (sunny busy)
    ≡ (ok (or_no_stats (get_stats (sunny busy)).0), (get_stats (sunny busy)).1)
unfolding get_stats fetch_queue_stats apply_paused_queues fetch_recent_jobs fetch_cron_jobs
    load_static_crons load_dynamic_crons load_active_processes get_active_processes mark_leader
    mark_with scan_processes attempt exec query pure statement time_now ◌>>=◌
reads = refl

get_stats-counts_example :
    ((or_no_stats (get_stats (sunny busy)).0).pending ≡ pos 2)
    × ((or_no_stats (get_stats (sunny busy)).0).running ≡ pos 1)
    × ((or_no_stats (get_stats (sunny busy)).0).failed ≡ pos 2)
    × ((or_no_stats (get_stats (sunny busy)).0).processed ≡ pos 0)
    × (pending_of (codes "mail" ∷ []) (or_no_stats (get_stats (sunny busy)).0).queues ≡ pos 1)
unfolding text_eq monitors
get_stats-counts_example = get_stats-counts (codes "mail" ∷ []) (sunny busy) reads

-- ===== src/Sqlite/Counts.antt =====
-- The counts of jobs for the dashboard and the autoscaler: queue/sqlite_admin.go, fetchQueueStats and
-- applyPausedQueues and what they call. A Go map is a list of entries in the order in which they were
-- put in; where the code ranges over it, Go takes any order.
use orkai_runiq.Common.{
  ℕ, suc, ℤ, pos, ◌+ℤ◌, Text, text_eq, Bool, true, false, ◌&&◌, List, [], ◌∷◌, if◌then◌else◌,
}
use orkai_runiq.Queue.{QueueStats}
use orkai_runiq.Sql.{Result, ok, err, Exec, pure, query, attempt, ◌>>=◌}
use orkai_runiq.Sqlite.Tables.{
  Status, pending, running, processed, dead, blocked, failed, JobRow, Db,
}
use orkai_runiq.Sqlite.Registry.{ProcessInfo}

-- The creation time is kept as an instant, not formatted.
pub record JobDetail : Type 0 where
  pub job_id : Text
  pub queue : Text
  pub name : Text
  pub status : Status
  pub trace_id : Text
  pub error_message : Text
  pub created_at : ℕ

-- "static" and "dynamic"
pub data Source : Type 0 where
  from_code from_schedules : Source

pub record CronJobDetail : Type 0 where
  pub name : Text
  pub expression : Text
  pub queue : Text
  pub payload : List ℕ
  pub timezone : Text
  pub source : Source
  pub paused : Bool

pub record Stats : Type 0 where
  pub queues : List QueueStats
  pub jobs : List JobDetail
  pub processes : List ProcessInfo
  pub cron_jobs : List CronJobDetail
  pub pending : ℤ
  pub running : ℤ
  pub failed : ℤ
  pub processed : ℤ

abbrev pub no_stats : Stats
no_stats = record {
  queues = [];
  jobs = [];
  processes = [];
  cron_jobs = [];
  pending = pos 0;
  running = pos 0;
  failed = pos 0;
  processed = pos 0;
}

abbrev pub no_jobs_of : Text → QueueStats
no_jobs_of q = record {
  name = q;
  pending = pos 0;
  running = pos 0;
  failed = pos 0;
  processed = pos 0;
  paused = false;
}

-- getOrCreateQueueStats, and what the caller does with the entry.
unfoldable pub get_or_create_queue_stats :
    (QueueStats → QueueStats) → Text → List QueueStats → List QueueStats
get_or_create_queue_stats f q [] = f (no_jobs_of q) ∷ []
get_or_create_queue_stats f q (x ∷ xs) =
    let rest = get_or_create_queue_stats f q xs in if text_eq x.name q then f x ∷ xs else x ∷ rest

abbrev pub add_to_queue : Status → ℤ → QueueStats → QueueStats
add_to_queue pending n qs = record qs { pending = qs.pending +ℤ n }
add_to_queue running n qs = record qs { running = qs.running +ℤ n }
add_to_queue failed n qs = record qs { failed = qs.failed +ℤ n }
add_to_queue dead n qs = record qs { failed = qs.failed +ℤ n }
add_to_queue processed n qs = record qs { processed = qs.processed +ℤ n }
add_to_queue blocked n qs = qs

abbrev pub add_to_total : Status → ℤ → Stats → Stats
add_to_total pending n s = record s { pending = s.pending +ℤ n }
add_to_total running n s = record s { running = s.running +ℤ n }
add_to_total failed n s = record s { failed = s.failed +ℤ n }
add_to_total dead n s = record s { failed = s.failed +ℤ n }
add_to_total processed n s = record s { processed = s.processed +ℤ n }
add_to_total blocked n s = s

-- A row of SELECT queue, status, COUNT(*) ... GROUP BY queue, status.
pub record Group : Type 0 where
  pub queue : Text
  pub status : Status
  pub size : ℕ

abbrev pub same_status : Status → Status → Bool
same_status pending pending = true
same_status running running = true
same_status processed processed = true
same_status dead dead = true
same_status blocked blocked = true
same_status failed failed = true
same_status _ _ = false

unfoldable pub count_row : JobRow → List Group → List Group
count_row r [] = (record { queue = r.queue; status = r.status; size = 1 }) ∷ []
count_row r (g ∷ gs) =
    let rest = count_row r gs in
    if text_eq g.queue r.queue && same_status g.status r.status
    then (record g { size = suc g.size }) ∷ gs
    else g ∷ rest

unfoldable pub group_rows : List JobRow → List Group
unfolding count_row
group_rows [] = []
group_rows (r ∷ rows) = count_row r (group_rows rows)

unfoldable pub accumulate_stats : Group → Stats × List QueueStats → Stats × List QueueStats
unfolding get_or_create_queue_stats
accumulate_stats g (stats, queue_map) = (
  add_to_total g.status (pos g.size) stats,
  get_or_create_queue_stats (add_to_queue g.status (pos g.size)) g.queue queue_map,
)

unfoldable pub scan_queue_stats_rows :
    List Group → Stats × List QueueStats → Stats × List QueueStats
unfolding accumulate_stats
scan_queue_stats_rows [] acc = acc
scan_queue_stats_rows (g ∷ gs) acc = scan_queue_stats_rows gs (accumulate_stats g acc)

unfoldable pub fetch_queue_stats : Exec Db (Stats × List QueueStats)
unfolding group_rows scan_queue_stats_rows
fetch_queue_stats = query λ _ db. scan_queue_stats_rows (group_rows db.jobs) (no_stats, [])

abbrev pub pause_stats : QueueStats → QueueStats
pause_stats qs = record qs { paused = true }

-- The error of the query is dropped.
unfoldable pub mark_paused : Result (List Text) → List QueueStats → List QueueStats
unfolding get_or_create_queue_stats
mark_paused (err e) queue_map = queue_map
mark_paused (ok []) queue_map = queue_map
mark_paused (ok (q ∷ qs)) queue_map =
    mark_paused (ok qs) (get_or_create_queue_stats pause_stats q queue_map)

unfoldable pub apply_paused_queues : List QueueStats → Exec Db (List QueueStats)
unfolding mark_paused
apply_paused_queues queue_map = do
  paused ← attempt (query λ _ db. db.paused_queues)
  pure (mark_paused paused queue_map)

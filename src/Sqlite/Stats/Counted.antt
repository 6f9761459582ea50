-- ===== src/Sqlite/Stats/Counted.antt =====
-- What GetStats counts: queue/sqlite_admin.go, and getMonitoredPendingCount of queue/autoscaler.go.
use orkai_runiq.Common.{
  ℕ, ℤ, pos, ◌+ℤ◌, ◌≡◌, refl, sym, ap, ◌∙◌, Text, Bool, ◌&&◌, List, [], ◌∷◌, arith,
}
use orkai_runiq.Queue.{QueueStats}
use orkai_runiq.Autoscaler.{monitors, pending_of}
use orkai_runiq.Sql.{Result, ok, World, count, query, pure, attempt, bind-ok, query-ok}
use orkai_runiq.Sqlite.Tables.{
  Status, pending, running, processed, dead, blocked, failed, Db, is_pending, is_running,
  is_dead_or_failed,
}
use orkai_runiq.Sqlite.Counts.{
  Stats, no_stats, add_to_total, Group, group_rows, accumulate_stats, scan_queue_stats_rows,
  fetch_queue_stats, apply_paused_queues,
}
use orkai_runiq.Sqlite.Stats.{get_stats, fetch_recent_jobs, fetch_cron_jobs, load_active_processes}
use orkai_runiq.Sqlite.Stats.Sums.{
  is_processed, size_if, sum, sum-group_rows, plus_zero, zero_plus, plus_pos, monitored,
  pending_of-scan, pending_of-mark_paused,
}

-- A total that grows by the groups of one kind.
total-scan :
    (total : Stats → ℤ) (p : Status → Bool)
    → ((s : Status) (n : ℕ) (st : Stats)
        → total (add_to_total s (pos n) st) ≡ total st +ℤ pos (size_if (p s) n))
    → (gs : List Group) (acc : Stats × List QueueStats)
    → total (scan_queue_stats_rows gs acc).0 ≡ total acc.0 +ℤ pos (sum (λ q. p) gs)
unfolding scan_queue_stats_rows accumulate_stats
total-scan total p grows [] acc = plus_zero _
total-scan total p grows (g ∷ gs) (stats, m) =
    total-scan total p grows gs (accumulate_stats g (stats, m))
    ∙ ap (λ x. x +ℤ pos (sum (λ q. p) gs)) (grows g.status g.size stats)
    ∙ plus_pos _ _ _

same_result :
    {A : Type 0} {a b : A} (w : World Db) {w' : World Db}
    → ◌≡◌ {A = Result A × World Db} (pure a w) (ok b, w')
    → a ≡ b
unfolding pure
same_result w h = ground arith

abbrev counted : (Status → Bool) → Db → ℤ
counted p db = pos (count (λ r. p r.status) db.jobs)

total-fetch :
    (total : Stats → ℤ) (p : Status → Bool)
    → ((s : Status) (n : ℕ) (st : Stats)
        → total (add_to_total s (pos n) st) ≡ total st +ℤ pos (size_if (p s) n))
    → total no_stats ≡ pos 0
    → (db : Db) → total (scan_queue_stats_rows (group_rows db.jobs) (no_stats, [])).0 ≡ counted p db
total-fetch total p grows none_yet db =
    total-scan total p grows (group_rows db.jobs) (no_stats, [])
    ∙ ap (λ x. x +ℤ pos (sum (λ q. p) (group_rows db.jobs))) none_yet
    ∙ sym (zero_plus _)
    ∙ ap pos (sum-group_rows (λ q. p) db.jobs)

pending_grows :
    (s : Status) (n : ℕ) (st : Stats)
    → (add_to_total s (pos n) st).pending ≡ st.pending +ℤ pos (size_if (is_pending s) n)
pending_grows pending n st = refl
pending_grows running n st = plus_zero st.pending
pending_grows processed n st = plus_zero st.pending
pending_grows dead n st = plus_zero st.pending
pending_grows blocked n st = plus_zero st.pending
pending_grows failed n st = plus_zero st.pending

running_grows :
    (s : Status) (n : ℕ) (st : Stats)
    → (add_to_total s (pos n) st).running ≡ st.running +ℤ pos (size_if (is_running s) n)
running_grows pending n st = plus_zero st.running
running_grows running n st = refl
running_grows processed n st = plus_zero st.running
running_grows dead n st = plus_zero st.running
running_grows blocked n st = plus_zero st.running
running_grows failed n st = plus_zero st.running

failed_grows :
    (s : Status) (n : ℕ) (st : Stats)
    → (add_to_total s (pos n) st).failed ≡ st.failed +ℤ pos (size_if (is_dead_or_failed s) n)
failed_grows pending n st = plus_zero st.failed
failed_grows running n st = plus_zero st.failed
failed_grows processed n st = plus_zero st.failed
failed_grows dead n st = refl
failed_grows blocked n st = plus_zero st.failed
failed_grows failed n st = refl

processed_grows :
    (s : Status) (n : ℕ) (st : Stats)
    → (add_to_total s (pos n) st).processed ≡ st.processed +ℤ pos (size_if (is_processed s) n)
processed_grows pending n st = plus_zero st.processed
processed_grows running n st = plus_zero st.processed
processed_grows processed n st = refl
processed_grows dead n st = plus_zero st.processed
processed_grows blocked n st = plus_zero st.processed
processed_grows failed n st = plus_zero st.processed

pending_of-fetch :
    (ms : List Text) (db : Db)
    → pending_of ms (scan_queue_stats_rows (group_rows db.jobs) (no_stats, [])).1
      ≡ pos (count (λ r. monitors r.queue ms && is_pending r.status) db.jobs)
unfolding pending_of
pending_of-fetch ms db =
    pending_of-scan ms (group_rows db.jobs) (no_stats, [])
    ∙ sym (zero_plus _)
    ∙ ap pos (sum-group_rows (monitored ms) db.jobs)

paused_same :
    (ms : List Text) (m : List QueueStats) (w : World Db) {w' : World Db} {queues : List QueueStats}
    → apply_paused_queues m w ≡ (ok queues, w')
    → pending_of ms queues ≡ pending_of ms m
unfolding apply_paused_queues
paused_same ms m w h =
    let (r, v, asked, rest) = bind-ok (attempt (query λ _ db. db.paused_queues)) _ w h in
    ap (pending_of ms) (sym (same_result v rest)) ∙ pending_of-mark_paused ms r m

-- When GetStats succeeds, its totals are the numbers of the pending, the running, the dead or failed and
-- the processed jobs, and the number that the autoscaler takes from it for the queues that it monitors
-- is that of the pending jobs in these queues.
pub get_stats-counts :
    (ms : List Text) (w : World Db) {w' : World Db} {s : Stats}
    → get_stats w ≡ (ok s, w')
    → (s.pending ≡ pos (count (λ r. is_pending r.status) w.db.jobs))
      × (s.running ≡ pos (count (λ r. is_running r.status) w.db.jobs))
      × (s.failed ≡ pos (count (λ r. is_dead_or_failed r.status) w.db.jobs))
      × (s.processed ≡ pos (count (λ r. is_processed r.status) w.db.jobs))
      × (pending_of ms s.queues
          ≡ pos (count (λ r. monitors r.queue ms && is_pending r.status) w.db.jobs))
unfolding get_stats fetch_queue_stats
get_stats-counts ms w h =
    let ((st, m), w1, fetched, h1) = bind-ok fetch_queue_stats _ w h in
    let (found, kept) = query-ok _ w fetched in
    let (queues, w2, marked, h2) = bind-ok (apply_paused_queues m) _ w1 h1 in
    let (jobs, w3, recent, h3) = bind-ok fetch_recent_jobs _ w2 h2 in
    let (crons, w4, listed, h4) = bind-ok fetch_cron_jobs _ w3 h3 in
    let (processes, w5, loaded, h5) = bind-ok load_active_processes _ w4 h4 in
    let built = sym (same_result w5 h5) in
    (
      ap (λ (x : Stats). x.pending) built
          ∙ ap (λ (x : Stats × List QueueStats). x.0.pending) found
          ∙ total-fetch (λ x. x.pending) is_pending pending_grows refl w.db,
      ap (λ (x : Stats). x.running) built
          ∙ ap (λ (x : Stats × List QueueStats). x.0.running) found
          ∙ total-fetch (λ x. x.running) is_running running_grows refl w.db,
      ap (λ (x : Stats). x.failed) built
          ∙ ap (λ (x : Stats × List QueueStats). x.0.failed) found
          ∙ total-fetch (λ x. x.failed) is_dead_or_failed failed_grows refl w.db,
      ap (λ (x : Stats). x.processed) built
          ∙ ap (λ (x : Stats × List QueueStats). x.0.processed) found
          ∙ total-fetch (λ x. x.processed) is_processed processed_grows refl w.db,
      ap (λ (x : Stats). pending_of ms x.queues) built
          ∙ paused_same ms m w1 marked
          ∙ ap (λ (x : Stats × List QueueStats). pending_of ms x.1) found
          ∙ pending_of-fetch ms w.db,
    )

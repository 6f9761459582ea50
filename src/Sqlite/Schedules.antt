-- ===== src/Sqlite/Schedules.antt =====
-- The stored cron schedules: queue/sqlite_cron.go, and RegisterCronJobs of queue/sqlite_admin.go.
pub mod Saved
use orkai_runiq.Common.{
  ℕ, Text, text_eq, Bool, true, false, ◌&&◌, ◌||◌, List, [], ◌∷◌, map, ltb, ◌==◌, if◌then◌else◌,
}
use orkai_runiq.Sql.{Exec, pure, exec, query, transaction, ◌>>=◌, ◌>>◌, upsert, delete, order_by}
use orkai_runiq.Sqlite.Tables.{CronJob, CronRow, Db, current_timestamp}

abbrev pub has_name : Text → CronRow → Bool
has_name name r = text_eq r.cron.name name

-- The order of SQLite's BINARY collation.
unfoldable pub text_lt : Text → Text → Bool
text_lt [] [] = false
text_lt [] (y ∷ ys) = true
text_lt (x ∷ xs) [] = false
text_lt (x ∷ xs) (y ∷ ys) = ltb x y || (x == y && text_lt xs ys)

-- ORDER BY name ASC
abbrev pub named_before : CronRow → CronRow → Bool
named_before a b = text_lt a.cron.name b.cron.name

unfoldable pub get_cron_schedules : Exec Db (List CronJob)
unfolding text_lt
get_cron_schedules = query λ _ db. map (λ r. r.cron) (order_by named_before db.cron_schedules)

abbrev pub cron_row : CronJob → ℕ → CronRow
cron_row c now = record { cron = c; updated_at = current_timestamp now }

-- ON CONFLICT (name) DO UPDATE of every other column.
abbrev pub put_schedule : CronJob → ℕ → Db → Db
put_schedule c now db = record db {
  cron_schedules =
      upsert (has_name c.name) (λ r. cron_row (record c { name = r.cron.name }) now)
        (cron_row c now) db.cron_schedules;
}

unfoldable pub save_cron_schedule : CronJob → Exec Db Unit
save_cron_schedule c = exec (put_schedule c)

unfoldable pub delete_cron_schedule : Text → Exec Db Unit
delete_cron_schedule name =
    exec λ _ db. record db { cron_schedules = delete (has_name name) db.cron_schedules }

abbrev pub put_cron_job : CronJob → ℕ → Db → Db
put_cron_job c now db = record db {
  cron_jobs =
      upsert (has_name c.name)
        (λ r. cron_row (record c { name = r.cron.name; paused = r.cron.paused }) now)
        (cron_row (record c { paused = false }) now) db.cron_jobs;
}

unfoldable pub insert_cron_jobs_tx : List CronJob → Exec Db Unit
insert_cron_jobs_tx [] = pure tt
insert_cron_jobs_tx (c ∷ crons) =
    let rest = insert_cron_jobs_tx crons in do exec (put_cron_job c); rest

unfoldable pub register_cron_jobs : List CronJob → Exec Db Unit
unfolding insert_cron_jobs_tx
register_cron_jobs crons = transaction (insert_cron_jobs_tx crons)

-- ===== src/Postgres/Schedules.antt =====
-- The stored cron schedules: queue/postgres_cron.go, and RegisterCronJobs of queue/postgres_admin.go. The
-- order of names is that of the collation "C".
use orkai_runiq.Common.{ℕ, Text, false, List, [], ◌∷◌, map}
use orkai_runiq.Sql.{Exec, pure, exec, query, ◌>>◌, upsert, delete, order_by}
use orkai_runiq.Sqlite.Tables.{CronJob, CronRow, Db}
use orkai_runiq.Sqlite.Schedules.{has_name, text_lt, named_before}
use orkai_runiq.Postgres.{transaction_from, always}

unfoldable pub get_cron_schedules : Exec Db (List CronJob)
unfolding text_lt
get_cron_schedules = query λ _ db. map (λ r. r.cron) (order_by named_before db.cron_schedules)

abbrev pub cron_row : CronJob → ℕ → CronRow
cron_row c now = record { cron = c; updated_at = now }

-- ON CONFLICT (name) DO UPDATE of every other column.
unfoldable pub save_cron_schedule : CronJob → Exec Db Unit
save_cron_schedule c = exec λ now db. record db {
  cron_schedules =
      upsert (has_name c.name) (λ r. cron_row (record c { name = r.cron.name }) now)
        (cron_row c now) db.cron_schedules;
}

unfoldable pub delete_cron_schedule : Text → Exec Db Unit
delete_cron_schedule name =
    exec λ _ db. record db { cron_schedules = delete (has_name name) db.cron_schedules }

abbrev pub put_cron_job : CronJob → ℕ → Db → Db
put_cron_job c started db = record db {
  cron_jobs =
      upsert (has_name c.name)
        (λ r. cron_row (record c { name = r.cron.name; paused = r.cron.paused }) started)
        (cron_row (record c { paused = false }) started) db.cron_jobs;
}

unfoldable pub insert_cron_jobs_tx : List CronJob → ℕ → Exec Db Unit
insert_cron_jobs_tx [] started = pure tt
insert_cron_jobs_tx (c ∷ crons) started =
    let rest = insert_cron_jobs_tx crons started in do exec (λ _. put_cron_job c started); rest

unfoldable pub register_cron_jobs : List CronJob → Exec Db Unit
unfolding insert_cron_jobs_tx transaction_from
register_cron_jobs crons = transaction_from always (insert_cron_jobs_tx crons)

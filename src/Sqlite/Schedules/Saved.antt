-- ===== src/Sqlite/Schedules/Saved.antt =====
-- Saving and listing cron schedules: queue/sqlite_cron.go.
use orkai_runiq.Common.{ℕ, ◌≡◌, subst, inl, inr, text_eq_refl, text_eq_sound, List, map, In}
use orkai_runiq.Sql.{
  ok, World, exec-ok, query-ok, first-upsert, first_satisfies, In-map, order_by, order_by-In,
}
use orkai_runiq.Sqlite.Tables.{CronJob, CronRow, Db}
use orkai_runiq.Sqlite.Schedules.{
  has_name, named_before, get_cron_schedules, put_schedule, cron_row, save_cron_schedule,
}

put_schedule-In :
    (c : CronJob) (now : ℕ) (db : Db) → In (cron_row c now) (put_schedule c now db).cron_schedules
put_schedule-In c now db =
    elim (first-upsert (has_name c.name) (λ r. cron_row (record c { name = r.cron.name }) now)
      (cron_row c now) db.cron_schedules (λ x h. h) (text_eq_refl c.name)) [
        | inl e ↦ (first_satisfies _ (put_schedule c now db).cron_schedules _ e).0
        | inr (a, was, e) ↦
            subst
              (λ n.
                In (cron_row (record c { name = n }) now) (put_schedule c now db).cron_schedules)
              (text_eq_sound a.cron.name c.name (first_satisfies _ db.cron_schedules a was).1)
              (first_satisfies _ (put_schedule c now db).cron_schedules _ e).0
      ]

-- A cron schedule that has been saved is in the list that is read next, as it was saved.
pub save_cron_schedule-get_cron_schedules :
    (c : CronJob) (w w' v v' : World Db) (crons : List CronJob)
    → save_cron_schedule c w ≡ (ok tt, w')
    → v.db ≡ w'.db
    → get_cron_schedules v ≡ (ok crons, v')
    → In c crons
unfolding save_cron_schedule get_cron_schedules
save_cron_schedule-get_cron_schedules c w w' v v' crons saved same read =
    let (listed, kept) =
      query-ok
        (λ _ (db : Db). map (λ (r : CronRow). r.cron) (order_by named_before db.cron_schedules)) v
        read in
    let put = exec-ok (put_schedule c) w saved in
    rw (listed, same, put)
      (In-map (λ (r : CronRow). r.cron) _ (cron_row c _)
        (order_by-In named_before _ _ (put_schedule-In c _ w.db)))

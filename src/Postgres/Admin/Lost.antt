-- ===== src/Postgres/Admin/Lost.antt =====
-- Jobs that are in the archive already: queue/postgres.go, ArchiveJobs.
use orkai_runiq.Common.{
  ℕ, ℤ, ◌≡◌, refl, ap, ◌∙◌, subst, Text, text_eq_sound, true, false, List, [], ◌∷◌, ◌++◌, In, inl,
  inr, Bool-cases, arith, shift,
}
use orkai_runiq.Sql.{
  ok, World, exec, time_now, ◌>>=◌, bind-ok, exec-ok, statement-ok, transaction_if-ok, next, select,
  exists, not_deleted,
}
use orkai_runiq.Sqlite.Tables.{JobRow, Db, has_job_id}
use orkai_runiq.Sqlite.Admin.{negated, is_old}
use orkai_runiq.Postgres.{transaction_from, always}
use orkai_runiq.Postgres.Admin.{
  archive_row, archive_rows, copy_to_archive, delete_jobs, archive_tx, archive_jobs,
}

-- The rows of an identifier.
abbrev pub rows_of : Text → List JobRow → List JobRow
rows_of id rows = select (has_job_id id) rows

exists-append :
    (id : Text) (rows : List JobRow) (r : JobRow)
    → exists (has_job_id id) rows ≡ true
    → exists (has_job_id id) (rows ++ r ∷ []) ≡ true
exists-append id [] r h = absurd (ground (arith, h))
exists-append id (x ∷ rows) r h = elim (Bool-cases (has_job_id id x)) [
  | inl e ↦ rw e refl
  | inr e ↦ rw e (exists-append id rows r (rw e at h))
]

rows_of-append :
    (id : Text) (rows : List JobRow) (r : JobRow)
    → has_job_id id r ≡ false
    → rows_of id (rows ++ r ∷ []) ≡ rows_of id rows
rows_of-append id [] r h = rw h refl
rows_of-append id (x ∷ rows) r h = elim (Bool-cases (has_job_id id x)) [
  | inl e ↦ rw e (ap (λ l. x ∷ l) (rows_of-append id rows r h))
  | inr e ↦ rw e (rows_of-append id rows r h)
]

archive_row-same :
    (id : Text) (archived : List JobRow) (r : JobRow)
    → exists (has_job_id id) archived ≡ true
    → (exists (has_job_id id) (archive_row archived r) ≡ true)
      × (rows_of id (archive_row archived r) ≡ rows_of id archived)
archive_row-same id archived r h = elim (Bool-cases (exists (has_job_id r.job_id) archived)) [
  | inl e ↦ rw e (h, refl)
  | inr e ↦ rw e (exists-append id archived r h, rows_of-append id archived r (another e))
]
  where
    another : exists (has_job_id r.job_id) archived ≡ false → has_job_id id r ≡ false
    another e = elim (Bool-cases (has_job_id id r)) [
      | inl q ↦ absurd (
          ground (
            arith,
            h,
            subst (λ x. exists (has_job_id x) archived ≡ false) (text_eq_sound r.job_id id q) e,
          ))
      | inr q ↦ q
    ]

archive_rows-same :
    (id : Text) (archived rows : List JobRow)
    → exists (has_job_id id) archived ≡ true
    → rows_of id (archive_rows archived rows) ≡ rows_of id archived
unfolding archive_rows
archive_rows-same id archived [] h = refl
archive_rows-same id archived (r ∷ rows) h =
    let (there, same) = archive_row-same id archived r h in
    archive_rows-same id (archive_row archived r) rows there ∙ same

-- Two statements, the second on what the first has left.
archived :
    (cutoff n : ℕ) (w w' : World Db)
    → archive_tx cutoff w ≡ (ok n, w')
    → w'.db ≡ delete_jobs (is_old cutoff) (copy_to_archive cutoff w.db)
unfolding archive_tx
archived cutoff n w w' h =
    let (u, v, first, rest) = bind-ok (exec (λ _. copy_to_archive cutoff)) _ w h in
    let copied = exec-ok (λ _. copy_to_archive cutoff) w first in
    let deleted = statement-ok _ v rest in ground (arith, copied, deleted)

-- When ArchiveJobs succeeds, a job that it counts as old and whose identifier was in the archive before
-- is gone from the jobs, and the rows of its identifier in the archive are those of before: what the job
-- held is kept nowhere.
pub archive_jobs_loses :
    (age : ℤ) (n : ℕ) (w w' : World Db) (r : JobRow)
    → archive_jobs age w ≡ (ok n, w')
    → is_old (shift (w.outside.clock w.step) (negated age)) r ≡ true
    → exists (has_job_id r.job_id) w.db.archived_jobs ≡ true
    → (In r w'.db.jobs → ⊥)
      × (rows_of r.job_id w'.db.archived_jobs ≡ rows_of r.job_id w.db.archived_jobs)
unfolding archive_jobs transaction_from time_now ◌>>=◌
archive_jobs_loses age n w w' r h old there =
    let cutoff = shift (w.outside.clock w.step) (negated age) in
    let (w1, run, same) = transaction_if-ok always (archive_tx cutoff) (next w) h refl in
    let after : w'.db ≡ delete_jobs (is_old cutoff) (copy_to_archive cutoff w.db) =
      same ∙ archived cutoff n (next (next w)) w1 run in
    (
      (λ i. absurd (
          ground (
            arith,
            old,
            not_deleted (is_old cutoff) w.db.jobs r
                (subst (In r) (ap (λ (db : Db). db.jobs) after) i),
          ))),
      ap (λ (db : Db). rows_of r.job_id db.archived_jobs) after
          ∙ archive_rows-same r.job_id w.db.archived_jobs (select (is_old cutoff) w.db.jobs) there,
    )

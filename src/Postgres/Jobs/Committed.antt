-- ===== src/Postgres/Jobs/Committed.antt =====
-- queue/postgres.go, tryLockJob: the row that it sets to running, and the others.
use orkai_runiq.Common.{
  ℕ, ◌≡◌, ◌≢◌, refl, sym, ◌∙◌, Text, text_eq, text_eq_ne, text_eq_sound, Bool, true, false, some,
  List, [], ◌∷◌, inl, inr, arith, Bool-cases,
}
use orkai_runiq.Sql.{exists, first, update}
use orkai_runiq.Sqlite.Tables.{JobRow, Db, has_job_id}
use orkai_runiq.Postgres.Jobs.{is_free, running_row, lock_row_of}

-- There is a pending row of this identifier.
abbrev pub free : Text → Db → Bool
free id db = exists (is_free id) db.jobs

-- The row that is committed.
not_free :
    (id : Text) (t : ℕ) (rows : List JobRow)
    → exists (is_free id) (update (has_job_id id) (running_row t) rows) ≡ false
not_free id t [] = refl
not_free id t (r ∷ rows) = elim (Bool-cases (has_job_id id r)) [
  | inl e ↦ rw (e, e) (not_free id t rows)
  | inr e ↦ rw (e, e) (not_free id t rows)
]

other_free :
    (x id : Text) (t : ℕ) (rows : List JobRow)
    → x ≢ id
    → exists (is_free x) (update (has_job_id id) (running_row t) rows) ≡ exists (is_free x) rows
other_free x id t [] ne = refl
other_free x id t (r ∷ rows) ne =
    let ih = other_free x id t rows ne in
    elim (Bool-cases (has_job_id id r)) [
      | inl e ↦
          let f : text_eq r.job_id x ≡ false =
            text_eq_ne r.job_id x (λ q. ne (sym q ∙ text_eq_sound r.job_id id e)) in
          rw (e, f) ih
      | inr e ↦ rw (e, ih) refl
    ]

found_row :
    (id : Text) (rows : List JobRow)
    → exists (is_free id) rows ≡ true
    → (r : JobRow) × (first (is_free id) rows ≡ some r)
found_row id [] h = absurd (ground (arith, h))
found_row id (r ∷ rows) h = elim (Bool-cases (is_free id r)) [
  | inl e ↦ (r, rw e refl)
  | inr e ↦ let (x, f) = found_row id rows (rw e at h) in (x, rw e f)
]

-- The committed state after a commit.
pub after_commit :
    (id : Text) (t : ℕ) (db : Db)
    → free id db ≡ true
    → (free id (lock_row_of id t db (first (is_free id) db.jobs)).1 ≡ false)
      × ((x : Text)
          → x ≢ id
          → free x (lock_row_of id t db (first (is_free id) db.jobs)).1 ≡ free x db)
after_commit id t db h =
    let (r, f) = found_row id db.jobs h in
    rw f (not_free id t db.jobs, λ x ne. other_free x id t db.jobs ne)

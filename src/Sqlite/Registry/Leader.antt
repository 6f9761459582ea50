-- ===== src/Sqlite/Registry/Leader.antt =====
-- Which process GetActiveProcesses calls the leader.
use orkai_runiq.Common.{
  ℕ, suc, ◌≡◌, ◌≢◌, refl, sym, ◌∙◌, ap, subst, inl, inr, Text, text_eq, true, false, Option, none,
  some, List, [], ◌∷◌, map, In, ltb, arith, Bool-cases, shift,
}
use orkai_runiq.Sql.{
  Error, Result, ok, err, World, exec, query, statement, pure, time_now, attempt, ◌>>=◌, next,
  order_by,
}
use orkai_runiq.Sqlite.Tables.{LeaseRow, ProcessRow, Db}
use orkai_runiq.Sqlite.Registry.{
  ProcessInfo, beats_later, scan_processes, mark_holder, mark_with, mark_leader,
  get_active_processes, forget_processes, fifteen_seconds,
}
use orkai_runiq.Sqlite.Admin.{negated}

NoLeader : List ProcessInfo → Type 0
NoLeader ps = (p : ProcessInfo) → In p ps → p.is_leader ≡ false

scanned_rows :
    (rs : List ProcessRow) → NoLeader (map (λ r. record { row = r; is_leader = false }) rs)
unfolding NoLeader
scanned_rows [] p i = absurd i
scanned_rows (r ∷ rs) p (inl e) = ap (λ (q : ProcessInfo). q.is_leader) e
scanned_rows (r ∷ rs) p (inr i) = scanned_rows rs p i

true_ne : true ≢ false
true_ne q = ground arith

mark_holder-In :
    (leader : Text) (ps : List ProcessInfo) (p : ProcessInfo)
    → NoLeader ps
    → In p (mark_holder leader ps)
    → p.is_leader ≡ true
    → text_eq p.row.process_id leader ≡ true
unfolding mark_holder NoLeader
mark_holder-In leader [] p k i h = absurd i
mark_holder-In leader (q ∷ ps) p k (inl e) h = elim (Bool-cases (text_eq q.row.process_id leader)) [
  | inl own ↦ rw e (rw own own)
  | inr other ↦
      absurd
        (true_ne (sym h ∙ ap (λ (x : ProcessInfo). x.is_leader) (rw other at e) ∙ k q (inl refl)))
]
mark_holder-In leader (q ∷ ps) p k (inr i) h = mark_holder-In leader ps p (λ x j. k x (inr j)) i h

-- The lease that was read names the process, and was not past.
pub record IsLeading (p : ProcessInfo) (now : ℕ) (db : Db) : Type 0 where
  pub lease : LeaseRow
  pub read : db.leader ≡ some lease
  pub named : text_eq p.row.process_id lease.holder_id ≡ true
  pub lasts : ltb lease.expires_at now ≡ false

parts :
    (xs ps : List ProcessInfo) (u w' : World Db)
    → ◌≡◌ {A = Result (List ProcessInfo) × World Db} (ok xs, u) (ok ps, w')
    → (xs ≡ ps) × (u.db ≡ w'.db)
parts xs ps u w' h = ground arith

failed_ne :
    {e : Error} {u w' : World Db} {ps : List ProcessInfo}
    → ◌≢◌ {A = Result (List ProcessInfo) × World Db} (err e, u) (ok ps, w')
failed_ne q = ground arith

-- What marking with a lease that was read tells.
record IsMarked (p : ProcessInfo) (lease : Option LeaseRow) (now : ℕ) : Type 0 where
  holder : LeaseRow
  found : lease ≡ some holder
  matches : text_eq p.row.process_id holder.holder_id ≡ true
  good : ltb holder.expires_at now ≡ false

mark_with-IsMarked :
    (lease : Option LeaseRow) (list ps : List ProcessInfo) (p : ProcessInfo) (u w' : World Db)
    → NoLeader list
    → mark_with lease list u ≡ (ok ps, w')
    → In p ps
    → p.is_leader ≡ true
    → IsMarked p lease (u.outside.clock u.step) × (u.db ≡ w'.db)
unfolding mark_with ◌>>=◌ time_now pure NoLeader
mark_with-IsMarked none list ps p u w' none_yet h i leads =
    absurd (true_ne (sym leads ∙ none_yet p (subst (In p) (sym (parts list ps u w' h).0) i)))
mark_with-IsMarked (some l) list ps p u w' none_yet h i leads =
    elim (Bool-cases (ltb l.expires_at (u.outside.clock u.step))) [
      | inl past ↦
          let (same, db) = parts list ps (next u) w' (rw past at h) in
          absurd (true_ne (sym leads ∙ none_yet p (subst (In p) (sym same) i)))
      | inr lasts ↦
          let (same, db) = parts (mark_holder l.holder_id list) ps (next u) w' (rw lasts at h) in
          (
            record {
              holder = l;
              found = refl;
              matches =
                  mark_holder-In l.holder_id list p none_yet (subst (In p) (sym same) i) leads;
              good = lasts;
            },
            db,
          )
    ]

mark_leader-IsLeading :
    (list ps : List ProcessInfo) (p : ProcessInfo) (w w' : World Db)
    → NoLeader list
    → mark_leader list w ≡ (ok ps, w')
    → In p ps
    → p.is_leader ≡ true
    → IsLeading p (w.outside.clock (suc w.step)) w'.db
unfolding mark_leader ◌>>=◌ query statement
mark_leader-IsLeading list ps p w w' none_yet h i leads =
    elim (Bool-cases (w.outside.fails w.step)) [
      | inl b ↦ absurd (failed_ne (rw b at h))
      | inr b ↦
          let (m, db) =
            mark_with-IsMarked w.db.leader list ps p (next w) w' none_yet (rw b at h) i leads in
          record {
            lease = m.holder;
            read = ap (λ (d : Db). d.leader) (sym db) ∙ m.found;
            named = m.matches;
            lasts = m.good;
          }
    ]

scanned : (db : Db) → NoLeader (scan_processes db)
unfolding scan_processes
scanned db = scanned_rows (order_by beats_later db.processes)

-- The database after the clean-up, and the world after the rows are read.
abbrev cleared : World Db → Db
cleared w = forget_processes (shift (w.outside.clock w.step) (negated fifteen_seconds)) w.db

abbrev later : World Db → Db → World Db
later w db = record { outside = w.outside; step = suc (suc (suc w.step)); db = db }

-- A process that GetActiveProcesses reports as the leader is named by the lease that is stored, and
-- the lease was not past when the call read the clock for the last time.
pub get_active_processes-IsLeading :
    (ps : List ProcessInfo) (p : ProcessInfo) (w w' : World Db)
    → get_active_processes w ≡ (ok ps, w')
    → In p ps
    → p.is_leader ≡ true
    → IsLeading p (w.outside.clock (suc (suc (suc (suc w.step))))) w'.db
unfolding get_active_processes ◌>>=◌ query statement time_now exec attempt
get_active_processes-IsLeading ps p w w' h i leads =
    elim (Bool-cases (w.outside.fails (suc w.step))) [
      | inl a ↦ elim (Bool-cases (w.outside.fails (suc (suc w.step)))) [
        | inl b ↦ absurd (failed_ne (rw (a, b) at h))
        | inr b ↦
            mark_leader-IsLeading (scan_processes w.db) ps p (later w w.db) w' (scanned w.db)
              (rw (a, b) at h) i leads
      ]
      | inr a ↦ elim (Bool-cases (w.outside.fails (suc (suc w.step)))) [
        | inl b ↦ absurd (failed_ne (rw (a, b) at h))
        | inr b ↦
            mark_leader-IsLeading (scan_processes (cleared w)) ps p (later w (cleared w)) w'
              (scanned (cleared w)) (rw (a, b) at h) i leads
      ]
    ]

-- ===== src/Sqlite/Stats/Sums.antt =====
-- Sums over the groups and the queues of GetStats: queue/sqlite_admin.go, accumulateStats, and
-- getMonitoredPendingCount of queue/autoscaler.go.
use orkai_runiq.Common.{
  ℕ, suc, ◌+◌, ℤ, pos, ◌+ℤ◌, +ℤ_parts, eq_of_parts, ◌≡◌, refl, sym, ap, ◌∙◌, Text, text_eq,
  text_eq_sound, Bool, true, false, ◌&&◌, List, [], ◌∷◌, inl, inr, arith, Bool-cases, and_parts,
  if◌then◌else◌,
}
use orkai_runiq.Queue.{QueueStats}
use orkai_runiq.Autoscaler.{monitors, pending_of}
use orkai_runiq.Sql.{Result, ok, err, count}
use orkai_runiq.Sqlite.Tables.{
  Status, pending, running, processed, dead, blocked, failed, JobRow, is_pending,
}
use orkai_runiq.Sqlite.Counts.{
  Stats, no_jobs_of, get_or_create_queue_stats, add_to_queue, Group, same_status, count_row,
  group_rows, accumulate_stats, scan_queue_stats_rows, pause_stats, mark_paused,
}

abbrev pub is_processed : Status → Bool
is_processed processed = true
is_processed _ = false

abbrev pub size_if : Bool → ℕ → ℕ
size_if b n = if b then n else 0

pub same_status-eq : (s t : Status) → same_status s t ≡ true → s ≡ t
same_status-eq s t h = ground arith

pub size_suc : (b : Bool) (n k : ℕ) → size_if b (suc n) + k ≡ size_if b n + k + size_if b 1
size_suc b n k = ground arith

module _ (p : Text → Status → Bool) where
  -- The rows in the groups that satisfy p.
  abbrev pub sum : List Group → ℕ
  sum [] = 0
  sum (g ∷ gs) = size_if (p g.queue g.status) g.size + sum gs

  pub sum-count_row :
      (r : JobRow) (gs : List Group)
      → sum (count_row r gs) ≡ sum gs + size_if (p r.queue r.status) 1
  unfolding count_row
  sum-count_row r [] = ground arith
  sum-count_row r (g ∷ gs) =
      elim (Bool-cases (text_eq g.queue r.queue && same_status g.status r.status)) [
        | inl e ↦
            let (q, s) = and_parts e in
            let same : p g.queue g.status ≡ p r.queue r.status =
              ap (λ x. p x g.status) (text_eq_sound g.queue r.queue q)
              ∙ ap (p r.queue) (same_status-eq g.status r.status s) in
            rw (e, same) (size_suc (p r.queue r.status) g.size (sum gs))
        | inr e ↦ rw (e, sum-count_row r gs) (omega arith)
      ]

  pub sum-group_rows :
      (rows : List JobRow) → sum (group_rows rows) ≡ count (λ r. p r.queue r.status) rows
  unfolding group_rows
  sum-group_rows [] = refl
  sum-group_rows (r ∷ rows) =
      let ih = sum-group_rows rows in
      let step = sum-count_row r (group_rows rows) in
      elim (Bool-cases (p r.queue r.status)) [
        | inl e ↦ rw (step, ih, e) (omega arith)
        | inr e ↦ rw (step, ih, e) (omega arith)
      ]

pub plus_zero : (a : ℤ) → a ≡ a +ℤ pos 0
plus_zero a = eq_of_parts _ _ (omega (arith, +ℤ_parts a (pos 0)))

pub added :
    (s : Status) (n : ℕ) (x : QueueStats)
    → ((add_to_queue s (pos n) x).name ≡ x.name)
      × ((add_to_queue s (pos n) x).pending ≡ x.pending +ℤ pos (size_if (is_pending s) n))
added pending n x = (refl, refl)
added running n x = (refl, plus_zero x.pending)
added processed n x = (refl, plus_zero x.pending)
added dead n x = (refl, plus_zero x.pending)
added blocked n x = (refl, plus_zero x.pending)
added failed n x = (refl, plus_zero x.pending)

pub zero_plus : (a : ℤ) → a ≡ pos 0 +ℤ a
zero_plus a = eq_of_parts _ _ (omega (arith, +ℤ_parts (pos 0) a))

pub swap : (a b c : ℤ) → (a +ℤ b) +ℤ c ≡ (a +ℤ c) +ℤ b
swap a b c =
    eq_of_parts _ _
      (omega (arith, +ℤ_parts (a +ℤ b) c, +ℤ_parts a b, +ℤ_parts (a +ℤ c) b, +ℤ_parts a c))

pub inside : (a b c : ℤ) → a +ℤ (b +ℤ c) ≡ (a +ℤ b) +ℤ c
inside a b c =
    eq_of_parts _ _
      (omega (arith, +ℤ_parts a (b +ℤ c), +ℤ_parts b c, +ℤ_parts (a +ℤ b) c, +ℤ_parts a b))

pub plus_pos : (a : ℤ) (m n : ℕ) → (a +ℤ pos m) +ℤ pos n ≡ a +ℤ pos (m + n)
plus_pos a m n =
    eq_of_parts _ _
      (omega (arith, +ℤ_parts (a +ℤ pos m) (pos n), +ℤ_parts a (pos m), +ℤ_parts a (pos (m + n))))

-- An entry that a function gives so many more pending jobs.
pub pending_of-get_or_create :
    (ms : List Text) (f : QueueStats → QueueStats) (n : ℕ) (q : Text)
    → ((x : QueueStats) → ((f x).name ≡ x.name) × ((f x).pending ≡ x.pending +ℤ pos n))
    → (m : List QueueStats)
    → pending_of ms (get_or_create_queue_stats f q m)
      ≡ pending_of ms m +ℤ pos (size_if (monitors q ms) n)
unfolding get_or_create_queue_stats pending_of
pending_of-get_or_create ms f n q gives [] =
    let (name, pend) = gives (no_jobs_of q) in
    elim (Bool-cases (monitors q ms)) [
      | inl e ↦ rw (name, e, pend) (sym (plus_zero _))
      | inr e ↦ rw (name, e) (plus_zero _)
    ]
pending_of-get_or_create ms f n q gives (x ∷ xs) = elim (Bool-cases (text_eq x.name q)) [
  | inl e ↦
      let (name, pend) = gives x in
      let same : monitors x.name ms ≡ monitors q ms =
        ap (λ k. monitors k ms) (text_eq_sound x.name q e) in
      elim (Bool-cases (monitors q ms)) [
        | inl on ↦ rw (e, name, pend, same, on) (swap x.pending (pos n) (pending_of ms xs))
        | inr off ↦ rw (e, name, pend, same, off) (plus_zero _)
      ]
  | inr e ↦
      let ih = pending_of-get_or_create ms f n q gives xs in
      elim (Bool-cases (monitors x.name ms)) [
        | inl on ↦ rw (e, on, ih) (inside _ _ _)
        | inr off ↦ rw (e, off, ih) refl
      ]
]

-- The pending jobs of the queues in the list.
abbrev pub monitored : List Text → Text → Status → Bool
monitored ms q s = monitors q ms && is_pending s

pub size_if-and : (a b : Bool) (n : ℕ) → size_if a (size_if b n) ≡ size_if (a && b) n
size_if-and a b n = ground arith

pub pending_of-scan :
    (ms : List Text) (gs : List Group) (acc : Stats × List QueueStats)
    → pending_of ms (scan_queue_stats_rows gs acc).1
      ≡ pending_of ms acc.1 +ℤ pos (sum (monitored ms) gs)
unfolding scan_queue_stats_rows accumulate_stats
pending_of-scan ms [] acc = plus_zero _
pending_of-scan ms (g ∷ gs) (stats, m) =
    pending_of-scan ms gs (accumulate_stats g (stats, m))
    ∙ ap (λ x. x +ℤ pos (sum (monitored ms) gs))
        (pending_of-get_or_create ms (add_to_queue g.status (pos g.size))
          (size_if (is_pending g.status) g.size) g.queue (added g.status g.size) m)
    ∙ plus_pos _ _ _
    ∙ ap (λ k. pending_of ms m +ℤ pos (k + sum (monitored ms) gs))
        (size_if-and (monitors g.queue ms) (is_pending g.status) g.size)

pub pending_of-mark_paused :
    (ms : List Text) (r : Result (List Text)) (m : List QueueStats)
    → pending_of ms (mark_paused r m) ≡ pending_of ms m
unfolding mark_paused
pending_of-mark_paused ms (err e) m = refl
pending_of-mark_paused ms (ok []) m = refl
pending_of-mark_paused ms (ok (q ∷ qs)) m =
    pending_of-mark_paused ms (ok qs) (get_or_create_queue_stats pause_stats q m)
    ∙ pending_of-get_or_create ms pause_stats 0 q (λ x. (refl, plus_zero x.pending)) m
    ∙ no_more (monitors q ms)
  where
    no_more : (b : Bool) → pending_of ms m +ℤ pos (size_if b 0) ≡ pending_of ms m
    no_more true = sym (plus_zero _)
    no_more false = sym (plus_zero _)

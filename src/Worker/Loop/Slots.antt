-- ===== src/Worker/Loop/Slots.antt =====
-- How many jobs a pool runs, and what it still starts after it has been told to stop.
use orkai_runiq.Common.{ℕ, suc, ◌+◌, ◌≤◌, ◌≡◌, refl, Bool, true, false, arith, if◌then◌else◌}
use orkai_runiq.Worker.Loop.{
  Place, checking, selecting, fetching, waiting, returned, Loop, Step, cancel, go_on, stop, acquire,
  give_up, no_job, spawn, finish, scale_down, scale_up, all_done, time_out, Run, here, quiet,
  starts,
}

-- The token of a fetch that is under way.
abbrev pub fetch_token : Place → ℕ
fetch_token fetching = 1
fetch_token _ = 0

pub record IsCounted (capacity : ℕ) (s : Loop) : Type 0 where
  pub tokens : s.tokens + s.taken_out ≡ fetch_token s.place + s.active + s.put_in
  pub room : s.tokens ≤ capacity

Step-IsCounted :
    {capacity : ℕ} {s t : Loop} {b : Bool}
    → Step capacity s b t
    → IsCounted capacity s
    → IsCounted capacity t
Step-IsCounted cancel c = ground (arith, c.tokens, c.room)
Step-IsCounted (go_on p q) c = ground (arith, c.tokens, c.room)
Step-IsCounted (stop p q) c = ground (arith, c.tokens, c.room)
Step-IsCounted (acquire p q) c = ground (arith, c.tokens, c.room)
Step-IsCounted (give_up p q) c = ground (arith, c.tokens, c.room)
Step-IsCounted (no_job p q) c = ground (arith, c.tokens, c.room)
Step-IsCounted (spawn p) c = ground (arith, c.tokens, c.room)
Step-IsCounted (finish p q) c = ground (arith, c.tokens, c.room)
Step-IsCounted (scale_down p) c = ground (arith, c.tokens, c.room)
Step-IsCounted (scale_up p) c = ground (arith, c.tokens, c.room)
Step-IsCounted (all_done p q) c = ground (arith, c.tokens, c.room)
Step-IsCounted (time_out p) c = ground (arith, c.tokens, c.room)

Run-IsCounted :
    {capacity : ℕ} {s : Loop} {n : ℕ} {t : Loop}
    → Run capacity s n t
    → IsCounted capacity s
    → IsCounted capacity t
Run-IsCounted here c = c
Run-IsCounted (quiet r st) c = Step-IsCounted st (Run-IsCounted r c)
Run-IsCounted (starts r st) c = Step-IsCounted st (Run-IsCounted r c)

-- The jobs that a loop may still start once the context is cancelled.
abbrev pub may_start : Place → ℕ
may_start selecting = 1
may_start fetching = 1
may_start _ = 0

may_start-le : (p : Place) → 0 + may_start p ≤ 1
may_start-le selecting = omega arith
may_start-le fetching = omega arith
may_start-le checking = omega arith
may_start-le waiting = omega arith
may_start-le returned = omega arith

record IsEnding (limit started : ℕ) (s : Loop) : Type 0 where
  cancelled : s.cancelled ≡ true
  left : started + may_start s.place ≤ limit

quiet-IsEnding :
    {capacity : ℕ} {s t : Loop} {b : Bool}
    → Step capacity s b t
    → (limit n : ℕ) → IsEnding limit n s
    → IsEnding limit (if b then suc n else n) t
quiet-IsEnding cancel limit n e = record { cancelled = refl; left = e.left }
quiet-IsEnding (go_on p q) limit n e = absurd (ground (arith, e.cancelled))
quiet-IsEnding (stop p q) limit n e = ground (arith, e.cancelled, e.left)
quiet-IsEnding (acquire p q) limit n e = ground (arith, e.cancelled, e.left)
quiet-IsEnding (give_up p q) limit n e = ground (arith, e.cancelled, e.left)
quiet-IsEnding (no_job p q) limit n e = ground (arith, e.cancelled, e.left)
quiet-IsEnding (spawn p) limit n e = ground (arith, e.cancelled, e.left)
quiet-IsEnding (finish p q) limit n e = record { cancelled = e.cancelled; left = e.left }
quiet-IsEnding (scale_down p) limit n e = record { cancelled = e.cancelled; left = e.left }
quiet-IsEnding (scale_up p) limit n e = record { cancelled = e.cancelled; left = e.left }
quiet-IsEnding (all_done p q) limit n e = ground (arith, e.cancelled, e.left)
quiet-IsEnding (time_out p) limit n e = ground (arith, e.cancelled, e.left)

Run-IsEnding :
    {capacity : ℕ} {s : Loop} {n : ℕ} {t : Loop}
    → Run capacity s n t
    → (limit : ℕ) → IsEnding limit 0 s
    → IsEnding limit n t
Run-IsEnding here limit e = e
Run-IsEnding (quiet r st) limit e = quiet-IsEnding st limit _ (Run-IsEnding r limit e)
Run-IsEnding (starts r st) limit e = quiet-IsEnding st limit _ (Run-IsEnding r limit e)

-- A pool that has just been started, with so many tokens of setupSemaphore.
abbrev pub started_with : ℕ → Loop
started_with reserve = record {
  place = checking;
  cancelled = false;
  tokens = reserve;
  active = 0;
  put_in = reserve;
  taken_out = 0;
}

-- In any interleaving of the loop with the goroutines of the jobs and of the autoscaler: the jobs that
-- run and the tokens that the autoscaler has put into the semaphore are no more than its room and the
-- tokens that the autoscaler has taken out; and from a point where the context is cancelled, at most
-- one more job is started.
pub Run-bounds :
    {capacity : ℕ} (reserve : ℕ) {n : ℕ} {s : Loop} {m : ℕ} {t : Loop}
    → reserve ≤ capacity
    → Run capacity (started_with reserve) n s
    → s.cancelled ≡ true
    → Run capacity s m t
    → (t.active + t.put_in ≤ capacity + t.taken_out) × (m ≤ 1)
Run-bounds reserve {s} {m} {t} room before cancelled after =
    let begins : IsCounted _ (started_with reserve) = record {
      tokens = omega arith;
      room = room;
    } in
    let c = Run-IsCounted after (Run-IsCounted before begins) in
    let e : IsEnding 1 m t =
      Run-IsEnding after 1 (record { cancelled = cancelled; left = may_start-le s.place }) in
    (omega (arith, c.tokens, c.room), omega (arith, e.left))

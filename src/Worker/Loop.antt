-- ===== src/Worker/Loop.antt =====
-- queue/worker.go: the processing loop, its semaphore, the goroutines that run jobs, and the shutdown;
-- queue/autoscaler.go fills the semaphore up. A step is one operation on the channel sem, on the
-- WaitGroup or on the context, so a run is any interleaving of the goroutines.
pub mod Slots
use orkai_runiq.Common.{ℕ, zero, suc, ◌+◌, ◌-◌, ◌<◌, ◌≡◌, Bool, true, false}

-- Where the loop is: before it looks at the context, at the select, at fetchNext, in gracefulWait, or
-- after it.
pub data Place : Type 0 where
  checking selecting fetching waiting returned : Place

-- `tokens` are in the channel, `active` is the WaitGroup. `put_in` and `taken_out` count the sends and
-- the receives of setupSemaphore, scaleDown and scaleUp.
pub record Loop : Type 0 where
  pub place : Place
  pub cancelled : Bool
  pub tokens : ℕ
  pub active : ℕ
  pub put_in : ℕ
  pub taken_out : ℕ

-- One step, in a pool whose channel has room for so many tokens; `started` says whether it starts a job.
pub data Step (capacity : ℕ) (s : Loop) : Bool → Loop → Type 0 where
  -- the context is cancelled
  cancel : Step capacity s false (record s { cancelled = true })
  -- runProcessingLoop
  go_on :
      s.place ≡ checking
      → s.cancelled ≡ false
      → Step capacity s false (record s { place = selecting })
  stop :
      s.place ≡ checking → s.cancelled ≡ true → Step capacity s false (record s { place = waiting })
  -- acquireAndProcess
  acquire :
      s.place ≡ selecting
      → s.tokens < capacity
      → Step capacity s false (record s { place = fetching; tokens = s.tokens + 1 })
  give_up :
      s.place ≡ selecting
      → s.cancelled ≡ true
      → Step capacity s false (record s { place = checking })
  -- fetchAndSpawn, without a job and with one
  no_job :
      s.place ≡ fetching
      → 0 < s.tokens
      → Step capacity s false (record s { place = checking; tokens = s.tokens - 1 })
  spawn :
      s.place ≡ fetching
      → Step capacity s true (record s { place = checking; active = s.active + 1 })
  -- runJobWithSemaphore, whose deferred function takes a token out
  finish :
      0 < s.active
      → 0 < s.tokens
      → Step capacity s false (record s { tokens = s.tokens - 1; active = s.active - 1 })
  -- a turn of the loops of scaleDown and scaleUp, which run beside the processing loop
  scale_down :
      s.tokens < capacity
      → Step capacity s false (record s { tokens = s.tokens + 1; put_in = s.put_in + 1 })
  scale_up :
      0 < s.tokens
      → Step capacity s false (record s { tokens = s.tokens - 1; taken_out = s.taken_out + 1 })
  -- gracefulWait: the WaitGroup is done, or the timeout has passed
  all_done :
      s.place ≡ waiting → s.active ≡ 0 → Step capacity s false (record s { place = returned })
  time_out : s.place ≡ waiting → Step capacity s false (record s { place = returned })

-- A run, with the number of jobs that it starts.
pub data Run (capacity : ℕ) (s : Loop) : ℕ → Loop → Type 0 where
  here : Run capacity s 0 s
  quiet : {n : ℕ} {t u : Loop} → Run capacity s n t → Step capacity t false u → Run capacity s n u
  starts :
      {n : ℕ} {t u : Loop} → Run capacity s n t → Step capacity t true u → Run capacity s (suc n) u

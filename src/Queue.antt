-- ===== src/Queue.antt =====
-- queue/queue.go: the job envelope that clients, storages and workers exchange.
use orkai_runiq.Common.{ℕ, ℤ, Text, Bool, Option, List}

pub record TraceContext : Type 0 where
  pub trace_id : Text
  pub span_id : Text

-- Priorities and attempt limits are Go ints. Instants are nanoseconds since the epoch.
pub record JobEnvelope : Type 0 where
  pub trace_context : TraceContext
  pub args : List ℕ
  pub dependencies : List Text
  pub tags : List Text
  pub job_id : Text
  pub queue : Text
  pub name : Text
  pub unique_key : Text
  pub batch_id : Text
  pub run_at : Option ℕ
  pub unique_ttl : ℤ
  pub priority : ℤ
  pub attempts : ℤ
  pub max_attempts : ℤ

-- Of Stats, the counts of one queue.
pub record QueueStats : Type 0 where
  pub name : Text
  pub pending : ℤ
  pub running : ℤ
  pub failed : ℤ
  pub processed : ℤ
  pub paused : Bool

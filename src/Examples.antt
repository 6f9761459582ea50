-- ===== src/Examples.antt =====
-- Databases and runs on which the theorems are exercised.
pub mod Jobs
pub mod Locks
pub mod Outcomes
pub mod Processes
pub mod Numbers
pub mod Parts
pub mod Clients
pub mod Workers
pub mod Recurring
pub mod Postgres
pub mod Counts
use orkai_runiq.Common.{ℕ, ℤ, pos, ◌+◌, ◌*◌, Text, codes, Bool, false, Option, none, List, [], ◌∷◌}
use orkai_runiq.Queue.{JobEnvelope}
use orkai_runiq.Helpers.{second}
use orkai_runiq.Sql.{World}
use orkai_runiq.Sqlite.Tables.{Status, JobRow, DependencyRow, Db}

-- ten seconds, then one more at every step
abbrev pub seconds_pass : ℕ → ℕ
seconds_pass n = (10 + n) * second

abbrev pub works : ℕ → Bool
works n = false

abbrev pub fresh_id : ℕ → Text
fresh_id n = b'c' ∷ n ∷ []

abbrev pub sunny : Db → World Db
sunny db = record {
  outside = record { clock = seconds_pass; fails = works; job_id = fresh_id };
  step = 0;
  db = db;
}

abbrev pub job_row : Text → Status → ℕ → JobRow
job_row id status attempts = record {
  job_id = id;
  queue = codes "mail";
  name = codes "send";
  args = [];
  trace_id = [];
  span_id = [];
  status = status;
  attempts = attempts;
  max_attempts = pos 3;
  error_message = [];
  created_at = 0;
  updated_at = 0;
  locked_at = none;
  run_at = none;
  unique_key = [];
  batch_id = [];
  priority = pos 0;
  tags = [];
}

abbrev pub envelope : Text → JobEnvelope
envelope id = record {
  trace_context = record { trace_id = []; span_id = [] };
  args = [];
  dependencies = [];
  tags = [];
  job_id = id;
  queue = codes "mail";
  name = codes "send";
  unique_key = codes "k";
  batch_id = [];
  run_at = none;
  unique_ttl = pos (60 * second);
  priority = pos 0;
  attempts = pos 0;
  max_attempts = pos 3;
}

abbrev pub depends : Text → Text → DependencyRow
depends id parent = record { job_id = id; parent_job_id = parent }

abbrev pub id_a : Text
id_a = codes "a"

abbrev pub id_b : Text
id_b = codes "b"

abbrev pub id_c : Text
id_c = codes "c"

-- ===== src/Sqlite.antt =====
-- queue/sqlite*.go: the SQLite storage.
pub mod Tables
pub mod Unique
pub mod Jobs
pub mod Burial
pub mod Progress
pub mod Outcome
pub mod Workflow
pub mod Batch
pub mod Admin
pub mod Process
pub mod Registry
pub mod Schedules
pub mod Counts
pub mod Stats
pub mod Calls
pub mod Transactions

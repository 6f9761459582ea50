-- ===== src/Lib.antt =====
-- Verification of Runiq, a job queue in Go with a storage interface that SQLite, PostgreSQL and Redis
-- implement.
--
-- What is modelled
-- ----------------
-- Clients enqueue job envelopes; workers dequeue them, run them and report with Ack or Fail; an
-- administrator retries, cancels, purges and pauses. All of this meets in the storage: every call is
-- one or more SQL statements, most calls in one transaction. The development models the SQLite and the
-- PostgreSQL storage, the helpers that the storages share, the client with its circuit breaker and
-- encryption, the worker pool, the cron expressions and the autoscaler.
--
--   Queue        queue/queue.go: JobEnvelope, TraceContext and QueueStats.
--   Helpers      queue/helpers.go: ComputeBackoffDelay, getRunAt, getMaxAttempts, matchTags.
--                Helpers/Backoff and Helpers/Tags prove what they compute.
--   Sql          What the Go code asks of database/sql and of SQLite: rows and their queries (Rows),
--                statements, transactions and errors (Statements), and the rules to reason about
--                actions: Invariants (what an action keeps), Success (what a success tells of its
--                parts), Triples (what a success gives), Atomicity (all or nothing), Fuel (no action
--                stops for want of fuel), Queries (lemmas on rows).
--   Sqlite       queue/sqlite*.go, the method names in snake case:
--     Tables       sqliteTables in queue/sqlite.go
--     Unique       acquireUniqueLock and what it calls, deleteUniqueLock
--     Jobs         Enqueue, Dequeue
--     Burial       transitionToDead, cascadeDependencyFailure, failChildren
--     Progress     handleBatchAck and what it calls
--     Outcome      Ack, Fail, Cancel, with resolveDependencies and checkBlockedChildren
--     Workflow     EnqueueWorkflow
--     Batch        CreateBatch, EnqueueInBatch, SubmitBatch, FailExpiredBatches
--     Admin        Retry, RetryModified, the bulk and purge operations, ClearQueue, PauseQueue,
--                  ResumeQueue, ArchiveJobs
--     Process      AcquireLeader, ReleaseLeader, LockCronExecution, CheckRateLimit, PostponeJob,
--                  GetRunningJobsCount
--     Registry     RegisterProcess, HeartbeatProcess, GetActiveProcesses
--     Schedules    GetCronSchedules, SaveCronSchedule, DeleteCronSchedule, RegisterCronJobs
--     Counts       fetchQueueStats, applyPausedQueues and what they call
--     Stats        GetStats; Stats/Sums and Stats/Counted are proofs
--     Calls        the mutating calls above as data
--     Transactions those calls when they fail
--   Postgres     queue/postgres*.go over the tables of Sqlite, in the same split: Unique, Jobs, Burial,
--                Progress (with the batches), Outcome, Workflow, Admin, Process (with the registry),
--                Schedules. Jobs/Interleaving has Dequeue transactions beside one another;
--                Jobs/Committed, Outcome/Uncounted and Admin/Lost are proofs.
--   CircuitBreaker, Crypto, Cron, Autoscaler
--                queue/circuit_breaker.go, queue/crypto.go, queue/cron.go, queue/autoscaler.go, each with
--                a child module of proofs.
--   Client       queue/client.go and queue/batch.go over a storage that is a record of operations;
--                Client/Unique fills it with those of Sqlite.
--   Worker       queue/worker.go over a storage that is a record of operations:
--     Setup        Register, RegisterCron, RegisterInterval, Use, OnEvent, setupWeightedQueues,
--                  registerProcess and the start and end of Start
--     Fetch        fetchAndSpawn and what it calls; Fetch/Turns, Fetch/Cycle and Fetch/Limits are proofs
--     Run          executeJob and what it calls
--     Leading      checkLeader, electLeader and the work of the leader
--     Crons        EnqueueCronJob, ProcessCronJobs, mergeCronJobs; Crons/Merged is proofs
--     Intervals    ProcessIntervalJobs, EnqueueIntervalJob
--     OnSqlite     the operations of Sqlite as such a storage, and proofs over it
--     Loop         runProcessingLoop, acquireAndProcess, fetchAndSpawn, runJobWithSemaphore and
--                  gracefulWait as steps; Loop/Slots is proofs
--   Examples     databases and runs on which the theorems are exercised.
--
-- How
-- ---
-- An operation is a function from a World to a result and a World. A World has the database, a step
-- counter, and what comes from outside at each step: the clock, whether the statement at that step
-- fails, and the identifiers that generateJobID draws. Nothing is assumed of the outside but what a
-- theorem says. A statement that fails changes nothing and returns an error; a transaction that does
-- not reach COMMIT, or whose COMMIT fails, leaves the database as it was. A SQL statement is a function
-- on the tables, each a list of rows in the order of insertion; ORDER BY keeps the order of equal rows.
--
-- Instants are nanoseconds since the epoch, none before it; SQLite's CURRENT_TIMESTAMP has a resolution of
-- one second. Go ints and durations are unbounded integers, but in ComputeBackoffDelay, where the 64-bit
-- wrap-around matters and is written out. Strings are lists of bytes.
--
-- The one recursion that is not structural, the cascade along the dependencies, takes fuel; where the
-- dependencies have a rank that falls along them, fuel above the rank of the job is enough.
--
-- The worker pool is read in two ways. What one goroutine does is an action on a World whose database is
-- the storage's with the pool's own fields beside it; a goroutine that a tick starts is run where it is
-- started, and user code (jobs, middlewares) is a function on the storage. The processing loop with its
-- semaphore is a step relation, so that its interleavings with the jobs, the autoscaler and the shutdown
-- are all runs of it. Event handlers are numbers, and the calls of them are recorded in order. Time zones
-- are offsets that the time zone database gives; the calendar is computed.
--
-- Calls run one after another: SQLite runs one writing transaction at a time. Enqueue, which writes in
-- several statements outside a transaction, is modelled without another call between them. PostgreSQL
-- runs transactions beside one another, at READ COMMITTED; Postgres/Jobs/Interleaving has the steps of
-- Dequeue transactions that do. In PostgreSQL, CURRENT_TIMESTAMP is the time at which the transaction
-- began, and a statement that fails aborts the transaction, whether the code looks at the error or not.
--
-- Not modelled: Redis, the HTTP dashboard, telemetry, the command line, migrations, namespaces, the
-- read-only searches and PostgreSQL's statistics, errors while scanning a row, the driver's formatting
-- of times and the rounding of PostgreSQL's to microseconds. SQLite does not enforce foreign keys unless told to, so a
-- deleted job keeps its dependency rows; in PostgreSQL they go with it.
pub mod Common
pub mod Sql
pub mod Queue
pub mod Helpers
pub mod Sqlite
pub mod Postgres
pub mod Worker
pub mod CircuitBreaker
pub mod Crypto
pub mod Cron
pub mod Autoscaler
pub mod Client
pub mod Examples

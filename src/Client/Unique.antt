-- ===== src/Client/Unique.antt =====
-- A client over the SQLite storage: EnqueueUnique.
use orkai_runiq.Common.{
  ℕ, suc, ℤ, ◌<◌, ◌≡◌, ◌≢◌, refl, sym, ap, ◌∙◌, Text, is_empty, true, false, none, some, List,
  arith,
}
use orkai_runiq.Queue.{JobEnvelope}
use orkai_runiq.Sql.{ok, World, first, generate_job_id, ◌>>=◌}
use orkai_runiq.Sqlite.Tables.{LockRow, Db, has_lock_key}
use orkai_runiq.Sqlite.Unique.{lock_key_of}
use orkai_runiq.Sqlite.Unique.Exclusion.{enqueue_refused, lookup_fails, check_time}
use orkai_runiq.Sqlite.Unique.Holding.{enqueue_holds}
use orkai_runiq.Sqlite.Jobs
use orkai_runiq.Sqlite.Workflow
use orkai_runiq.Sqlite.Batch
use orkai_runiq.Client.{
  ClientStorage, State, Client, lift, through, execute, new_job, encrypt_envelope, send_encrypted,
  enqueue_unique,
}
use orkai_runiq.Client.Breaker.{entering}

-- The SQLite storage as a client sees it.
abbrev pub sqlite_storage : ClientStorage Db
sqlite_storage = record {
  enqueue = Jobs.enqueue;
  enqueue_workflow = Workflow.enqueue_workflow;
  create_batch = Batch.create_batch;
  enqueue_in_batch = Batch.enqueue_in_batch;
  submit_batch = Batch.submit_batch;
}

module _ (c : Client Db) (queue name : Text) (args : List ℕ) (key : Text) (ttl : ℤ) where
  abbrev pub unique_job : Text → JobEnvelope
  unique_job id = record (new_job id queue name args) {
    trace_context = c.extract_trace;
    unique_key = key;
    unique_ttl = ttl;
  }

  -- The storage's part of a call by a client without encryption and circuit breaker.
  enqueue_unique-enqueue :
      (w : World (State Db))
      → c.storage ≡ sqlite_storage
      → is_empty c.encryption_key ≡ true
      → w.db.cb ≡ none
      → ((enqueue_unique c queue name args key ttl w).0
          ≡ (Jobs.enqueue (unique_job (w.outside.job_id w.step)) (entering w (suc w.step))).0)
        × ((enqueue_unique c queue name args key ttl w).1.db.stored
            ≡ (Jobs.enqueue (unique_job (w.outside.job_id w.step)) (entering w (suc w.step))).1.db)
  unfolding enqueue_unique send_encrypted encrypt_envelope execute through lift ◌>>=◌
      generate_job_id
  enqueue_unique-enqueue w sqlite plain no_cb = rw (plain, no_cb, sqlite) (refl, refl)

module _ (c : Client Db) (queue : Text) (key : Text) (ttl ttl' : ℤ) where
  -- Through a client of the SQLite storage without encryption and circuit breaker: after EnqueueUnique
  -- has succeeded, EnqueueUnique with the same queue and key and a new identifier does not succeed and
  -- changes nothing before the lock expires, if it can look the holder up.
  pub enqueue_unique_once :
      (name name' : Text) (args args' : List ℕ) (w v : World (State Db)) (l : LockRow)
      → c.storage ≡ sqlite_storage
      → is_empty c.encryption_key ≡ true
      → is_empty key ≡ false
      → w.db.cb ≡ none
      → v.db.cb ≡ none
      → (enqueue_unique c queue name args key ttl w).0 ≡ ok tt
      → v.db.stored ≡ (enqueue_unique c queue name args key ttl w).1.db.stored
      → v.outside.job_id v.step ≢ w.outside.job_id w.step
      → first (has_lock_key (lock_key_of queue key)) v.db.stored.unique_locks ≡ some l
      → lookup_fails (entering v (suc v.step)) ≡ false
      → check_time (entering v (suc v.step)) < l.expires_at
      → ((enqueue_unique c queue name' args' key ttl' v).0 ≢ ok tt)
        × ((enqueue_unique c queue name' args' key ttl' v).1.db.stored ≡ v.db.stored)
  enqueue_unique_once name name' args args' w v l sqlite plain keyed no_cb no_cb' done same other
        held readable early =
      let (result, stored) =
        enqueue_unique-enqueue c queue name args key ttl w sqlite plain no_cb in
      let (result', stored') =
        enqueue_unique-enqueue c queue name' args' key ttl' v sqlite plain no_cb' in
      let job = unique_job c queue name args key ttl (w.outside.job_id w.step) in
      let start = entering w (suc w.step) in
      let db : v.db.stored ≡ (Jobs.enqueue job start).1.db = same ∙ stored in
      let (kept, (row, found_row, holds)) =
        enqueue_holds job start (Jobs.enqueue job start).1 keyed
          (ap (λ r. (r, (Jobs.enqueue job start).1)) (sym result ∙ done)) in
      let l_is_row : l ≡ row = ground (arith, held, db, found_row) in
      let mine : l.job_id ≡ job.job_id = ap (λ (x : LockRow). x.job_id) l_is_row ∙ holds in
      let (refused, unchanged) =
        enqueue_refused (unique_job c queue name' args' key ttl' (v.outside.job_id v.step))
          (entering v (suc v.step)) l keyed held (λ e. other (sym e ∙ mine)) (rw (mine, db) kept)
          readable early in
      ((λ q. refused (sym result' ∙ q)), stored' ∙ unchanged)

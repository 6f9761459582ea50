-- ===== src/Sqlite/Process/Leases.antt =====
-- The leader lease: queue/sqlite.go, AcquireLeader and tryAcquire.
use orkai_runiq.Common.{
  ℕ, ℤ, suc, ◌<◌, ◌≡◌, ◌≢◌, ◌⊎◌, refl, ◌∙◌, ap, Text, text_eq, text_eq_ne, Bool, true, false,
  Option, none, some, inl, inr, ltb, lt→ltb, arith, Bool-cases, shift,
}
use orkai_runiq.Sql.{
  Result, ok, err, World, exec, query, pure, time_now, next, finish, statement, ◌>>=◌,
  transaction_else,
}
use orkai_runiq.Sqlite.Tables.{LeaseRow, Db}
use orkai_runiq.Sqlite.Process.{
  write_lease, try_renew, with_lease, try_acquire, itself, acquire_leader,
}

-- The lease of the leader is one of this client, and runs from a time that the client read, at the
-- given step or the one after it.
pub record IsLeader (client : Text) (ttl : ℤ) (clock : ℕ → ℕ) (step : ℕ) (db : Db) : Type 0 where
  pub read_at : ℕ
  pub when : (read_at ≡ step) ⊎ (read_at ≡ suc step)
  pub lease :
      db.leader ≡ some (record { holder_id = client; expires_at = shift (clock read_at) ttl })

module _ (client : Text) (ttl : ℤ) where
  write_lease-ok :
      (w w' : World Db) (b : Bool)
      → write_lease client ttl w ≡ (ok b, w')
      → w'.db.leader
        ≡ some (record { holder_id = client; expires_at = shift (w.outside.clock w.step) ttl })
  unfolding write_lease time_now pure ◌>>=◌ exec statement
  write_lease-ok w w' b h = ground (arith, h)

  commit_true :
      (db : Db) (out : Result Bool × World Db) (w' : World Db)
      → finish itself (ok false) db out ≡ (ok true, w')
      → (w1 : World Db) × (out ≡ (ok true, w1)) × (w'.db ≡ w1.db)
  commit_true db (ok b, w) w' h = (w, ground arith, ground arith)
  commit_true db (err e, w) w' h = absurd (ground arith)

  acquire_leader-ok :
      (w w' : World Db)
      → acquire_leader client ttl w ≡ (ok true, w')
      → (w1 : World Db) × (try_acquire client ttl (next w) ≡ (ok true, w1)) × (w'.db ≡ w1.db)
  unfolding acquire_leader transaction_else
  acquire_leader-ok w w' h = elim (Bool-cases (w.outside.fails w.step)) [
    | inl b ↦ absurd (cc (b, h))
    | inr b ↦ commit_true w.db (try_acquire client ttl (next w)) w' (rw b at h)
  ]

  renewed :
      (l : LeaseRow) (w w' : World Db)
      → try_renew client ttl l w ≡ (ok true, w')
      → IsLeader client ttl w.outside.clock w.step w'.db
  unfolding try_renew time_now ◌>>=◌ pure
  renewed l w w' h = elim (Bool-cases (text_eq l.holder_id client)) [
    | inl own ↦ record {
      read_at = w.step;
      when = inl refl;
      lease = write_lease-ok w w' true (rw own at h);
    }
    | inr other ↦ elim (Bool-cases (ltb (w.outside.clock w.step) l.expires_at)) [
      | inl held ↦ absurd (cc (other, held, h))
      | inr over ↦ record {
        read_at = suc w.step;
        when = inr refl;
        lease = write_lease-ok (next w) w' true (rw (other, over) at h);
      }
    ]
  ]

  taken :
      (lease : Option LeaseRow) (w w' : World Db)
      → with_lease client ttl lease w ≡ (ok true, w')
      → IsLeader client ttl w.outside.clock w.step w'.db
  unfolding with_lease
  taken none w w' h = record {
    read_at = w.step;
    when = inl refl;
    lease = write_lease-ok w w' true h;
  }
  taken (some l) w w' h = renewed l w w' h

  -- A client that is told that it leads holds the lease, for ttl from a time that it has read after
  -- it had looked at the lease before.
  pub acquire_leader-IsLeader :
      (w w' : World Db)
      → acquire_leader client ttl w ≡ (ok true, w')
      → IsLeader client ttl w.outside.clock (suc (suc w.step)) w'.db
  unfolding try_acquire ◌>>=◌ query statement
  acquire_leader-IsLeader w w' h =
      let (w1, run, same) = acquire_leader-ok w w' h in
      elim (Bool-cases (w.outside.fails (suc w.step))) [
        | inl b ↦ absurd (cc (b, run))
        | inr b ↦
            let leads = taken w.db.leader (next (next w)) w1 (rw b at run) in
            record {
              read_at = leads.read_at;
              when = leads.when;
              lease = ap (λ (db : Db). db.leader) same ∙ leads.lease;
            }
      ]

  -- While the lease of another client lasts, by the clock of the client that asks, the client is not
  -- told that it leads, whatever fails, and the lease stays as it is.
  pub acquire_leader_waits :
      (w : World Db) (l : LeaseRow)
      → w.db.leader ≡ some l
      → l.holder_id ≢ client
      → ((n : ℕ) → w.outside.clock n < l.expires_at)
      → ((acquire_leader client ttl w).0 ≢ ok true)
        × ((acquire_leader client ttl w).1.db.leader ≡ some l)
  unfolding acquire_leader transaction_else try_acquire with_lease try_renew time_now ◌>>=◌ query
      statement pure
  acquire_leader_waits w l held other lasts = elim (Bool-cases (w.outside.fails w.step)) [
    | inl b ↦ rw b ((λ q. ground arith), held)
    | inr b ↦ elim (Bool-cases (w.outside.fails (suc w.step))) [
      | inl c ↦ rw (b, c) ((λ q. ground arith), held)
      | inr c ↦
          rw
            (b, c, held, text_eq_ne l.holder_id client other, lt→ltb _ _ (lasts (suc (suc w.step))))
            ((λ q. ground arith), refl)
    ]
  ]

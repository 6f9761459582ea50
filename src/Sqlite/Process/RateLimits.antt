-- ===== src/Sqlite/Process/RateLimits.antt =====
-- The rate limits: queue/sqlite_process.go, CheckRateLimit and evaluateRateLimit.
use orkai_runiq.Common.{
  ℕ, ℤ, pos, negsuc, zero, suc, ◌≤◌, ◌≡◌, ◌⊎◌, refl, sym, subst, Text, text_eq_refl, Bool, true,
  false, ◌&&◌, List, [], ◌∷◌, ◌++◌, In, inl, inr, ltb, leb_ℤ, arith, if◌then◌else◌, shift,
}
use orkai_runiq.Sql.{
  ok, World, Exec, exec, query, pure, time_now, ◌>>=◌, ◌>>◌, count, not_deleted, transaction_if-ok,
  next, Gives, Gives-bind, Gives-exec, Gives-query, Gives-pure, Gives-if,
}
use orkai_runiq.Sqlite.Tables.{RateRow, Db}
use orkai_runiq.Sqlite.Admin.{negated}
use orkai_runiq.Sqlite.Process.{
  is_for, forget_requests, record_request, evaluate_rate_limit, check_rate_limit, itself,
}

-- The requests of a job that are on record are recent, and no more than the limit.
pub record IsWithin (name : Text) (limit : ℤ) (since : ℕ) (db : Db) : Type 0 where
  pub few : leb_ℤ (pos (count (is_for name) db.rate_limits)) limit ≡ true
  pub recent :
      (r : RateRow)
      → In r db.rate_limits
      → is_for name r ≡ true
      → ltb r.request_timestamp since ≡ false

count-last :
    {A : Type 0} (p : A → Bool) (rs : List A) (r : A)
    → p r ≡ true
    → count p (rs ++ r ∷ []) ≡ suc (count p rs)
count-last p [] r h = rw h refl
count-last p (a ∷ rs) r h = ground (arith, count-last p rs r h)

below_limit : (n : ℕ) (limit : ℤ) → leb_ℤ limit (pos n) ≡ false → leb_ℤ (pos (suc n)) limit ≡ true
below_limit n (pos m) h = ground arith
below_limit n (negsuc m) h = ground arith

In-last : {A : Type 0} (rs : List A) (r a : A) → In a (rs ++ r ∷ []) → In a rs ⊎ (a ≡ r)
In-last [] r a (inl e) = inr e
In-last [] r a (inr i) = absurd i
In-last (x ∷ rs) r a (inl e) = inl (inl e)
In-last (x ∷ rs) r a (inr i) = elim (In-last rs r a i) [ inl j ↦ inl (inr j) | inr e ↦ inr e ]

module _ (name : Text) (since : ℕ) where
  -- The requests of the job on record are recent.
  record IsCleared (db : Db) : Type 0 where
    recent :
        (r : RateRow)
        → In r db.rate_limits
        → is_for name r ≡ true
        → ltb r.request_timestamp since ≡ false

  forget_requests-IsCleared : (db : Db) → IsCleared (forget_requests name since db)
  forget_requests-IsCleared db = record {
    recent = λ r i q. old r.request_timestamp (is_for name r) q (not_deleted _ db.rate_limits r i);
  }
    where
      old : (at : ℕ) (b : Bool) → b ≡ true → (b && ltb at since) ≡ false → ltb at since ≡ false
      old at b e k = rw e at k

  module _ (limit : ℤ) where
    record-IsWithin :
        (now : ℕ) (db : Db)
        → since ≤ now
        → IsCleared db
        → leb_ℤ limit (pos (count (is_for name) db.rate_limits)) ≡ false
        → IsWithin name limit since (record_request name now db)
    record-IsWithin now db h c below = record {
      few =
          rw
            (count-last (is_for name) db.rate_limits
              (record { job_name = name; request_timestamp = now }) (text_eq_refl name))
            (below_limit (count (is_for name) db.rate_limits) limit below);
      recent = λ r i q. elim (In-last db.rate_limits _ r i) [
        | inl j ↦ c.recent r j q
        | inr e ↦ rw e (ground arith)
      ];
    }

    -- What CheckRateLimit does from the time that it has read.
    abbrev counted : ℕ → Exec Db Bool
    counted now = do
      exec (λ _. forget_requests name since)
      requests ← query λ _ db. count (is_for name) db.rate_limits
      if leb_ℤ limit (pos requests)
          then pure false
          else do exec (λ _. record_request name now); pure true

    counted-IsWithin :
        (now : ℕ)
        → since ≤ now
        → Gives
            (λ _. Unit {0})
            (counted now)
            (λ allowed db. (allowed ≡ false) ⊎ IsWithin name limit since db)
    counted-IsWithin now h =
        Gives-bind _ _
          (Gives-exec {Q = λ u db. IsCleared db} _ (λ _ db u. forget_requests-IsCleared db))
          λ u.
            Gives-bind _ _
              (Gives-query {Q = λ n db. (n ≡ count (is_for name) db.rate_limits) × IsCleared db} _
                (λ _ db c. (refl, c)))
              λ n.
                Gives-if _ _ _ (λ e. Gives-pure false (λ db k. inl refl))
                  λ e.
                    Gives-bind _ _
                      (Gives-exec {Q = λ u db. IsWithin name limit since db} _ (λ _ db k.
                        record-IsWithin now db h k.1
                          (subst (λ n. leb_ℤ limit (pos n) ≡ false) k.0 e)))
                      λ u. Gives-pure true (λ db k. inr k)

earlier : (now period : ℕ) → shift now (negated (pos period)) ≤ now
earlier now zero = omega arith
earlier now (suc p) = omega arith

-- When CheckRateLimit, with a period that is not negative, lets a job run, the requests of the job on record, this one among them, lie
-- within the period before the time that it has read, and are no more than the limit.
pub check_rate_limit-IsWithin :
    (name : Text) (limit : ℤ) (period : ℕ) (w w' : World Db)
    → check_rate_limit name limit (pos period) w ≡ (ok true, w')
    → IsWithin name limit (shift (w.outside.clock (suc w.step)) (negated (pos period))) w'.db
unfolding check_rate_limit evaluate_rate_limit time_now ◌>>=◌
check_rate_limit-IsWithin name limit period w w' h =
    let (w1, run, same) =
      transaction_if-ok itself (evaluate_rate_limit name limit (pos period)) w h refl in
    elim ((counted-IsWithin name _ limit _ (earlier _ period)).at (next (next w)) true w1 tt run) [
      | inl refused ↦ absurd (ground arith)
      | inr within ↦ subst (IsWithin name limit _) (sym same) within
    ]

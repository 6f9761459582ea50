-- ===== src/Sqlite/Jobs/Delivery.antt =====
-- Workers that take jobs one after another: queue/sqlite.go, Dequeue.
use orkai_runiq.Common.{
  ℕ, ◌≡◌, ◌≢◌, refl, sym, ◌∙◌, subst, inl, inr, Text, text_eq_refl, false, Option, none, some, List,
  [], ◌∷◌, In, arith,
}
use orkai_runiq.Queue.{JobEnvelope}
use orkai_runiq.Sql.{Result, ok, err, World, exec, Keeps, Keeps-exec, keeps_rules, In-update}
use orkai_runiq.Sqlite.Tables.{JobRow, Db, has_job_id, is_pending}
use orkai_runiq.Sqlite.Jobs.{running_row, mark_running, claim, dequeue_tx, dequeue}
use orkai_runiq.Sqlite.Jobs.Dequeue.{dequeue_delivers}

-- No row of this identifier is pending.
pub record IsTaken (id : Text) (db : Db) : Type 0 where
  pub not_pending : (r : JobRow) → In r db.jobs → r.job_id ≡ id → is_pending r.status ≡ false

mark_running-IsTaken :
    (id other : Text) (now : ℕ) (db : Db) → IsTaken id db → IsTaken id (mark_running other now db)
mark_running-IsTaken id other now db t = record {
  not_pending = λ r i e.
      let (b, j, q) = In-update (has_job_id other) (running_row now) db.jobs r i in
      ground (arith, q, t.not_pending b j);
}

exec-IsTaken : (id other : Text) → Keeps (IsTaken id) (exec (mark_running other))
exec-IsTaken id other = Keeps-exec (mark_running other) (mark_running-IsTaken id other)

claim-IsTaken : (id : Text) (o : Option JobEnvelope) → Keeps (IsTaken id) (claim o)
unfolding claim
claim-IsTaken id none = search keeps_rules
claim-IsTaken id (some env) = search (keeps_rules, exec-IsTaken)

dequeue-IsTaken : (id queue : Text) (tags : List Text) → Keeps (IsTaken id) (dequeue queue tags)
unfolding dequeue dequeue_tx
dequeue-IsTaken id queue tags = search (keeps_rules, claim-IsTaken)

mark_running_takes : (id : Text) (now : ℕ) (db : Db) → IsTaken id (mark_running id now db)
mark_running_takes id now db = record {
  not_pending = λ r i e.
      let (b, j, q) = In-update (has_job_id id) (running_row now) db.jobs r i in
      ground (arith, q, text_eq_refl id);
}

module _ (queue : Text) (tags : List Text) (w : World Db) (env : JobEnvelope) (w' : World Db)
    (delivered : dequeue queue tags w ≡ (ok (some env), w')) where
  delivery-IsTaken : IsTaken env.job_id w'.db
  delivery-IsTaken =
      let (r, stored, described, waiting, capable, (at, changed)) =
        dequeue_delivers queue tags w env w' delivered in
      let same : r.job_id ≡ env.job_id = sym described.job_id in
      subst (λ x. IsTaken x w'.db) same
        (subst (IsTaken r.job_id) (sym changed) (mark_running_takes r.job_id at w.db))

  delivery-ne : (id : Text) → IsTaken id w.db → env.job_id ≢ id
  delivery-ne id t e =
      let (r, stored, described, waiting, capable, changed) =
        dequeue_delivers queue tags w env w' delivered in
      let same : r.job_id ≡ env.job_id = sym described.job_id in
      ground (arith, waiting.waits, t.not_pending r stored (same ∙ e))

-- The identifiers that a sequence of Dequeue calls hands out, in order. Calls that fail or find
-- nothing add none.
abbrev pub delivered_id : Result (Option JobEnvelope) → List Text → List Text
delivered_id (ok (some env)) rest = env.job_id ∷ rest
delivered_id (ok none) rest = rest
delivered_id (err e) rest = rest

unfoldable pub deliveries : World Db → List (Text × List Text) → List Text
deliveries w [] = []
deliveries w ((queue, tags) ∷ requests) =
    let (r, w') = dequeue queue tags w in let rest = deliveries w' requests in delivered_id r rest

-- The calls after the first, once its outcome is known.
abbrev pub deliveries_after :
    Result (Option JobEnvelope) × World Db → List (Text × List Text) → List Text
deliveries_after (r, w) requests = delivered_id r (deliveries w requests)

deliveries-cons :
    (w : World Db) (queue : Text) (tags : List Text) (requests : List (Text × List Text))
    → deliveries w ((queue, tags) ∷ requests) ≡ deliveries_after (dequeue queue tags w) requests
unfolding deliveries
deliveries-cons w queue tags requests = refl

abbrev pub NotIn : Text → List Text → Type 0
NotIn x xs = (y : Text) → In y xs → y ≢ x

taken_step :
    (id queue : Text) (tags : List Text) (w : World Db) (requests : List (Text × List Text))
    (out : Result (Option JobEnvelope) × World Db)
    → dequeue queue tags w ≡ out
    → IsTaken id w.db
    → NotIn id (deliveries out.1 requests)
    → NotIn id (deliveries_after out requests)
taken_step id queue tags w requests (ok (some env), w') e t ih y (inl q) =
    rw q (delivery-ne queue tags w env w' e id t)
taken_step id queue tags w requests (ok (some env), w') e t ih y (inr i) = ih y i
taken_step id queue tags w requests (ok none, w') e t ih y i = ih y i
taken_step id queue tags w requests (err x, w') e t ih y i = ih y i

taken_stays_out :
    (id : Text) (w : World Db) (requests : List (Text × List Text))
    → IsTaken id w.db
    → NotIn id (deliveries w requests)
unfolding deliveries
taken_stays_out id w [] t = λ y i. absurd i
taken_stays_out id w ((queue, tags) ∷ requests) t =
    let ih =
      taken_stays_out id (dequeue queue tags w).1 requests
        ((dequeue-IsTaken id queue tags).at w t) in
    taken_step id queue tags w requests (dequeue queue tags w) refl t ih

abbrev pub AllDistinct : List Text → Type 0
AllDistinct [] = Unit
AllDistinct (x ∷ xs) = NotIn x xs × AllDistinct xs

distinct_step :
    (queue : Text) (tags : List Text) (w : World Db) (requests : List (Text × List Text))
    (out : Result (Option JobEnvelope) × World Db)
    → dequeue queue tags w ≡ out
    → AllDistinct (deliveries out.1 requests)
    → AllDistinct (deliveries_after out requests)
distinct_step queue tags w requests (ok (some env), w') e ih =
    (taken_stays_out env.job_id w' requests (delivery-IsTaken queue tags w env w' e), ih)
distinct_step queue tags w requests (ok none, w') e ih = ih
distinct_step queue tags w requests (err x, w') e ih = ih

-- However many workers ask, for whatever queues and with whatever tags, no job is handed out twice
-- while nobody puts it back.
pub deliveries-AllDistinct :
    (w : World Db) (requests : List (Text × List Text)) → AllDistinct (deliveries w requests)
unfolding deliveries
deliveries-AllDistinct w [] = tt
deliveries-AllDistinct w ((queue, tags) ∷ requests) =
    distinct_step queue tags w requests (dequeue queue tags w) refl
      (deliveries-AllDistinct (dequeue queue tags w).1 requests)

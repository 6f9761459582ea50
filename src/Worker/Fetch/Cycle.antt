-- ===== src/Worker/Fetch/Cycle.antt =====
-- How often each queue comes first: queue/worker.go, setupWeightedQueues and buildSearchOrder.
use orkai_runiq.Common.{
  ℕ, zero, suc, ◌+◌, ◌%◌, ◌^◌, ◌<◌, ◌≡◌, ◌≢◌, refl, sym, ◌∙◌, subst, Text, text_eq, text_eq_sound,
  Bool, false, List, [], ◌∷◌, In, inl, inr, length, ℤ, arith, Bool-cases,
}
use orkai_runiq.Sql.{continue, Result, ok, World, Exec, pure, ◌>>=◌, count}
use orkai_runiq.Worker.{WorkerPool, PoolState}
use orkai_runiq.Worker.Setup.{weight_of, weighted, setup_weighted_queues}
use orkai_runiq.Worker.Fetch.{primary_at, others, build_search_order}
use orkai_runiq.Worker.Fetch.Turns.{times, turns, turns_fair, times-weighted, AreDistinct}

-- Every queue is looked at in every search.
others-In : (primary q : Text) (qs : List Text) → In q qs → In q (primary ∷ others primary qs)
unfolding others
others-In primary q [] i = absurd i
others-In primary q (x ∷ qs) (inl p) = elim (Bool-cases (text_eq x primary)) [
  | inl e ↦ rw e (inl (p ∙ text_eq_sound x primary e))
  | inr e ↦ rw e (inr (inl p))
]
others-In primary q (x ∷ qs) (inr j) =
    let ih = others-In primary q qs j in
    elim (Bool-cases (text_eq x primary)) [
      | inl e ↦ rw e ih
      | inr e ↦ rw e (elim ih [ inl p ↦ inl p | inr k ↦ inr (inr k) ])
    ]

-- The search orders of so many fetches, one after another.
pub search_orders :
    {S : Type 0} → WorkerPool S → ℕ → List Text → Exec (PoolState S) (List (List Text))
search_orders pool zero queues = pure []
search_orders pool (suc n) queues = do
  order ← build_search_order pool queues
  rest ← search_orders pool n queues
  pure (order ∷ rest)

-- How many orders begin with a queue.
abbrev pub begins : Text → List Text → Bool
begins q [] = false
begins q (p ∷ order) = text_eq p q

orders_from : List Text → List Text → ℕ → ℕ → List (List Text)
orders_from qs queues c zero = []
orders_from qs queues c (suc n) =
    let primary = primary_at qs c in
    (primary ∷ others primary queues) ∷ orders_from qs queues (suc c) n

module _ {S : Type 0} (pool : WorkerPool S) (queues : List Text) where
  then_cons :
      (order : List Text) (orders : List (List Text))
      (out : Result (List (List Text)) × World (PoolState S))
      → out.0 ≡ ok orders
      → (continue (λ rest. pure (order ∷ rest)) out).0 ≡ ok (order ∷ orders)
  unfolding pure
  then_cons order orders (ok os, w) h = ground (arith, h)
  then_cons order orders (Result.err e, w) h = absurd (ground (arith, h))

  search_orders-eq :
      (n : ℕ) (w : World (PoolState S))
      → w.db.fetch_counter + n < 2 ^ 64
      → (search_orders pool n queues w).0
        ≡ ok (orders_from pool.first_queues queues w.db.fetch_counter n)
  unfolding search_orders build_search_order orders_from ◌>>=◌ pure
  search_orders-eq zero w small = refl
  search_orders-eq (suc n) w small =
      let c = w.db.fetch_counter in
      let v = record w { db = record w.db { fetch_counter = (c + 1) % 2 ^ 64 } } in
      let e : (c + 1) % 2 ^ 64 ≡ suc c = omega arith in
      let ih = search_orders-eq n v (rw e (omega arith)) in
      then_cons _ _ (search_orders pool n queues v) (
        subst
          (λ k. (search_orders pool n queues v).0 ≡ ok (orders_from pool.first_queues queues k n)) e
          ih)

-- What the orders of a full cycle are like.
pub record IsFair (weights : List (Text × ℤ)) (queues : List Text) (orders : List (List Text))
    : Type 0 where
  -- a queue comes first as often as its weight says
  pub shared : (q : Text) → In q queues → count (begins q) orders ≡ weight_of weights q
  -- and every queue is in every order
  pub complete : (q : Text) (order : List Text) → In q queues → In order orders → In q order

begins-turns :
    (qs queues : List Text) (q : Text) (c n : ℕ)
    → count (begins q) (orders_from qs queues c n) ≡ times q (turns qs c n)
unfolding orders_from turns
begins-turns qs queues q c zero = refl
begins-turns qs queues q c (suc n) =
    let ih = begins-turns qs queues q (suc c) n in
    elim (Bool-cases (text_eq (primary_at qs c) q)) [
      | inl e ↦ rw (e, ih) refl
      | inr e ↦ rw (e, ih) refl
    ]

orders_from-complete :
    (qs queues : List Text) (c n : ℕ) (q : Text) (order : List Text)
    → In q queues
    → In order (orders_from qs queues c n)
    → In q order
unfolding orders_from
orders_from-complete qs queues c zero q order i j = absurd j
orders_from-complete qs queues c (suc n) q order i (inl e) =
    subst (In q) (sym e) (others-In (primary_at qs c) q queues i)
orders_from-complete qs queues c (suc n) q order i (inr j) =
    orders_from-complete qs queues (suc c) n q order i j

first_queues_lem :
    {S : Type 0} (pool : WorkerPool S) (queues : List Text) (ws : List (Text × ℤ))
    → ws ≢ []
    → (elim ws [ [] ↦ pool.first_queues | v ∷ vs ↦ weighted (v ∷ vs) queues ]) ≡ weighted ws queues
first_queues_lem pool queues [] h = absurd (h refl)
first_queues_lem pool queues (v ∷ vs) h = refl

-- The queues of a pool with weights: from any counter that does not wrap round within the cycle, in
-- as many fetches as the weights add up to, every queue comes first as often as its weight says (once
-- without a positive weight), and every fetch looks at every queue.
pub search_orders-IsFair :
    {S : Type 0} (pool : WorkerPool S) (queues : List Text) (w : World (PoolState S))
    → AreDistinct queues
    → pool.weights ≢ []
    → w.db.fetch_counter + length (weighted pool.weights queues) < 2 ^ 64
    → (orders : List (List Text)) × ((search_orders
          (setup_weighted_queues pool queues)
          (length (weighted pool.weights queues))
          queues
          w).0
        ≡ ok orders)
      × IsFair pool.weights queues orders
unfolding setup_weighted_queues
search_orders-IsFair pool queues w d has_weights small =
    let qs = weighted pool.weights queues in
    let n = length qs in
    (
      orders_from qs queues w.db.fetch_counter n,
      subst
          (λ l.
            (search_orders (setup_weighted_queues pool queues) n queues w).0
            ≡ ok (orders_from l queues w.db.fetch_counter n))
          (first_queues_lem pool queues pool.weights has_weights)
          (search_orders-eq (setup_weighted_queues pool queues) queues n w small),
      record {
        shared = λ q i.
            begins-turns qs queues q w.db.fetch_counter n
            ∙ turns_fair qs q w.db.fetch_counter
            ∙ times-weighted pool.weights q queues d i;
        complete = orders_from-complete qs queues w.db.fetch_counter n;
      },
    )

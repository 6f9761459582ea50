-- ===== src/Sql/Queries.antt =====
-- What the parts of a SQL statement do to the rows of a table.
use orkai_runiq.Common.{
  suc, ◌≡◌, refl, ap, subst, ◌∙◌, Bool, true, false, List, [], ◌∷◌, ◌++◌, ◌⊎◌, inl, inr, some,
  arith, In, length, map, if◌then◌else◌, Bool-cases,
}
use orkai_runiq.Sql.Rows.{select, delete, update, exists, first, upsert, insert_before, order_by}

module _ {A : Type 0} where
  select_hit :
      (p : A → Bool) (r : A) (rs : List A) → p r ≡ true → select p (r ∷ rs) ≡ r ∷ select p rs
  select_hit p r rs e = rw e

  select_miss : (p : A → Bool) (r : A) (rs : List A) → p r ≡ false → select p (r ∷ rs) ≡ select p rs
  select_miss p r rs e = rw e

  -- Membership in a list that is r ∷ xs, whatever it is called.
  In-cons : {a r : A} (xs l : List A) → l ≡ r ∷ xs → In a l → (a ≡ r) ⊎ In a xs
  In-cons xs l e h = subst (In _) e h

  pub In-select : (p : A → Bool) (rs : List A) (a : A) → In a (select p rs) → In a rs × (p a ≡ true)
  In-select p [] a h = absurd h
  In-select p (r ∷ rs) a h = elim (Bool-cases (p r)) [
    | inl e ↦ elim (In-cons _ _ (select_hit p r rs e) h) [
      | inl q ↦ (inl q, rw q e)
      | inr i ↦ let (j, t) = In-select p rs a i in (inr j, t)
    ]
    | inr e ↦ let (i, q) = In-select p rs a (subst (In a) (select_miss p r rs e) h) in (inr i, q)
  ]

  pub select-In : (p : A → Bool) (rs : List A) (a : A) → In a rs → p a ≡ true → In a (select p rs)
  select-In p [] a h q = absurd h
  select-In p (r ∷ rs) a (inl e) q = rw (← e, q) (inl refl)
  select-In p (r ∷ rs) a (inr i) q = elim (Bool-cases (p r)) [
    | inl e ↦ rw e (inr (select-In p rs a i q))
    | inr e ↦ rw e (select-In p rs a i q)
  ]

  -- `y` is not strictly before any row that stands before it.
  abbrev pub IsOrdered : (A → A → Bool) → List A → Type 0
  IsOrdered lt [] = Unit
  IsOrdered lt (x ∷ xs) = ((y : A) → In y xs → lt y x ≡ false) × IsOrdered lt xs

  insert_hit :
      (lt : A → A → Bool) (r x : A) (xs : List A)
      → lt x r ≡ true
      → insert_before lt r (x ∷ xs) ≡ x ∷ insert_before lt r xs
  unfolding insert_before
  insert_hit lt r x xs e = rw e

  insert_stop :
      (lt : A → A → Bool) (r x : A) (xs : List A)
      → lt x r ≡ false
      → insert_before lt r (x ∷ xs) ≡ r ∷ x ∷ xs
  unfolding insert_before
  insert_stop lt r x xs e = rw e

  In-insert_before :
      (lt : A → A → Bool) (r : A) (xs : List A) (a : A)
      → In a (insert_before lt r xs)
      → (a ≡ r) ⊎ In a xs
  unfolding insert_before
  In-insert_before lt r [] a h = h
  In-insert_before lt r (x ∷ xs) a h = elim (Bool-cases (lt x r)) [
    | inl e ↦ elim (In-cons _ _ (insert_hit lt r x xs e) h) [
      | inl q ↦ inr (inl q)
      | inr i ↦ elim (In-insert_before lt r xs a i) [ inl q ↦ inl q | inr j ↦ inr (inr j) ]
    ]
    | inr e ↦ In-cons _ _ (insert_stop lt r x xs e) h
  ]

  insert_before-In :
      (lt : A → A → Bool) (r : A) (xs : List A) (a : A)
      → (a ≡ r) ⊎ In a xs
      → In a (insert_before lt r xs)
  unfolding insert_before
  insert_before-In lt r [] a h = h
  insert_before-In lt r (x ∷ xs) a h =
      let ih = insert_before-In lt r xs a in
      elim (Bool-cases (lt x r)) [ inl e ↦ rw e (later ih h) | inr e ↦ rw e h ]
    where
      later :
          ((a ≡ r) ⊎ In a xs → In a (insert_before lt r xs))
          → (a ≡ r) ⊎ In a (x ∷ xs)
          → (a ≡ x) ⊎ In a (insert_before lt r xs)
      later ih (inl q) = inr (ih (inl q))
      later ih (inr (inl q)) = inl q
      later ih (inr (inr i)) = inr (ih (inr i))

  pub In-order_by : (lt : A → A → Bool) (rs : List A) (a : A) → In a (order_by lt rs) → In a rs
  unfolding order_by
  In-order_by lt [] a h = h
  In-order_by lt (r ∷ rs) a h = elim (In-insert_before lt r (order_by lt rs) a h) [
    | inl e ↦ inl e
    | inr i ↦ inr (In-order_by lt rs a i)
  ]

  pub order_by-In : (lt : A → A → Bool) (rs : List A) (a : A) → In a rs → In a (order_by lt rs)
  unfolding order_by
  order_by-In lt [] a h = h
  order_by-In lt (r ∷ rs) a (inl e) = insert_before-In lt r _ a (inl e)
  order_by-In lt (r ∷ rs) a (inr i) = insert_before-In lt r _ a (inr (order_by-In lt rs a i))

  length-insert_before :
      (lt : A → A → Bool) (r : A) (xs : List A) → length (insert_before lt r xs) ≡ suc (length xs)
  unfolding insert_before
  length-insert_before lt r [] = refl
  length-insert_before lt r (x ∷ xs) = ground (arith, length-insert_before lt r xs)

  pub length-order_by : (lt : A → A → Bool) (rs : List A) → length (order_by lt rs) ≡ length rs
  unfolding order_by
  length-order_by lt [] = refl
  length-order_by lt (r ∷ rs) = length-insert_before lt r _ ∙ ap suc (length-order_by lt rs)

-- The laws of a strict weak order.
pub record IsWeakOrder {A : Type 0} (lt : A → A → Bool) : Type 0 where
  pub asym : (a b : A) → lt a b ≡ true → lt b a ≡ false
  pub cotrans : (a b c : A) → lt a b ≡ false → lt b c ≡ false → lt a c ≡ false

module _ {A : Type 0} {lt : A → A → Bool} (o : IsWeakOrder lt) where
  insert_before-IsOrdered :
      (r : A) (xs : List A) → IsOrdered lt xs → IsOrdered lt (insert_before lt r xs)
  unfolding insert_before
  insert_before-IsOrdered r [] h = ((λ y i. absurd i), tt)
  insert_before-IsOrdered r (x ∷ xs) h = elim (Bool-cases (lt x r)) [
    | inl e ↦
        rw e ((λ y i. after y e (In-insert_before lt r xs y i)), insert_before-IsOrdered r xs h.1)
    | inr e ↦ rw e ((λ y i. first_of_all y e i), h)
  ]
    where
      after : (y : A) → lt x r ≡ true → (y ≡ r) ⊎ In y xs → lt y x ≡ false
      after y e (inl q) = rw q (o.asym x r e)
      after y e (inr i) = h.0 y i

      first_of_all : (y : A) → lt x r ≡ false → In y (x ∷ xs) → lt y r ≡ false
      first_of_all y e (inl q) = rw q e
      first_of_all y e (inr i) = o.cotrans y x r (h.0 y i) e

  pub order_by-IsOrdered : (rs : List A) → IsOrdered lt (order_by lt rs)
  unfolding order_by
  order_by-IsOrdered [] = tt
  order_by-IsOrdered (r ∷ rs) = insert_before-IsOrdered r (order_by lt rs) (order_by-IsOrdered rs)

module _ {A : Type 0} where
  -- A row of an updated table comes from a row of the table before.
  pub In-update :
      (p : A → Bool) (f : A → A) (rs : List A) (a : A)
      → In a (update p f rs)
      → (b : A) × In b rs × (a ≡ (if p b then f b else b))
  In-update p f [] a h = absurd h
  In-update p f (r ∷ rs) a (inl e) = (r, inl refl, e)
  In-update p f (r ∷ rs) a (inr i) = let (b, j, e) = In-update p f rs a i in (b, inr j, e)

  pub update_same : (p : A → Bool) (rs : List A) → update p (λ x. x) rs ≡ rs
  update_same p [] = refl
  update_same p (r ∷ rs) = ground (arith, update_same p rs)

  pub exists-first : (p : A → Bool) (rs : List A) (a : A) → first p rs ≡ some a → exists p rs ≡ true
  exists-first p [] a h = cc
  exists-first p (r ∷ rs) a h = ground (arith, exists-first p rs a)

  pub first-exists :
      (p : A → Bool) (rs : List A) → exists p rs ≡ true → (a : A) × (first p rs ≡ some a)
  first-exists p [] h = cc
  first-exists p (r ∷ rs) h = elim (Bool-cases (p r)) [
    | inl e ↦ (r, rw e)
    | inr e ↦ let (a, q) = first-exists p rs (ground arith) in (a, rw e q)
  ]

  pub first_satisfies :
      (p : A → Bool) (rs : List A) (a : A) → first p rs ≡ some a → In a rs × (p a ≡ true)
  first_satisfies p [] a h = cc
  first_satisfies p (r ∷ rs) a h = elim (Bool-cases (p r)) [
    | inl e ↦ (inl (ground arith), ground arith)
    | inr e ↦ let (i, q) = first_satisfies p rs a (ground arith) in (inr i, q)
  ]

  pub exists-In : (p : A → Bool) (rs : List A) (a : A) → In a rs → p a ≡ true → exists p rs ≡ true
  exists-In p [] a h q = absurd h
  exists-In p (r ∷ rs) a (inl e) q = rw (← e, q)
  exists-In p (r ∷ rs) a (inr i) q = ground (arith, exists-In p rs a i q)

  pub first-append_new :
      (p : A → Bool) (rs : List A) (r : A)
      → exists p rs ≡ false
      → p r ≡ true
      → first p (rs ++ r ∷ []) ≡ some r
  first-append_new p [] r h q = rw q
  first-append_new p (x ∷ rs) r h q = ground (arith, first-append_new p rs r)

  pub first-update :
      (p : A → Bool) (f : A → A) (rs : List A) (a : A)
      → ((x : A) → p x ≡ true → p (f x) ≡ true)
      → first p rs ≡ some a
      → first p (update p f rs) ≡ some (f a)
  first-update p f [] a k h = cc
  first-update p f (r ∷ rs) a k h = elim (Bool-cases (p r)) [
    | inl e ↦ rw (e, k r e) (ground arith)
    | inr e ↦ rw (e, e) (first-update p f rs a k (ground arith))
  ]

  -- After an INSERT ... ON CONFLICT DO UPDATE the row of the key is the updated or the new one.
  pub first-upsert :
      (p : A → Bool) (f : A → A) (r : A) (rs : List A)
      → ((x : A) → p x ≡ true → p (f x) ≡ true)
      → p r ≡ true
      → (first p (upsert p f r rs) ≡ some r)
        ⊎ ((a : A) × (first p rs ≡ some a) × (first p (upsert p f r rs) ≡ some (f a)))
  first-upsert p f r rs k q = elim (Bool-cases (exists p rs)) [
    | inl e ↦
        let (a, found) = first-exists p rs e in inr (a, found, rw e (first-update p f rs a k found))
    | inr e ↦ inl (rw e (first-append_new p rs r e q))
  ]

module _ {A B : Type 0} where
  pub In-map : (f : A → B) (rs : List A) (a : A) → In a rs → In (f a) (map f rs)
  In-map f [] a h = absurd h
  In-map f (r ∷ rs) a (inl e) = inl (ap f e)
  In-map f (r ∷ rs) a (inr i) = inr (In-map f rs a i)

module _ {A : Type 0} where
  -- What a DELETE does not hit stays.
  pub delete-In : (p : A → Bool) (rs : List A) (a : A) → In a rs → p a ≡ false → In a (delete p rs)
  delete-In p [] a h q = absurd h
  delete-In p (r ∷ rs) a (inl e) q = rw (← e, q) (inl refl)
  delete-In p (r ∷ rs) a (inr i) q = elim (Bool-cases (p r)) [
    | inl e ↦ rw e (delete-In p rs a i q)
    | inr e ↦ rw e (inr (delete-In p rs a i q))
  ]

  pub In-delete : (p : A → Bool) (rs : List A) (a : A) → In a (delete p rs) → In a rs
  In-delete p [] a h = absurd h
  In-delete p (r ∷ rs) a h = elim (Bool-cases (p r)) [
    | inl e ↦ inr (In-delete p rs a (rw e at h))
    | inr e ↦ elim (kept_row p r rs e a h) [ inl q ↦ inl q | inr i ↦ inr (In-delete p rs a i) ]
  ]
    where
      kept_row :
          (p : A → Bool) (r : A) (rs : List A)
          → p r ≡ false
          → (a : A) → In a (delete p (r ∷ rs))
          → (a ≡ r) ⊎ In a (delete p rs)
      kept_row p r rs e a h = rw e at h

  -- What is left after a DELETE does not satisfy its condition.
  pub not_deleted : (p : A → Bool) (rs : List A) (a : A) → In a (delete p rs) → p a ≡ false
  not_deleted p [] a h = absurd h
  not_deleted p (r ∷ rs) a h = elim (Bool-cases (p r)) [
    | inl e ↦ not_deleted p rs a (rw e at h)
    | inr e ↦ elim (first_or_later (rw e at h)) [
      | inl q ↦ ap p q ∙ e
      | inr i ↦ not_deleted p rs a i
    ]
  ]
    where
      first_or_later : In a (r ∷ delete p rs) → (a ≡ r) ⊎ In a (delete p rs)
      first_or_later i = i

-- ===== src/Sql/Rows.antt =====
-- The parts of a SQL statement over a table: the rows in the order of their insertion.
use orkai_runiq.Common.{
  ℕ, suc, Bool, true, false, List, [], ◌∷◌, ◌++◌, Option, none, some, if◌then◌else◌,
}

module _ {ℓ} {A : Type ℓ} where
  -- SELECT ... WHERE p
  abbrev pub select : (A → Bool) → List A → List A
  select p [] = []
  select p (r ∷ rs) = if p r then r ∷ select p rs else select p rs

  -- DELETE ... WHERE p
  abbrev pub delete : (A → Bool) → List A → List A
  delete p [] = []
  delete p (r ∷ rs) = if p r then delete p rs else r ∷ delete p rs

  -- UPDATE ... SET f WHERE p
  abbrev pub update : (A → Bool) → (A → A) → List A → List A
  update p f [] = []
  update p f (r ∷ rs) = (if p r then f r else r) ∷ update p f rs

  -- The first row of SELECT ... WHERE p
  abbrev pub first : (A → Bool) → List A → Option A
  first p [] = none
  first p (r ∷ rs) = if p r then some r else first p rs

  -- SELECT EXISTS(SELECT 1 ... WHERE p)
  abbrev pub exists : (A → Bool) → List A → Bool
  exists p [] = false
  exists p (r ∷ rs) = if p r then true else exists p rs

  -- SELECT COUNT(*) ... WHERE p
  abbrev pub count : (A → Bool) → List A → ℕ
  count p [] = 0
  count p (r ∷ rs) = if p r then suc (count p rs) else count p rs

  unfoldable pub insert_before : (A → A → Bool) → A → List A → List A
  insert_before lt r [] = r ∷ []
  insert_before lt r (x ∷ xs) = if lt x r then x ∷ insert_before lt r xs else r ∷ x ∷ xs

  -- ORDER BY: `lt x r` says that x comes strictly before r; equal rows keep their order.
  unfoldable pub order_by : (A → A → Bool) → List A → List A
  unfolding insert_before
  order_by lt [] = []
  order_by lt (r ∷ rs) = insert_before lt r (order_by lt rs)

  -- INSERT ... ON CONFLICT DO UPDATE SET f, the conflict being on rows that satisfy p.
  abbrev pub upsert : (A → Bool) → (A → A) → A → List A → List A
  upsert p f r rs = if exists p rs then update p f rs else rs ++ r ∷ []

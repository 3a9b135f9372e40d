-- ===== src/Sql.antt =====
-- The SQL statements of the handlers, as functions on a table, the list of its rows. A statement
-- that does not reach the database is the parameter `ok` of a handler: its i-th statement succeeds
-- when `ok i` holds.
pub mod Rows
pub mod Keys
pub mod Joins
pub mod Sums
use myfipay.Base.{
  ℕ, suc, ◌+◌, ◌≤◌, ◌≡◌, refl, List, [], ◌∷◌, ◌++◌, Bool, true, false, Option, none, some, arith,
  select, sum_by, if◌then◌else◌, Bool-cases, inl, inr, length,
}

module _ {ℓ} {A : Type ℓ} where
  -- UPDATE ... WHERE: the rows afterwards, and how many were affected.
  unfoldable pub update_where : (A → Bool) → (A → A) → List A → List A × ℕ
  update_where p f [] = ([], 0)
  update_where p f (x ∷ xs) =
      let (rest, n) = update_where p f xs in if p x then (f x ∷ rest, suc n) else (x ∷ rest, n)

  -- DELETE ... WHERE
  unfoldable pub delete_where : (A → Bool) → List A → List A
  delete_where p [] = []
  delete_where p (x ∷ xs) = let rest = delete_where p xs in if p x then rest else x ∷ rest

  -- SELECT ... WHERE ... LIMIT 1
  unfoldable pub first : (A → Bool) → List A → Option A
  first p [] = none
  first p (x ∷ xs) = let rest = first p xs in if p x then some x else rest

  -- EXISTS
  unfoldable pub exists : (A → Bool) → List A → Bool
  exists p [] = false
  exists p (x ∷ xs) = let rest = exists p xs in if p x then true else rest

  -- Scan of a query that may fail: the variable keeps its value.
  abbrev pub scan : Bool → A → A → A
  scan ok found before = if ok then found else before

  pub first_sound : (p : A → Bool) (xs : List A) {y : A} → first p xs ≡ some y → p y ≡ true
  unfolding first
  first_sound p [] h = cc
  first_sound p (x ∷ xs) {y} h = ground (arith, first_sound p xs {y = y})

  pub sum_by-select-le :
      (p : A → Bool) (f : A → ℕ) (xs : List A) → sum_by f (select p xs) ≤ sum_by f xs
  unfolding sum_by select
  sum_by-select-le p f [] = omega arith
  sum_by-select-le p f (x ∷ xs) = ground (arith, sum_by-select-le p f xs)

  pub select-append :
      (p : A → Bool) (xs ys : List A) → select p (xs ++ ys) ≡ select p xs ++ select p ys
  unfolding select
  select-append p [] ys = refl
  select-append p (x ∷ xs) ys = ground (arith, select-append p xs ys)

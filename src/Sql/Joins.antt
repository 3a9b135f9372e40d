-- ===== src/Sql/Joins.antt =====
-- Joins and groups of the listings: JOIN, LEFT JOIN with several tables, COUNT(DISTINCT).
use myfipay.Base.{
  ℕ, suc, ◌+◌, ◌*◌, ◌≡◌, refl, ap, ◌∙◌, String, List, [], ◌∷◌, ◌++◌, map, Option, none, some, Bool,
  false, Bool-cases, inl, inr, arith, select, sum_by, sum_by-append, if◌then◌else◌, length, ◌==◌,
  string_eq,
}
use myfipay.Sql.{exists, select-append}

module _ {ℓ κ} {A : Type ℓ} {B : Type κ} where
  -- xs JOIN ys ON ...
  unfoldable pub join : (A → B → Bool) → List A → List B → List (A × B)
  unfolding select
  join on [] ys = []
  join on (x ∷ xs) ys = map (λ y. (x, y)) (select (on x) ys) ++ join on xs ys

  -- The pairs that two LEFT JOINs on one row make.
  unfoldable pub product : List A → List B → List (A × B)
  product [] ys = []
  product (x ∷ xs) ys = map (λ y. (x, y)) ys ++ product xs ys

  sum_by-row :
      (f : B → ℕ) (x : A) (ys : List B)
      → sum_by (λ (xy : A × B). f xy.1) (map (λ y. (x, y)) ys) ≡ sum_by f ys
  unfolding sum_by
  sum_by-row f x [] = refl
  sum_by-row f x (y ∷ ys) = ap (λ n. f y + n) (sum_by-row f x ys)

  -- A sum of the second table counts each of its rows once for every row of the first.
  pub sum_by-product :
      (f : B → ℕ) (xs : List A) (ys : List B)
      → sum_by (λ (xy : A × B). f xy.1) (product xs ys) ≡ length xs * sum_by f ys
  unfolding sum_by product
  sum_by-product f [] ys = omega arith
  sum_by-product f (x ∷ xs) ys =
      sum_by-append (λ (xy : A × B). f xy.1) (map (λ y. (x, y)) ys) (product xs ys)
      ∙ ground (arith, sum_by-row f x ys, sum_by-product f xs ys)

module _ {ℓ} {A : Type ℓ} where
  -- What a LEFT JOIN makes of the rows that match: one row of NULLs where there is none.
  unfoldable pub outer : List A → List (Option A)
  outer [] = none ∷ []
  outer (x ∷ xs) = map some (x ∷ xs)

  -- A column of a row that may be missing; NULL does not count in a SUM.
  abbrev pub or_zero : (A → ℕ) → Option A → ℕ
  or_zero f none = 0
  or_zero f (some a) = f a

  abbrev pub at_least_one : List A → ℕ
  at_least_one [] = 1
  at_least_one (x ∷ xs) = length (x ∷ xs)

  length-some : (xs : List A) → length (map (λ x. some x) xs) ≡ length xs
  length-some [] = refl
  length-some (x ∷ xs) = ap suc (length-some xs)

  sum_by-some : (f : A → ℕ) (xs : List A) → sum_by (or_zero f) (map (λ x. some x) xs) ≡ sum_by f xs
  unfolding sum_by
  sum_by-some f [] = refl
  sum_by-some f (x ∷ xs) = ap (λ n. f x + n) (sum_by-some f xs)

  pub length-outer : (xs : List A) → length (outer xs) ≡ at_least_one xs
  unfolding outer
  length-outer [] = refl
  length-outer (x ∷ xs) = length-some (x ∷ xs)

  pub sum_by-outer : (f : A → ℕ) (xs : List A) → sum_by (or_zero f) (outer xs) ≡ sum_by f xs
  unfolding outer sum_by
  sum_by-outer f [] = refl
  sum_by-outer f (x ∷ xs) = sum_by-some f (x ∷ xs)

-- The values that are there.
unfoldable pub present : List (Option String) → List String
present [] = []
present (none ∷ xs) = present xs
present (some x ∷ xs) = x ∷ present xs

-- DISTINCT
unfoldable pub distinct : List String → List String
unfolding exists
distinct [] = []
distinct (x ∷ xs) = let rest = distinct xs in if exists (λ y. y == x) xs then rest else x ∷ rest

-- Two WHEREs in either order.
select-swap {ℓ} :
    {A : Type ℓ} (p q : A → Bool) (ys : List A) → select q (select p ys) ≡ select p (select q ys)
unfolding select
select-swap p q [] = refl
select-swap p q (y ∷ ys) = ground (arith, select-swap p q ys)

module _ {ℓ κ} {A : Type ℓ} {B : Type κ} where
  select-row :
      (x : A) (q : B → Bool) (ys : List B)
      → select (λ (xy : A × B). q xy.1) (map (λ y. (x, y)) ys) ≡ map (λ y. (x, y)) (select q ys)
  unfolding select
  select-row x q [] = refl
  select-row x q (y ∷ ys) = ground (arith, select-row x q ys)

  -- A WHERE on the second table is one on its rows.
  pub select-join :
      (on : A → B → Bool) (q : B → Bool) (xs : List A) (ys : List B)
      → select (λ (xy : A × B). q xy.1) (join on xs ys) ≡ join on xs (select q ys)
  unfolding join select
  select-join on q [] ys = refl
  select-join on q (x ∷ xs) ys =
      select-append (λ (xy : A × B). q xy.1) (map (λ y. (x, y)) (select (on x) ys)) (join on xs ys)
      ∙ ap (λ zs. zs ++ select (λ (xy : A × B). q xy.1) (join on xs ys))
          (select-row x q (select (on x) ys) ∙ ap (map (λ y. (x, y))) (select-swap (on x) q ys))
      ∙ ap (λ zs. map (λ y. (x, y)) (select (on x) (select q ys)) ++ zs) (select-join on q xs ys)

  -- The rows of the first table without a partner do not count.
  pub join-select :
      (on : A → B → Bool) (p : A → Bool) (xs : List A) (ys : List B)
      → ((x : A) → p x ≡ false → select (on x) ys ≡ [])
      → join on (select p xs) ys ≡ join on xs ys
  unfolding join select
  join-select on p [] ys alone = refl
  join-select on p (x ∷ xs) ys alone = elim (Bool-cases (p x)) [
    | inl kept ↦
        rw kept
          (ap (λ zs. map (λ y. (x, y)) (select (on x) ys) ++ zs) (join-select on p xs ys alone))
    | inr dropped ↦ rw dropped (rw (alone x dropped) (join-select on p xs ys alone))
  ]

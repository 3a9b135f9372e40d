-- ===== src/Sql/Sums.antt =====
-- Sums over a table by rows and by columns, and by the values of a column: what GROUP BY and SUM add up to.
use myfipay.Base.{
  ℕ, zero, suc, ◌+◌, ◌≤◌, ◌≡◌, refl, ap, sym, subst, ◌∙◌, String, List, [], ◌∷◌, ◌++◌, map, Option,
  none, some, Bool, true, false, ◌&&◌, arith, sum_by, length, take, if◌then◌else◌, ◌==◌, string_eq,
  ==→eq, ==-refl,
}
use myfipay.Sql.{exists}
use myfipay.Sql.Keys.{is_key, AllRows}
use myfipay.Sql.Joins.{present, distinct}

pub zeros {ℓ} : {B : Type ℓ} (ms : List B) → sum_by (λ m. 0) ms ≡ 0
unfolding sum_by
zeros [] = refl
zeros (m ∷ ms) = omega (arith, zeros ms)

sum_by-plus {ℓ} :
    {B : Type ℓ} (f g : B → ℕ) (ms : List B)
    → sum_by (λ m. f m + g m) ms ≡ sum_by f ms + sum_by g ms
unfolding sum_by
sum_by-plus f g [] = omega arith
sum_by-plus f g (m ∷ ms) = omega (arith, sum_by-plus f g ms)

-- A table summed row by row is summed column by column.
pub swap_sums {ℓ κ} :
    {A : Type ℓ} {B : Type κ} (w : B → A → ℕ) (ms : List B) (xs : List A)
    → sum_by (λ m. sum_by (w m) xs) ms ≡ sum_by (λ x. sum_by (λ m. w m x) ms) xs
unfolding sum_by
swap_sums w ms [] = zeros ms
swap_sums w ms (x ∷ xs) =
    sum_by-plus (λ m. w m x) (λ m. sum_by (w m) xs) ms
    ∙ ap (λ n. sum_by (λ m. w m x) ms + n) (swap_sums w ms xs)

-- Among different months, one month takes an amount once.
absent_once :
    (ms : List String) (k : String) (kept : Bool) (n : ℕ)
    → exists (λ m. m == k) ms ≡ false
    → sum_by (λ m. if k == m && kept then n else 0) ms ≡ 0
unfolding sum_by exists
absent_once [] k kept n h = refl
absent_once (m ∷ ms) k kept n h = ground (arith, absent_once ms k kept n, ==→eq k m, ==-refl k)

pub once :
    (ms : List String) (k : String) (kept : Bool) (n : ℕ)
    → is_key (λ m. m) ms ≡ true
    → exists (λ m. m == k) ms ≡ true
    → sum_by (λ m. if k == m && kept then n else 0) ms ≡ (if kept then n else 0)
unfolding sum_by exists is_key
once [] k kept n key h = cc
once (m ∷ ms) k kept n key h =
    ground (arith, once ms k kept n, absent_once ms k kept n, ==→eq k m, ==→eq m k, ==-refl k)

-- DISTINCT has the same values, each once.
pub exists-distinct :
    (k : String) (xs : List String) → exists (λ m. m == k) (distinct xs) ≡ exists (λ m. m == k) xs
unfolding exists distinct
exists-distinct k [] = refl
exists-distinct k (x ∷ xs) = ground (arith, exists-distinct k xs, ==→eq x k)

pub distinct-is_key : (xs : List String) → is_key (λ m. m) (distinct xs) ≡ true
unfolding distinct is_key
distinct-is_key [] = refl
distinct-is_key (x ∷ xs) = ground (arith, distinct-is_key xs, exists-distinct x xs)

pub exists-append :
    (k : String) (xs ys : List String)
    → exists (λ m. m == k) xs ≡ true
    → exists (λ m. m == k) (xs ++ ys) ≡ true
unfolding exists
exists-append k [] ys h = cc
exists-append k (x ∷ xs) ys h = ground (arith, exists-append k xs ys)

pub AllRows-imp :
    {A : Type 0} {P Q : A → Type 0}
    → ((x : A) → P x → Q x)
    → (xs : List A) → AllRows P xs
    → AllRows Q xs
AllRows-imp f [] h = tt
AllRows-imp f (x ∷ xs) (h, rest) = (f x h, AllRows-imp f xs rest)

-- The values of the rows are among the values that are there.
pub AllRows-present :
    {A : Type 0} (f : A → Option String) (xs : List A)
    → AllRows
        (λ x. (k : String) → f x ≡ some k → exists (λ m. m == k) (present (map f xs)) ≡ true)
        xs
unfolding present exists
AllRows-present f [] = tt
AllRows-present f (x ∷ xs) = (
  λ k e.
      subst (λ o. exists (λ m. m == k) (present (o ∷ map f xs)) ≡ true) (sym e)
        (rw (==-refl k) refl),
  AllRows-imp (λ y h k e. later k (f x) (h k e)) xs (AllRows-present f xs),
)
  where
    later :
        (k : String) (o : Option String)
        → exists (λ m. m == k) (present (map f xs)) ≡ true
        → exists (λ m. m == k) (present (o ∷ map f xs)) ≡ true
    later k none h = h
    later k (some m) h = ground arith

pub sum_by-rows :
    {A : Type 0} (f g : A → ℕ) (xs : List A)
    → AllRows (λ x. f x ≡ g x) xs
    → sum_by f xs ≡ sum_by g xs
unfolding sum_by
sum_by-rows f g [] h = refl
sum_by-rows f g (x ∷ xs) (h, rest) = omega (arith, h, sum_by-rows f g xs rest)

pub sum_by-map :
    {A B : Type 0} (f : B → ℕ) (g : A → B) (xs : List A)
    → sum_by f (map g xs) ≡ sum_by (λ x. f (g x)) xs
unfolding sum_by
sum_by-map f g [] = refl
sum_by-map f g (x ∷ xs) = ap (λ n. f (g x) + n) (sum_by-map f g xs)

pub length-sum {ℓ} : {A : Type ℓ} (xs : List A) → length xs ≡ sum_by (λ x. 1) xs
unfolding sum_by
length-sum [] = refl
length-sum (x ∷ xs) = omega (arith, length-sum xs)

pub take-all {ℓ} : {A : Type ℓ} (n : ℕ) (xs : List A) → length xs ≤ n → take n xs ≡ xs
take-all zero [] h = refl
take-all zero (x ∷ xs) h = absurd (omega arith)
take-all (suc n) [] h = refl
take-all (suc n) (x ∷ xs) h = ap (λ t. x ∷ t) (take-all n xs (omega arith))

pub length-map : {A B : Type 0} (g : A → B) (xs : List A) → length (map g xs) ≡ length xs
length-map g [] = refl
length-map g (x ∷ xs) = ap suc (length-map g xs)

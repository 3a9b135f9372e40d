-- ===== src/Sql/Rows.antt =====
-- What an UPDATE, a DELETE and a SELECT do to the rows of a table, one by one.
use myfipay.Base.{
  ℕ, ◌+◌, ◌≤◌, ◌≡◌, refl, ap, inl, inr, List, [], ◌∷◌, Bool, true, false, arith, select, sum_by,
  if◌then◌else◌, Bool-cases,
}
use myfipay.Sql.{update_where, exists}

-- Row by row, two tables of the same length are related.
pub data Rows {ℓ κ} {A : Type ℓ} (R : A → A → Type κ) : List A → List A → Type (ℓ ⊔ κ) where
  done : Rows R [] []
  row : {x y : A} {xs ys : List A} → R x y → Rows R xs ys → Rows R (x ∷ xs) (y ∷ ys)

module _ {ℓ} {A : Type ℓ} where
  pub Rows-refl {κ} : {R : A → A → Type κ} → ((x : A) → R x x) → (xs : List A) → Rows R xs xs
  Rows-refl r [] = done
  Rows-refl r (x ∷ xs) = row (r x) (Rows-refl r xs)

  pub Rows-trans {κ} :
      {R : A → A → Type κ}
      → ((x y z : A) → R x y → R y z → R x z)
      → {xs ys zs : List A} → Rows R xs ys
      → Rows R ys zs
      → Rows R xs zs
  Rows-trans t done s = s
  Rows-trans t (row r rs) (row s ss) = row (t _ _ _ r s) (Rows-trans t rs ss)

  pub update_where-Rows {κ} :
      {R : A → A → Type κ} (p : A → Bool) (f : A → A)
      → ((x : A) → p x ≡ true → R x (f x))
      → ((x : A) → R x x)
      → (xs : List A) → Rows R xs (update_where p f xs).0
  unfolding update_where
  update_where-Rows p f change keep [] = done
  update_where-Rows p f change keep (x ∷ xs) = elim (Bool-cases (p x)) [
    | inl hit ↦ rw hit (row (change x hit) (update_where-Rows p f change keep xs))
    | inr miss ↦ rw miss (row (keep x) (update_where-Rows p f change keep xs))
  ]

  -- A sum over selected rows is a sum of weights over all rows.
  abbrev pub weight : (A → Bool) → (A → ℕ) → A → ℕ
  weight p f x = if p x then f x else 0

  pub sum_by-select :
      (p : A → Bool) (f : A → ℕ) (xs : List A) → sum_by f (select p xs) ≡ sum_by (weight p f) xs
  unfolding sum_by select
  sum_by-select p f [] = refl
  sum_by-select p f (x ∷ xs) = ground (arith, sum_by-select p f xs)

  pub sum_by-update_where-eq :
      (p : A → Bool) (f : A → A) (w : A → ℕ)
      → ((x : A) → p x ≡ true → w (f x) ≡ w x)
      → (xs : List A) → sum_by w (update_where p f xs).0 ≡ sum_by w xs
  unfolding sum_by update_where
  sum_by-update_where-eq p f w h [] = refl
  sum_by-update_where-eq p f w h (x ∷ xs) = ground (arith, h x, sum_by-update_where-eq p f w h xs)

  pub sum_by-update_where-le :
      (p : A → Bool) (f : A → A) (w : A → ℕ)
      → ((x : A) → p x ≡ true → w (f x) ≤ w x)
      → (xs : List A) → sum_by w (update_where p f xs).0 ≤ sum_by w xs
  unfolding sum_by update_where
  sum_by-update_where-le p f w h [] = omega arith
  sum_by-update_where-le p f w h (x ∷ xs) = ground (arith, h x, sum_by-update_where-le p f w h xs)

  -- What the changed rows lose is what the sum loses.
  pub sum_by-update_where-drop :
      (p : A → Bool) (f : A → A) (w : A → ℕ)
      → ((x : A) → p x ≡ true → w (f x) ≡ 0)
      → (xs : List A) → sum_by w (update_where p f xs).0 + sum_by w (select p xs) ≡ sum_by w xs
  unfolding sum_by update_where select
  sum_by-update_where-drop p f w h [] = refl
  sum_by-update_where-drop p f w h (x ∷ xs) =
      ground (arith, h x, sum_by-update_where-drop p f w h xs)

  -- A SELECT that misses the changed rows, before and after the change, reads the same rows.
  pub select-update_where :
      (p q : A → Bool) (f : A → A)
      → ((x : A) → p x ≡ true → (q x ≡ false) × (q (f x) ≡ false))
      → (xs : List A) → select q (update_where p f xs).0 ≡ select q xs
  unfolding select update_where
  select-update_where p q f miss [] = refl
  select-update_where p q f miss (x ∷ xs) = elim (Bool-cases (p x)) [
    | inl hit ↦
        let (before, after) = miss x hit in
        rw hit (rw before (rw after (select-update_where p q f miss xs)))
    | inr other ↦ rw other (again (q x) (select-update_where p q f miss xs))
  ]
    where
      again :
          {ys zs : List A} (b : Bool)
          → ys ≡ zs
          → (if b then x ∷ ys else ys) ≡ (if b then x ∷ zs else zs)
      again b e = ap (λ ys. if b then x ∷ ys else ys) e

  -- A test that the change keeps.
  pub exists-update_where :
      (p q : A → Bool) (f : A → A)
      → ((x : A) → q (f x) ≡ q x)
      → (xs : List A) → exists q (update_where p f xs).0 ≡ exists q xs
  unfolding exists update_where
  exists-update_where p q f keep [] = refl
  exists-update_where p q f keep (x ∷ xs) = elim (Bool-cases (p x)) [
    | inl hit ↦ rw hit (rw (keep x) (rw (exists-update_where p q f keep xs) refl))
    | inr other ↦ rw other (rw (exists-update_where p q f keep xs) refl)
  ]

  pub select-ext :
      (p q : A → Bool) → ((x : A) → p x ≡ q x) → (xs : List A) → select p xs ≡ select q xs
  unfolding select
  select-ext p q same [] = refl
  select-ext p q same (x ∷ xs) = rw (same x) (rw (select-ext p q same xs) refl)

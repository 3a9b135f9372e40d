-- ===== src/Sql/Keys.antt =====
-- Primary keys: a row that a query found is the only one with its key.
use myfipay.Base.{
  ◌≡◌, ◌≢◌, refl, ap, sym, subst, String, List, [], ◌∷◌, some, Bool, true, false, not, ◌&&◌,
  if◌then◌else◌, if-cases, Bool-cases, inl, inr, ◌==◌, string_eq, ==→eq, ==-refl, arith,
}
use myfipay.Sql.{update_where, delete_where, exists, first}
use myfipay.Sql.Rows.{Rows, done, row, exists-update_where}

module _ {A : Type 0} where
  -- No two rows have the same key.
  unfoldable pub is_key : (A → String) → List A → Bool
  unfolding exists
  is_key key [] = true
  is_key key (x ∷ xs) = let rest = is_key key xs in not (exists (λ y. key y == key x) xs) && rest

  abbrev pub AllRows : (A → Type 0) → List A → Type 0
  AllRows P [] = Unit
  AllRows P (x ∷ xs) = P x × AllRows P xs

  pub update_where-AllRows :
      {R : A → A → Type 0} (p : A → Bool) (f : A → A) (xs : List A)
      → AllRows (λ x. p x ≡ true → R x (f x)) xs
      → ((x : A) → R x x)
      → Rows R xs (update_where p f xs).0
  unfolding update_where
  update_where-AllRows p f [] change keep = done
  update_where-AllRows p f (x ∷ xs) (head, tail) keep = elim (Bool-cases (p x)) [
    | inl hit ↦ rw hit (row (head hit) (update_where-AllRows p f xs tail keep))
    | inr miss ↦ rw miss (row (keep x) (update_where-AllRows p f xs tail keep))
  ]

  some-inv : {x y : A} → some x ≡ some y → x ≡ y
  some-inv h = cc

  -- What a query found has its key among the rows.
  first-exists :
      (key : A → String) (p : A → Bool) (xs : List A) (y : A)
      → first p xs ≡ some y
      → exists (λ z. key z == key y) xs ≡ true
  unfolding first exists
  first-exists key p [] y h = cc
  first-exists key p (x ∷ xs) y h = elim (Bool-cases (p x)) [
    | inl hit ↦
        let same = some-inv (subst (λ b. (if b then some x else first p xs) ≡ some y) hit h) in
        rw (ap key same) (rw (==-refl (key y)) refl)
    | inr miss ↦
        found (key x == key y) (
          first-exists key p xs y (subst (λ b. (if b then some x else first p xs) ≡ some y) miss h))
  ]
    where
      found : {c : Bool} (b : Bool) → c ≡ true → (if b then true else c) ≡ true
      found b h = ground arith

  absent-AllRows :
      (key : A → String) (k : String) (y : A) (xs : List A)
      → exists (λ z. key z == k) xs ≡ false
      → AllRows (λ x. (key x == k) ≡ true → x ≡ y) xs
  unfolding exists
  absent-AllRows key k y [] h = tt
  absent-AllRows key k y (x ∷ xs) h = (
    λ hit. absurd (both (key x == k) (exists (λ z. key z == k) xs) hit h),
    absent-AllRows key k y xs (rest (key x == k) (exists (λ z. key z == k) xs) h),
  )
    where
      both : (b c : Bool) → b ≡ true → (if b then true else c) ≢ false
      both b c h g = ground arith

      rest : (b c : Bool) → (if b then true else c) ≡ false → c ≡ false
      rest b c h = ground arith

  pub first-AllRows :
      (key : A → String) (p : A → Bool) (xs : List A) (y : A)
      → is_key key xs ≡ true
      → first p xs ≡ some y
      → AllRows (λ x. (key x == key y) ≡ true → x ≡ y) xs
  unfolding first is_key
  first-AllRows key p [] y k h = tt
  first-AllRows key p (x ∷ xs) y k h = elim (Bool-cases (p x)) [
    | inl hit ↦
        let same = some-inv (subst (λ b. (if b then some x else first p xs) ≡ some y) hit h) in
        (
          λ _. same,
          absent-AllRows key (key y) y xs
              (subst (λ w. exists (λ z. key z == key w) xs ≡ false) same (fresh _ _ k)),
        )
    | inr miss ↦
        let h' = subst (λ b. (if b then some x else first p xs) ≡ some y) miss h in
        (
          λ hit. absurd (
              clash (fresh _ _ k) (
                subst (λ w. exists (λ z. key z == w) xs ≡ true) (sym (==→eq (key x) (key y) hit))
                  (first-exists key p xs y h'))),
          first-AllRows key p xs y (others _ _ k) h',
        )
  ]
    where
      fresh : (b c : Bool) → not b && c ≡ true → b ≡ false
      fresh b c h = ground arith

      others : (b c : Bool) → not b && c ≡ true → c ≡ true
      others b c h = ground arith

      clash : {b : Bool} → b ≡ false → b ≢ true
      clash f t = cc

  pub is_key-cons :
      (key : A → String) (x : A) (xs : List A)
      → exists (λ y. key y == key x) xs ≡ false
      → is_key key xs ≡ true
      → is_key key (x ∷ xs) ≡ true
  unfolding is_key
  is_key-cons key x xs fresh rest = rw fresh rest

  pub is_key-head :
      (key : A → String) (x : A) (xs : List A)
      → is_key key (x ∷ xs) ≡ true
      → exists (λ y. key y == key x) xs ≡ false
  unfolding is_key
  is_key-head key x xs h = absent (exists (λ y. key y == key x) xs) (is_key key xs) h
    where
      absent : (b c : Bool) → not b && c ≡ true → b ≡ false
      absent b c h = ground arith

  pub is_key-tail :
      (key : A → String) (x : A) (xs : List A) → is_key key (x ∷ xs) ≡ true → is_key key xs ≡ true
  unfolding is_key
  is_key-tail key x xs h = others (exists (λ y. key y == key x) xs) (is_key key xs) h
    where
      others : (b c : Bool) → not b && c ≡ true → c ≡ true
      others b c h = ground arith

  pub exists-delete_where :
      (p q : A → Bool) (xs : List A) → exists q xs ≡ false → exists q (delete_where p xs) ≡ false
  unfolding exists delete_where
  exists-delete_where p q [] h = refl
  exists-delete_where p q (x ∷ xs) h = ground (arith, exists-delete_where p q xs)

  pub is_key-delete_where :
      (key : A → String) (p : A → Bool) (xs : List A)
      → is_key key xs ≡ true
      → is_key key (delete_where p xs) ≡ true
  unfolding delete_where
  is_key-delete_where key p [] h = h
  is_key-delete_where key p (x ∷ xs) h =
      if-cases (λ rows. is_key key rows ≡ true) (p x)
        (λ _. is_key-delete_where key p xs (is_key-tail key x xs h))
        (λ _.
          is_key-cons key x (delete_where p xs)
            (exists-delete_where p (λ y. key y == key x) xs (is_key-head key x xs h))
            (is_key-delete_where key p xs (is_key-tail key x xs h)))

  -- An UPDATE that keeps the keys.
  pub is_key-update_where :
      (key : A → String) (p : A → Bool) (f : A → A)
      → ((x : A) → key (f x) ≡ key x)
      → (xs : List A) → is_key key (update_where p f xs).0 ≡ is_key key xs
  unfolding update_where is_key
  is_key-update_where key p f keep [] = refl
  is_key-update_where key p f keep (x ∷ xs) = elim (Bool-cases (p x)) [
    | inl hit ↦ rw hit (
        rw (keep x) (
          rw (exists-update_where p (λ y. key y == key x) f (λ y. ap (λ k. k == key x) (keep y)) xs)
            (rw (is_key-update_where key p f keep xs) refl)))
    | inr miss ↦ rw miss (
        rw (exists-update_where p (λ y. key y == key x) f (λ y. ap (λ k. k == key x) (keep y)) xs)
          (rw (is_key-update_where key p f keep xs) refl))
  ]

  pub update_where-none :
      (p : A → Bool) (f : A → A) (xs : List A) → exists p xs ≡ false → (update_where p f xs).0 ≡ xs
  unfolding update_where exists
  update_where-none p f [] h = refl
  update_where-none p f (x ∷ xs) h = elim (Bool-cases (p x)) [
    | inl hit ↦ absurd (ground (arith, hit, h))
    | inr miss ↦ rw miss (
        ap (λ rows. x ∷ rows)
          (update_where-none p f xs
            (subst (λ b. (if b then true else exists p xs) ≡ false) miss h)))
  ]

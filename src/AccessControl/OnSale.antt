-- ===== src/AccessControl/OnSale.antt =====
-- The vouchers that a batch adds, found by their codes.
use myfipay.Base.{
  ℕ, suc, ◌≡◌, ◌≢◌, refl, ap, sym, subst, ◌∙◌, ◌⊎◌, inl, inr, String, List, [], ◌∷◌, some, Bool,
  true, false, ◌&&◌, arith, if◌then◌else◌, if-cases, Bool-cases, ◌==◌, string_eq, ==→eq, ==-refl,
}
use myfipay.Sql.{exists, first}
use myfipay.Db.{Db, Voucher}
use myfipay.Operator.Batches.{BatchForm, new_voucher, insert_vouchers}

module _ (ids : ℕ → String) (batch_id : String) (req : BatchForm) where
  abbrev put : ℕ → String → List Voucher → List Voucher
  put i c vs = if exists (λ v. v.code == c) vs then vs else new_voucher batch_id req (ids i) c ∷ vs

  abbrev pub put_all : ℕ → List String → List Voucher → List Voucher
  put_all i [] vs = vs
  put_all i (c ∷ codes) vs = put_all (suc i) codes (put i c vs)

  -- The loop of the INSERTs changes the vouchers only.
  pub insert_vouchers-put_all :
      (i : ℕ) (codes : List String) (db : Db)
      → insert_vouchers (λ j. true) ids batch_id req i codes db
        ≡ record db { vouchers = put_all i codes db.vouchers }
  unfolding insert_vouchers
  insert_vouchers-put_all i [] db = refl
  insert_vouchers-put_all i (c ∷ codes) db =
      ap (insert_vouchers (λ j. true) ids batch_id req (suc i) codes)
        (inserted (exists (λ v. v.code == c) db.vouchers))
      ∙ insert_vouchers-put_all (suc i) codes (record db { vouchers = put i c db.vouchers })
    where
      inserted :
          (b : Bool)
          → (if b
              then db
              else record db { vouchers = new_voucher batch_id req (ids i) c ∷ db.vouchers })
            ≡ record db {
              vouchers =
                  if b then db.vouchers else new_voucher batch_id req (ids i) c ∷ db.vouchers;
            }
      inserted true = refl
      inserted false = refl

  module _ (c : String) (here : Voucher → Bool)
      (at_location : (i : ℕ) → here (new_voucher batch_id req (ids i) c) ≡ true) where
    abbrev pub is_it : Voucher → Bool
    is_it v = v.code == c && here v

    -- The code is found, unused and for the plan of the batch.
    pub record IsOnSale (vs : List Voucher) : Type 0 where
      pub voucher : Voucher
      pub found : first is_it vs ≡ some voucher
      pub unused : voucher.status ≡ "unused"
      pub for_plan : voucher.plan_id ≡ req.plan_id

    code_exists :
        (vs : List Voucher) (v : Voucher)
        → first is_it vs ≡ some v
        → exists (λ v. v.code == c) vs ≡ true
    unfolding first exists
    code_exists [] v h = cc
    code_exists (w ∷ vs) v h = ground (arith, code_exists vs v)

    other_first :
        (w : Voucher) (vs : List Voucher)
        → (w.code == c) ≡ false
        → first is_it (w ∷ vs) ≡ first is_it vs
    unfolding first
    other_first w vs h = rw h refl

    put-IsOnSale : (i : ℕ) (d : String) (vs : List Voucher) → IsOnSale vs → IsOnSale (put i d vs)
    put-IsOnSale i d vs s =
        if-cases (λ ws. IsOnSale ws) (exists (λ v. v.code == d) vs) (λ _. s)
          (λ fresh.
            let apart = different fresh in
            record {
              voucher = s.voucher;
              found = other_first (new_voucher batch_id req (ids i) d) vs apart ∙ s.found;
              unused = s.unused;
              for_plan = s.for_plan;
            })
      where
        clash : {b : Bool} → b ≡ false → b ≢ true
        clash f t = cc

        different : exists (λ v. v.code == d) vs ≡ false → (d == c) ≡ false
        different fresh = elim (Bool-cases (d == c)) [
          | inl e ↦ absurd (
              clash (subst (λ k. exists (λ v. v.code == k) vs ≡ false) (==→eq d c e) fresh)
                (code_exists vs s.voucher s.found))
          | inr ne ↦ ne
        ]

    put-fresh :
        (i : ℕ) (d : String) (vs : List Voucher)
        → exists (λ v. v.code == c) vs ≡ false
        → IsOnSale (put i d vs)
          ⊎ ((exists (λ v. v.code == c) (put i d vs) ≡ false) × ((d == c) ≡ false))
    unfolding exists first
    put-fresh i d vs fresh = elim (Bool-cases (d == c)) [
      | inl e ↦ inl (
          subst (λ k. IsOnSale (put i k vs)) (sym (==→eq d c e))
            (rw fresh (record {
              voucher = new_voucher batch_id req (ids i) c;
              found = rw (==-refl c) (rw (at_location i) refl);
              unused = refl;
              for_plan = refl;
            })))
      | inr ne ↦ inr (
        if-cases (λ (ws : List Voucher). exists (λ (v : Voucher). v.code == c) ws ≡ false)
            (exists (λ (v : Voucher). v.code == d) vs) (λ _. fresh) (λ _. rw ne fresh),
        ne,
      )
    ]

    put_all-keeps :
        (i : ℕ) (codes : List String) (vs : List Voucher)
        → IsOnSale vs
        → IsOnSale (put_all i codes vs)
    put_all-keeps i [] vs s = s
    put_all-keeps i (d ∷ codes) vs s =
        put_all-keeps (suc i) codes (put i d vs) (put-IsOnSale i d vs s)

    -- Every code of the loop that was fresh is on sale after it.
    pub put_all-IsOnSale :
        (i : ℕ) (codes : List String) (vs : List Voucher)
        → exists (λ v. v.code == c) vs ≡ false
        → exists (λ d. d == c) codes ≡ true
        → IsOnSale (put_all i codes vs)
    unfolding exists
    put_all-IsOnSale i [] vs fresh h = cc
    put_all-IsOnSale i (d ∷ codes) vs fresh h = elim (put-fresh i d vs fresh) [
      | inl s ↦ put_all-keeps (suc i) codes (put i d vs) s
      | inr miss ↦
          put_all-IsOnSale (suc i) codes (put i d vs) miss.0
            (subst (λ b. (if b then true else exists (λ d. d == c) codes) ≡ true) miss.1 h)
    ]

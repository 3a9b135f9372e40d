-- ===== src/Payout/Covered.antt =====
-- Withdrawals never exceed what the operator has earned: what the payouts of a tenant claim, with
-- the platform's cut, stays within the tenant's mobile-money revenue.
use native.Mathlib.Nat.{zero-add}
use myfipay.Base.{
  ℕ, ◌+◌, ◌<◌, ◌≤◌, ◌≡◌, sym, ◌∙◌, subst, ◌⊎◌, inl, inr, String, ◌∷◌, Option, none, some, Bool,
  true, ◌&&◌, arith, sum_by, ◌==◌, string_eq, ==→eq, ==-refl, Bool-cases,
}
use myfipay.Base.Int.{ℤ, pos, pos_part, int_max, ◌≤ℤ◌}
use myfipay.Float64.{Float64, significand}
use myfipay.Db.{Db, Payout, status_eq}
use myfipay.Sql.Rows.{weight, sum_by-select}
use myfipay.Money.{
  platform_commission, operator_available, parse_commission_rate, default_commission_rate,
}
use myfipay.Money.Bounds.{IsRate, operator_available_splits}
use myfipay.Payout.Requests.{IsAdmitted, check_request_cases, check_undecoded}
use myfipay.Payout.{
  PayoutForm, new_payout, tenant_balance, rate_setting, gross_mobile_money, claimed, ties_balance,
  insert_payout, request_operator_payout, fits_amount,
}

-- The amount by which a payout ties the balance of a tenant.
abbrev pub claim : String → Payout → ℕ
claim tenant_id =
    weight (λ po. po.tenant_id == tenant_id && ties_balance po.status) (λ po. po.amount_ugx)

pub claimed-eq : (db : Db) (t : String) → claimed db t ≡ sum_by (claim t) db.payouts
unfolding claimed
claimed-eq db t = sum_by-select _ _ db.payouts

-- Every read of the balance reaches the database.
pub record AllRead (ok : ℕ → Bool) : Type 0 where
  pub rate_read : ok 0 ≡ true
  pub gross_read : ok 1 ≡ true
  pub claimed_read : ok 2 ≡ true

room :
    (g w a c left : ℕ) {fee available : ℤ}
    → fee ≡ pos c
    → available ≡ pos left
    → (c + w + left ≡ g) ⊎ ((g < c + w) × (left ≡ 0))
    → pos_part fee + w ≤ g
    → pos a ≤ℤ available
    → pos_part fee + (a + w) ≤ g
room g w a c left e f splits covered le = ground arith

module _ (unspecified : Float64 → ℤ) (parse_float : String → Option Float64) where
  -- The rate in force for a tenant.
  abbrev pub rate_of : Db → String → Float64
  rate_of db t = parse_commission_rate parse_float (rate_setting db t) default_commission_rate

  -- The platform's cut and all claims on the balance are within the revenue.
  abbrev pub IsCovered : Db → String → Type 0
  IsCovered db t =
      pos_part (platform_commission unspecified (pos (gross_mobile_money db t)) (rate_of db t))
        + claimed db t
      ≤ gross_mobile_money db t

  -- The balance can be computed: the rate is admissible and the sums are far from overflow.
  pub record IsSound (db : Db) (t : String) : Type 0 where
    pub rate_ok : IsRate (rate_of db t)
    pub gross_ok : gross_mobile_money db t < significand
    pub claimed_ok : claimed db t ≤ int_max

  pub available-eq :
      (ok : ℕ → Bool) (db : Db) (t : String)
      → AllRead ok
      → (tenant_balance unspecified parse_float ok db t).available
        ≡ operator_available unspecified
            (pos (gross_mobile_money db t))
            (rate_of db t)
            (pos (claimed db t))
  unfolding tenant_balance
  available-eq ok db t r = rw (r.rate_read, r.gross_read, r.claimed_read)

  -- One more row adds its claim, and changes neither the revenue nor the rate.
  insert-IsCovered :
      (db : Db) (t : String) (po : Payout)
      → pos_part (platform_commission unspecified (pos (gross_mobile_money db t)) (rate_of db t))
          + (claim t po + claimed db t)
        ≤ gross_mobile_money db t
      → IsCovered (record db { payouts = po ∷ db.payouts }) t
  unfolding gross_mobile_money rate_setting sum_by
  insert-IsCovered db t po h =
      rw (claimed-eq (record db { payouts = po ∷ db.payouts }) t) (rw (claimed-eq db t) at h)

  -- What is available, with all claims and the platform's cut, is the revenue.
  available_room :
      (ok : ℕ → Bool) (db : Db) (t : String) (a : ℕ)
      → AllRead ok
      → IsSound db t
      → IsCovered db t
      → pos a ≤ℤ (tenant_balance unspecified parse_float ok db t).available
      → pos_part (platform_commission unspecified (pos (gross_mobile_money db t)) (rate_of db t))
          + (a + claimed db t)
        ≤ gross_mobile_money db t
  available_room ok db t a r s covered le =
      let (c, left, fee, rest, splits) =
        operator_available_splits unspecified (gross_mobile_money db t) (claimed db t)
          (rate_of db t) s.gross_ok s.claimed_ok s.rate_ok in
      room (gross_mobile_money db t) (claimed db t) a c left fee (available-eq ok db t r ∙ rest)
        splits covered le

  -- The revenue of u covers its claims with the new row.
  abbrev Extended : String → String → String → Db → PayoutForm → String → Type 0
  Extended t user id db req u =
      pos_part (platform_commission unspecified (pos (gross_mobile_money db u)) (rate_of db u))
        + (claim u (new_payout t user id req) + claimed db u)
      ≤ gross_mobile_money db u

  own_claim :
      (ok : ℕ → Bool) (db : Db) (t user id : String) (req : PayoutForm)
      → AllRead ok
      → IsSound db t
      → IsAdmitted (tenant_balance unspecified parse_float ok db t).available req
      → IsCovered db t
      → Extended t user id db req t
  unfolding ties_balance
  own_claim ok db t user id req r s a h = rw (==-refl t) (
      available_room ok db t (pos_part req.amount_ugx) r s h (
        subst (λ x. x ≤ℤ (tenant_balance unspecified parse_float ok db t).available) a.amount_pos
          a.most))

  insert_payout-IsCovered :
      (ok : ℕ → Bool) (db : Db) (t user id : String) (req : PayoutForm) (t' : String)
      → AllRead ok
      → IsSound db t
      → IsAdmitted (tenant_balance unspecified parse_float ok db t).available req
      → IsCovered db t'
      → IsCovered (insert_payout (ok 3) db (new_payout t user id req)).1 t'
  unfolding insert_payout
  insert_payout-IsCovered ok db t user id req t' r s a h =
      elim (Bool-cases (ok 3 && fits_amount (pos_part req.amount_ugx))) [
        | inl inserted ↦ rw inserted (
            insert-IsCovered db t' (new_payout t user id req) (elim (Bool-cases (t == t')) [
              | inl same ↦ subst (Extended t user id db req) (==→eq t t' same) (
                  own_claim ok db t user id req r s a
                    (subst (IsCovered db) (sym (==→eq t t' same)) h))
              | inr other ↦ rw (other, zero-add (claimed db t')) h
            ]))
        | inr failed ↦ rw failed h
      ]

  -- A request keeps the payouts of every tenant covered, when its three reads of the balance
  -- reach the database.
  pub request-IsCovered :
      (ok : ℕ → Bool) (db : Db) (t user id : String) (req : Option PayoutForm) (t' : String)
      → AllRead ok
      → IsSound db t
      → IsCovered db t'
      → IsCovered (request_operator_payout unspecified parse_float ok db t user id req).1 t'
  unfolding request_operator_payout
  request-IsCovered ok db t user id none t' r s h =
      rw (check_undecoded unspecified parse_float ok db t user id) h
  request-IsCovered ok db t user id (some req) t' r s h =
      elim (check_request_cases unspecified parse_float ok db t user id req) [
        | inl (answer, e, _) ↦ rw e h
        | inr (e, a) ↦ rw e (insert_payout-IsCovered ok db t user id req t' r s a h)
      ]

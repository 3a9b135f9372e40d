-- ===== src/Payout/Requests.antt =====
-- What a withdrawal request answers, and what it leaves in the database.
use myfipay.Base.{
  ℕ, ◌≤◌, ◌≡◌, refl, ◌≢◌, ◌⊎◌, inl, inr, String, ◌∷◌, Option, none, some, Bool, true, false, ◌&&◌,
  arith, ◌==◌, string_eq, ne→==, Bool-cases,
}
use myfipay.Base.Int.{ℤ, pos, negsuc, ltb_ℤ, pos_part, ◌≤ℤ◌}
use myfipay.Float64.{Float64}
use myfipay.Http.{Reply, respond, respond_error}
use myfipay.Db.{Db, status_eq}
use myfipay.Text.{trim_space}
use myfipay.Money.{min_payout_ugx}
use myfipay.Payout.{
  PayoutForm, Created, new_payout, tenant_balance, check_request, insert_payout,
  request_operator_payout, fits_amount,
}

-- The form of a request that the checks let through.
pub record IsAdmitted (available : ℤ) (req : PayoutForm) : Type 0 where
  pub phone_some : trim_space req.momo_phone ≢ ""
  pub amount_pos : req.amount_ugx ≡ pos (pos_part req.amount_ugx)
  pub least : 5000 ≤ pos_part req.amount_ugx
  pub most : req.amount_ugx ≤ℤ available

in_column : (n : ℕ) → 5000 ≤ n → n ≤ 0x7fff_ffff → fits_amount n ≡ true
in_column n least fits = ground arith

at_least : (a : ℤ) → ltb_ℤ a min_payout_ugx ≡ false → (a ≡ pos (pos_part a)) × (5000 ≤ pos_part a)
at_least (pos n) h = ground arith
at_least (negsuc n) h = ground arith

admitted :
    (available : ℤ) (req : PayoutForm)
    → (trim_space req.momo_phone == "") ≡ false
    → ltb_ℤ req.amount_ugx min_payout_ugx ≡ false
    → ltb_ℤ available req.amount_ugx ≡ false
    → IsAdmitted available req
admitted available req phone low short = record {
  phone_some = λ e. cc (phone, (string_eq.equals_iff _ _).1 e);
  amount_pos = (at_least req.amount_ugx low).0;
  least = (at_least req.amount_ugx low).1;
  most = ground arith;
}

not_low : (a : ℤ) → a ≡ pos (pos_part a) → 5000 ≤ pos_part a → ltb_ℤ a min_payout_ugx ≡ false
not_low (pos n) e h = ground arith
not_low (negsuc n) e h = ground arith

not_short : (a available : ℤ) → a ≤ℤ available → ltb_ℤ available a ≡ false
not_short a available h = ground arith

pub accepted :
    (reached : Bool) (db : Db) (t user id : String) (form : PayoutForm)
    → reached ≡ true
    → form.amount_ugx ≡ pos (pos_part form.amount_ugx)
    → 5000 ≤ pos_part form.amount_ugx
    → pos_part form.amount_ugx ≤ 0x7fff_ffff
    → insert_payout reached db (new_payout t user id form) ≡ (
      respond 201 (id, form.amount_ugx),
      record db { payouts = new_payout t user id form ∷ db.payouts },
    )
unfolding insert_payout
accepted reached db t user id form r e least fits =
    rw (r, in_column (pos_part form.amount_ugx) least fits, ← e)

module _ (unspecified : Float64 → ℤ) (parse_float : String → Option Float64) where
  pub check_request_cases :
      (ok : ℕ → Bool) (db : Db) (t user id : String) (req : PayoutForm)
      → ((answer : Reply Created) × (check_request unspecified parse_float ok db t user id
              (some req)
            ≡ inl answer)
          × (answer.success ≡ false))
        ⊎ ((check_request unspecified parse_float ok db t user id (some req)
              ≡ inr (new_payout t user id req))
            × IsAdmitted (tenant_balance unspecified parse_float ok db t).available req)
  unfolding check_request
  check_request_cases ok db t user id req = elim (Bool-cases (trim_space req.momo_phone == "")) [
    | inl blank ↦
        inl (respond_error 422 "VALIDATION_ERROR" "momo_phone is required", rw blank, refl)
    | inr phone ↦ elim (Bool-cases (ltb_ℤ req.amount_ugx min_payout_ugx)) [
      | inl low ↦ inl (
        respond_error 422 "AMOUNT_TOO_LOW" "minimum withdrawal is UGX 5,000",
        rw (phone, low),
        refl,
      )
      | inr least ↦
          elim (Bool-cases
            (ltb_ℤ (tenant_balance unspecified parse_float ok db t).available req.amount_ugx)) [
              | inl short ↦ inl (
                respond_error 422 "INSUFFICIENT_BALANCE"
                    "requested amount exceeds available balance",
                rw (phone, least, short),
                refl,
              )
              | inr covered ↦ inr (
                rw (phone, least, covered),
                admitted (tenant_balance unspecified parse_float ok db t).available req phone least
                    covered,
              )
            ]
    ]
  ]

  pub check_undecoded :
      (ok : ℕ → Bool) (db : Db) (t user id : String)
      → check_request unspecified parse_float ok db t user id none
        ≡ inl (respond_error 400 "VALIDATION_ERROR" "invalid request body")
  unfolding check_request
  check_undecoded ok db t user id = refl

  module _ (ok : ℕ → Bool) (db : Db) (t user id : String) where
    inserted_cases :
        (req : PayoutForm)
        → IsAdmitted (tenant_balance unspecified parse_float ok db t).available req
        → (b : Bool) → (ok 3 && fits_amount (pos_part req.amount_ugx)) ≡ b
        → let (reply, db') = insert_payout (ok 3) db (new_payout t user id req) in
          ((reply.success ≡ false) × (db' ≡ db))
          ⊎ ((form : PayoutForm) × (◌≡◌ {A = Option PayoutForm} (some req) (some form))
              × IsAdmitted (tenant_balance unspecified parse_float ok db t).available form
              × (reply ≡ respond 201 (id, form.amount_ugx))
              × (db' ≡ record db { payouts = new_payout t user id form ∷ db.payouts }))
    unfolding insert_payout
    inserted_cases req a true e = rw e (inr (req, refl, a, rw (← a.amount_pos), refl))
    inserted_cases req a false e = rw e (inl (refl, refl))

    pub check_request_passes :
        (req : PayoutForm)
        → IsAdmitted (tenant_balance unspecified parse_float ok db t).available req
        → check_request unspecified parse_float ok db t user id (some req)
          ≡ inr (new_payout t user id req)
    unfolding check_request
    check_request_passes req a = rw (
      ne→== (trim_space req.momo_phone) "" a.phone_some,
      not_low req.amount_ugx a.amount_pos a.least,
      not_short req.amount_ugx (tenant_balance unspecified parse_float ok db t).available a.most,
    )

  pub request_operator_payout_cases :
      (ok : ℕ → Bool) (db : Db) (t user id : String) (req : Option PayoutForm)
      → let (reply, db') = request_operator_payout unspecified parse_float ok db t user id req in
        ((reply.success ≡ false) × (db' ≡ db))
        ⊎ ((form : PayoutForm) × (req ≡ some form)
            × IsAdmitted (tenant_balance unspecified parse_float ok db t).available form
            × (reply ≡ respond 201 (id, form.amount_ugx))
            × (db' ≡ record db { payouts = new_payout t user id form ∷ db.payouts }))
  unfolding request_operator_payout
  request_operator_payout_cases ok db t user id none =
      inl (rw (check_undecoded ok db t user id) (refl, refl))
  request_operator_payout_cases ok db t user id (some req) =
      elim (check_request_cases ok db t user id req) [
        | inl (answer, e, bad) ↦ inl (rw e (bad, refl))
        | inr (e, a) ↦ rw e (
            inserted_cases ok db t user id req a (ok 3 && fits_amount (pos_part req.amount_ugx))
              refl)
      ]

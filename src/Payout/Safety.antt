-- ===== src/Payout/Safety.antt =====
-- No sequence of requests and reviews withdraws more than was earned.
use myfipay.Base.{
  ℕ, ◌≤◌, ◌<◌, ◌≡◌, refl, inl, inr, String, List, [], ◌∷◌, Option, Bool, true, false, arith,
  if◌then◌else◌,
}
use myfipay.Base.Int.{ℤ}
use myfipay.Float64.{Float64, significand}
use myfipay.Db.{Db, Payout}
use myfipay.Money.Bounds.{IsRate}
use native.Mathlib.Nat.{le_of_eq}
use myfipay.Payout.{
  PayoutForm, is_platform_held, request_operator_payout, approve_payout, reject_payout,
  mark_operator_payout_paid, gross_mobile_money, claimed, rate_setting,
}
use myfipay.Payout.Requests.{request_operator_payout_cases}
use myfipay.Payout.Covered.{IsCovered, IsSound, AllRead, rate_of, request-IsCovered}
use myfipay.Payout.Claims.{
  approve_payout-claimed, mark_operator_payout_paid-claimed, reject_payout-claimed-le,
}
use myfipay.Payout.History.{Call, requests, approves_payout, rejects_payout, marks_paid, step, run}

-- In a request, the reads of the balance reach the database.
abbrev pub Reads : Call → Type 0
Reads (requests ok t user id form) = AllRead ok
Reads (approves_payout reached id user now) = Unit
Reads (rejects_payout reached id reason user now) = Unit
Reads (marks_paid reached id reference now) = Unit

abbrev pub AllReads : List Call → Type 0
AllReads [] = Unit
AllReads (c ∷ cs) = Reads c × AllReads cs

module _ (unspecified : Float64 → ℤ) (parse_float : String → Option Float64) where
  -- Every tenant has an admissible rate, a revenue below 2^53 and covered payouts.
  pub record IsSafe (db : Db) : Type 0 where
    pub rates : (t : String) → IsRate (rate_of unspecified parse_float db t)
    pub revenues : (t : String) → gross_mobile_money db t < significand
    pub covered : (t : String) → IsCovered unspecified parse_float db t

  -- Reviews and requests touch the payouts alone, which enter neither the revenue nor the rate.
  SameSums : Db → Db → Type 0
  SameSums db db' =
      (t : String)
      → (gross_mobile_money db' t ≡ gross_mobile_money db t)
        × (rate_setting db' t ≡ rate_setting db t)

  payouts-SameSums : (db : Db) (rows : List Payout) → SameSums db (record db { payouts = rows })
  unfolding SameSums gross_mobile_money rate_setting is_platform_held
  payouts-SameSums db rows t = (refl, refl)

  reviewed-SameSums :
      (db : Db) (rows : List Payout) (reached : Bool)
      → SameSums db (if reached then record db { payouts = rows } else db)
  unfolding SameSums
  reviewed-SameSums db rows true = payouts-SameSums db rows
  reviewed-SameSums db rows false = λ t. (refl, refl)

  request-SameSums :
      (ok : ℕ → Bool) (db : Db) (t user id : String) (form : Option PayoutForm)
      → SameSums db (request_operator_payout unspecified parse_float ok db t user id form).1
  unfolding SameSums
  request-SameSums ok db t user id form u =
      elim (request_operator_payout_cases unspecified parse_float ok db t user id form) [
        | inl (_, same) ↦ rw same (refl, refl)
        | inr (f, _, _, _, more) ↦ rw more (payouts-SameSums db _ u)
      ]

  lower-IsSafe :
      (db db' : Db)
      → SameSums db db'
      → ((t : String) → claimed db' t ≤ claimed db t)
      → IsSafe db
      → IsSafe db'
  unfolding SameSums
  lower-IsSafe db db' same le s = record {
    rates = λ t. rw (same t).1 (s.rates t);
    revenues = λ t. rw (same t).0 (s.revenues t);
    covered = λ t. rw ((same t).0, (same t).1) (omega (arith, le t, s.covered t));
  }

  request-IsSafe :
      (ok : ℕ → Bool) (db : Db) (t user id : String) (form : Option PayoutForm)
      → AllRead ok
      → IsSafe db
      → IsSafe (request_operator_payout unspecified parse_float ok db t user id form).1
  unfolding SameSums
  request-IsSafe ok db t user id form r s =
      let same = request-SameSums ok db t user id form in
      let sound : IsSound unspecified parse_float db t = record {
        rate_ok = s.rates t;
        gross_ok = s.revenues t;
        claimed_ok = omega (arith, s.revenues t, s.covered t);
      } in
      record {
        rates = λ u. rw (same u).1 (s.rates u);
        revenues = λ u. rw (same u).0 (s.revenues u);
        covered = λ u.
            request-IsCovered unspecified parse_float ok db t user id form u r sound (s.covered u);
      }

  step-IsSafe :
      (db : Db) (c : Call) → Reads c → IsSafe db → IsSafe (step unspecified parse_float db c)
  unfolding step approve_payout reject_payout mark_operator_payout_paid
  step-IsSafe db (requests ok t user id form) r s = request-IsSafe ok db t user id form r s
  step-IsSafe db (approves_payout reached id user now) r s =
      lower-IsSafe db _ (reviewed-SameSums db _ reached)
        (λ t. le_of_eq (approve_payout-claimed reached db id user now t)) s
  step-IsSafe db (rejects_payout reached id reason user now) r s =
      lower-IsSafe db _ (reviewed-SameSums db _ reached)
        (λ t. reject_payout-claimed-le reached db id reason user now t) s
  step-IsSafe db (marks_paid reached id reference now) r s =
      lower-IsSafe db _ (reviewed-SameSums db _ reached)
        (λ t. le_of_eq (mark_operator_payout_paid-claimed reached db id reference now t)) s

  -- From a safe database, whatever requests and reviews follow, each tenant's pending, approved and
  -- paid payouts with the platform's cut never exceed the tenant's mobile-money revenue.
  pub run-IsSafe :
      (db : Db) (cs : List Call)
      → AllReads cs
      → IsSafe db
      → IsSafe (run unspecified parse_float db cs)
  unfolding run
  run-IsSafe db [] r s = s
  run-IsSafe db (c ∷ cs) r s =
      run-IsSafe (step unspecified parse_float db c) cs r.1 (step-IsSafe db c r.0 s)

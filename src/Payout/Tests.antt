-- ===== src/Payout/Tests.antt =====
-- The operator payouts at concrete inputs.
use myfipay.Base.{
  ◌<◌, ℕ, ◌+◌, ◌≤◌, ◌≡◌, refl, inl, inr, String, List, [], ◌∷◌, Option, none, some, Bool, true,
  false, arith, Bool-cases, select, sum_by, if◌then◌else◌, ◌==◌, string_eq, nat_eq, not,
}
use myfipay.Base.Int.{ℤ, pos, pos_part, negsuc, ◌-ℤ◌, wrap}
use myfipay.Float64.{Float64}
use myfipay.Http.{respond, respond_error}
use myfipay.Text.{trim_space}
use myfipay.Db.{Db, Payment, Payout, pending}
use myfipay.Money.{
  parse_commission_rate, platform_commission, operator_available, default_commission_rate,
}
use myfipay.Payout.{
  PayoutForm, tenant_balance, check_request, request_operator_payout, approve_payout, reject_payout,
  mark_operator_payout_paid, gross_mobile_money, claimed, rate_setting,
}
use myfipay.Payout.Requests.{IsAdmitted}
use myfipay.Payout.Covered.{rate_of, claim, IsSound, AllRead}
use myfipay.Payout.Claims.{
  is_rejectable, approve_payout-claimed, mark_operator_payout_paid-claimed, reject_payout-claimed,
}
use myfipay.Payout.History.{
  Call, requests, approves_payout, rejects_payout, marks_paid, Grows, run, run-Grows,
}
use myfipay.Payout.Safety.{IsSafe, run-IsSafe}
use myfipay.Payout.Races.{overlapping, overlapping_overdraws, unread_claims_ignored}

abbrev lowest : Float64 → ℤ
lowest _ = negsuc 0x7fff_ffff_ffff_ffff

abbrev no_floats : String → Option Float64
no_floats _ = none

abbrev up : ℕ → Bool
up _ = true

abbrev revenue : Payment
revenue = record {
  id = "p1";
  location_id = "l1";
  plan_id = none;
  customer_phone = "256700000001";
  amount_ugx = 100_000;
  method = "mobile_money";
  status = "confirmed";
  zengapay_ref = some "z1";
  portal_payment = some "pp1";
  session_id = "s1";
}

abbrev open_payout : Payout
open_payout = record {
  id = "po1";
  tenant_id = "t1";
  requested_by = "u1";
  amount_ugx = 12_000;
  momo_phone = "256700000009";
  momo_name = none;
  note = none;
  status = pending;
  reference = none;
  rejection_reason = none;
  reviewed_by = none;
  reviewed_at = none;
  paid_at = none;
}

-- One tenant with a revenue of 100,000, and one open payout of 12,000.
abbrev shop : Db
shop = record {
  tenants =
      record {
        id = "t1";
        name = "Shop";
        slug = "shop";
        kind = "operator";
        status = "active";
        commission_rate = "";
      }
      ∷ [];
  locations =
      record {
        id = "l1";
        tenant_id = "t1";
        name = "Demo";
        address = "";
        portal_slug = "demo";
        branding = none;
        status = "active";
      }
      ∷ [];
  plans = [];
  payments = revenue ∷ [];
  sessions = [];
  vouchers = [];
  voucher_batches = [];
  users = [];
  devices = [];
  nas = [];
  radacct = [];
  radcheck = [];
  radreply = [];
  referrals = [];
  commissions = [];
  payouts = open_payout ∷ [];
  payout_requests = [];
}

abbrev form : ℕ → PayoutForm
form n = record { amount_ugx = pos n; momo_phone = " 256700000009"; momo_name = ""; note = "" }

balance_of_shop : (tenant_balance lowest no_floats up shop "t1").available ≡ pos 80_000
unfolding tenant_balance gross_mobile_money claimed rate_setting parse_commission_rate
    platform_commission operator_available ◌-ℤ◌ wrap
balance_of_shop = refl

too_low :
    (request_operator_payout lowest no_floats up shop "t1" "u1" "po2" (some (form 4_999))).0
    ≡ respond_error 422 "AMOUNT_TOO_LOW" "minimum withdrawal is UGX 5,000"
unfolding request_operator_payout check_request trim_space
too_low = refl

admits : (n : ℕ) → 5_000 ≤ n → n ≤ 80_000 → IsAdmitted (pos 80_000) (form n)
unfolding trim_space
admits n least most = record {
  phone_some = λ e. cc;
  amount_pos = refl;
  least = least;
  most = omega arith;
}

shop_read : AllRead up
shop_read = record { rate_read = refl; gross_read = refl; claimed_read = refl }

shop_rate : (t : String) → rate_setting shop t ≡ ""
unfolding rate_setting
shop_rate t = elim (Bool-cases ("t1" == t)) [ inl e ↦ rw e | inr e ↦ rw e ]

shop_gross : (t : String) → gross_mobile_money shop t ≡ (if "t1" == t then 100_000 else 0)
unfolding gross_mobile_money
shop_gross t = elim (Bool-cases ("t1" == t)) [ inl e ↦ rw e | inr e ↦ rw e ]

shop-claimed : (t : String) → claimed shop t ≡ (if "t1" == t then 12_000 else 0)
unfolding claimed
shop-claimed t = elim (Bool-cases ("t1" == t)) [ inl e ↦ rw e | inr e ↦ rw e ]

shop_fee :
    (b : Bool)
    → pos_part (platform_commission lowest (pos (if b then 100_000 else 0)) default_commission_rate)
        + (if b then 12_000 else 0)
      ≤ (if b then 100_000 else 0)
unfolding platform_commission
shop_fee true = omega arith
shop_fee false = omega arith

shop-IsSafe : IsSafe lowest no_floats shop
unfolding parse_commission_rate
shop-IsSafe = record {
  rates = λ t. rw (shop_rate t) (refl, omega arith, omega arith);
  revenues = λ t. rw (shop_gross t) (ground arith);
  covered = λ t. rw (shop_gross t, shop_rate t, shop-claimed t) (shop_fee ("t1" == t));
}

shop-IsSound : IsSound lowest no_floats shop "t1"
shop-IsSound = record {
  rate_ok = shop-IsSafe.rates "t1";
  gross_ok = shop-IsSafe.revenues "t1";
  claimed_ok = rw (shop-claimed "t1") (omega arith);
}

abbrev calls : List Call
calls =
    requests up "t1" "u1" "po2" (some (form 80_000))
    ∷ approves_payout true "po1" "admin" 10
    ∷ rejects_payout true "po2" "" "admin" 11
    ∷ marks_paid true "po1" "ref" 12
    ∷ []

run-IsSafe_example : IsSafe lowest no_floats (run lowest no_floats shop calls)
run-IsSafe_example =
    run-IsSafe lowest no_floats shop calls (shop_read, (tt, (tt, (tt, tt)))) shop-IsSafe

run-Grows_example : Grows shop.payouts (run lowest no_floats shop calls).payouts
run-Grows_example = run-Grows lowest no_floats shop calls

approve_payout-claimed_example :
    claimed (approve_payout true shop "po1" "admin" 10).1 "t1" ≡ claimed shop "t1"
approve_payout-claimed_example = approve_payout-claimed true shop "po1" "admin" 10 "t1"

mark_operator_payout_paid-claimed_example :
    claimed (mark_operator_payout_paid true shop "po1" "ref" 10).1 "t1" ≡ claimed shop "t1"
mark_operator_payout_paid-claimed_example =
    mark_operator_payout_paid-claimed true shop "po1" "ref" 10 "t1"

reject_payout-claimed_example :
    claimed (reject_payout true shop "po1" "late" "admin" 10).1 "t1"
      + sum_by (claim "t1") (select (is_rejectable "po1") shop.payouts)
    ≡ claimed shop "t1"
reject_payout-claimed_example = reject_payout-claimed shop "po1" "late" "admin" 10 "t1"

overlapping_overdraws_example :
    let (reply, reply', after) =
      overlapping lowest no_floats up shop "t1" "u1" "po2" "po3" (form 80_000) (form 80_000) in
    (reply ≡ respond 201 ("po2", pos 80_000))
    × (reply' ≡ respond 201 ("po3", pos 80_000))
    × (gross_mobile_money after "t1"
        < pos_part (
            platform_commission lowest
              (pos (gross_mobile_money after "t1"))
              (rate_of lowest no_floats after "t1"))
          + claimed after "t1")
overlapping_overdraws_example =
    overlapping_overdraws lowest no_floats up shop "t1" "u1" "po2" "po3" (form 80_000) (form 80_000)
      80_000 refl shop_read shop-IsSound (shop-IsSafe.covered "t1") balance_of_shop
      (admits 80_000 (omega arith) (omega arith)) (admits 80_000 (omega arith) (omega arith))
      (omega arith) (omega arith) (omega arith)

abbrev claims_unread : ℕ → Bool
claims_unread n = not (n == 2)

unread_claims_ignored_example :
    (tenant_balance lowest no_floats claims_unread shop "t1").available
    ≡ (tenant_balance lowest no_floats (λ _. true) (record shop { payouts = [] }) "t1").available
unread_claims_ignored_example =
    unread_claims_ignored lowest no_floats claims_unread shop "t1" refl refl refl

-- ===== src/Checkout/Tests.antt =====
-- Webhooks, paid sessions and vouchers at concrete inputs, on a Redis in memory.
use myfipay.Base.{
  ℕ, ◌≤◌, ◌<◌, ◌^◌, ◌≡◌, refl, String, List, [], ◌∷◌, none, some, Bool, true, arith, if◌then◌else◌,
  ◌==◌, string_eq, nat_eq, codes_beq, select,
}
use myfipay.Base.Int.{pos}
use myfipay.Base.Table.{find}
use myfipay.Http.{respond_error}
use myfipay.Text.{trim_space}
use myfipay.Sql.{first}
use myfipay.Db.{Db}
use myfipay.Cache.{payment_pending}
use myfipay.Cache.Memory.{memory, memory-IsRedis, Store}
use myfipay.Sessions.{legacy_plan, get_plan_from_db}
use myfipay.Sessions.Credit.{credits}
use myfipay.Webhook.{
  Library, WebhookRequest, ZengapayTxn, create_session_after_payment, grant_paid_session,
}
use myfipay.Webhook.Credits.{
  CreditsOnce, grant_paid_session_cases, IsOnce, create_session_after_payment-IsOnce,
}
use myfipay.Webhook.Claims.{jobs_for}
use myfipay.Webhook.Once.{Event, receives, grants, run, run_starts_once}
use myfipay.Money.{is_success, to_upper, agent_commission}
use myfipay.Checkout.{VoucherForm, redeem_voucher}
use myfipay.Checkout.Vouchers.{redeem_voucher_once}

abbrev up : ℕ → Bool
up _ = true

abbrev digits : ℕ → String
digits n = if n == 0 then "0" else "9"

abbrev paid_txn : String → ZengapayTxn
paid_txn reference = record {
  transaction_reference = reference;
  transaction_external_reference = "pay1";
  transaction_status = "SUCCESSFUL";
  phone = "256700000001";
}

-- A library whose webhook body is the transaction's reference, and whose signature is "good".
abbrev lib : Library
lib = record {
  hmac_sha256_hex = λ key body. "good";
  hex_decode = λ s. none;
  to_lower = λ s. s;
  decode_webhook = λ s. some (record { event = ""; data' = some (paid_txn s); flat = paid_txn s });
  decimal = digits;
  rfc3339 = λ t. "";
  unspecified = λ f. pos 0;
}

abbrev signed : String → WebhookRequest
signed reference = record {
  body = some reference;
  x_signature = "good";
  x_webhook_signature = "";
  x_zengapay_signature = "";
}

abbrev hotspot : Db
hotspot = record {
  tenants = [];
  locations =
      record {
        id = "l1";
        tenant_id = "t1";
        name = "Demo";
        address = "";
        portal_slug = "demo";
        branding = none;
        status = "active";
      }
      ∷ [];
  plans = [];
  payments = [];
  sessions = [];
  vouchers =
      record {
        id = "v1";
        batch_id = none;
        location_id = "l1";
        plan_id = "plan-1h";
        code = "ABC";
        status = "unused";
        used_by_phone = none;
        expires_at = none;
      }
      ∷ [];
  voucher_batches = [];
  users = [];
  devices = [];
  nas = [];
  radacct = [];
  radcheck =
      record { username = "other"; attribute = "Auth-Type"; op = ":="; value = "Accept" } ∷ [];
  radreply = [];
  referrals = record { agent_id = "a1"; operator_id = "t1" } ∷ [];
  commissions = [];
  payouts = [];
  payout_requests = [];
}

abbrev empty : Store
empty = λ k. none

abbrev pending_pay1 : Store
pending_pay1 =
    memory.hset 100 (payment_pending "pay1")
      (("plan_id", "plan-day") ∷ ("location_slug", "demo") ∷ ("mac", "") ∷ []) empty

-- The same payment is reported twice, with two references, and its job runs in between.
abbrev events : List (ℕ × Event)
events =
    (100, receives (signed "z1"))
    ∷ (101, grants up "s1" "p1" ("pay1", "256700000001"))
    ∷ (102, receives (signed "z2"))
    ∷ []

run_starts_once_example :
    jobs_for "pay1" (run lib memory "secret" events (pending_pay1, hotspot)) ≤ 1
run_starts_once_example =
    run_starts_once lib memory memory-IsRedis "secret" "pay1" 100 events (pending_pay1, hotspot)
      (omega arith, omega arith, (omega arith, omega arith, (omega arith, omega arith, tt)))

-- Both webhooks are accepted, and one job is started.
one_session : jobs_for "pay1" (run lib memory "secret" events (pending_pay1, hotspot)) ≡ 1
unfolding jobs_for run trim_space is_success to_upper codes_beq find agent_commission
one_session = refl

small_price : (id : String) → (get_plan_from_db true hotspot id).price_ugx < 2 ^ 51
unfolding get_plan_from_db first legacy_plan
small_price id = ground arith

grant_paid_session_cases_example :
    CreditsOnce "pay1" (get_plan_from_db true hotspot "plan-day").price_ugx hotspot (
      grant_paid_session lib memory up 100 "s1" "p1" "pay1" "256700000001"
        (("location_slug", "demo") ∷ [])
        (get_plan_from_db true hotspot "plan-day")
        hotspot)
grant_paid_session_cases_example =
    grant_paid_session_cases lib memory up 100 "s1" "p1" "pay1" "256700000001"
      (("location_slug", "demo") ∷ []) (get_plan_from_db true hotspot "plan-day") hotspot
      (small_price "plan-day")

-- The job writes the payment.
one_payment :
    credits "pay1"
      (create_session_after_payment lib memory up 100 "s1" "p1" "pay1" "256700000001"
        (pending_pay1, hotspot)).1.payments
    ≡ 1
unfolding credits create_session_after_payment find agent_commission
one_payment = refl

hotspot-IsOnce : IsOnce hotspot
unfolding credits select
hotspot-IsOnce = record { at_most_one = λ payment_id. omega arith }

create_session_after_payment-IsOnce_example :
    IsOnce
      (create_session_after_payment lib memory up 100 "s1" "p1" "pay1" "256700000001"
        (pending_pay1, hotspot)).1
create_session_after_payment-IsOnce_example =
    create_session_after_payment-IsOnce lib memory up 100 "s1" "p1" "pay1" "256700000001"
      (pending_pay1, hotspot) small_price hotspot-IsOnce

abbrev same : String → String
same s = s

abbrev voucher_form : VoucherForm
voucher_form = record { code' = " ABC"; phone = "256700000002"; mac = "" }

redeems :
    (redeem_voucher lib same memory up 100 "demo" "s2"
      (some voucher_form)
      (empty, hotspot)).0.success
    ≡ true
unfolding redeem_voucher trim_space
redeems = refl

redeem_voucher_once_example :
    let (reply, cache, db) =
      redeem_voucher lib same memory up 100 "demo" "s2" (some voucher_form) (empty, hotspot) in
    redeem_voucher lib same memory up 200 "demo" "s3" (some voucher_form) (cache, db)
    ≡ (respond_error 409 "ALREADY_USED" "voucher has already been used", cache, db)
redeem_voucher_once_example =
    redeem_voucher_once lib same memory up up 100 200 "demo" "s2" "s3" voucher_form (empty, hotspot)
      redeems refl refl

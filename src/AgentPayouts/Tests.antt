-- ===== src/AgentPayouts/Tests.antt =====
-- The payouts of an agent at concrete inputs.
use myfipay.Base.{String, ℕ, ◌≡◌, refl, ◌⊎◌, [], ◌∷◌, Option, none, some, Bool, true, false}
use myfipay.Base.Int.{ℤ, pos, ◌-ℤ◌, wrap}
use myfipay.Float64.{Float64}
use myfipay.Http.{respond}
use myfipay.Db.{Db, PayoutRequest, pending}
use myfipay.AgentPayouts.{AgentPayoutForm, agent_balance, request_payout}
use myfipay.AgentPayouts.Laws.{IsAllowed, Adds, request_payout_cases}

abbrev nothing : Float64 → ℤ
nothing f = pos 0

abbrev digits : ℤ → String
digits n = ""

abbrev all : ℕ → Bool
all _ = true

abbrev asked : PayoutRequest
asked = record {
  id = "r1";
  agent_id = "a1";
  amount_ugx = 6_000;
  method = "mtn_momo";
  phone = "256700000003";
  status = pending;
  notes = "";
  admin_notes = "";
  processed_at = none;
}

abbrev agency : Db
agency = record {
  tenants = [];
  locations = [];
  plans = [];
  payments = [];
  sessions = [];
  vouchers = [];
  voucher_batches = [];
  users = [];
  devices = [];
  nas = [];
  radacct = [];
  radcheck = [];
  radreply = [];
  referrals = [];
  commissions =
      record {
        agent_id = "a1";
        operator_id = "t1";
        payment_id = "p1";
        amount_ugx = 20_000;
        settled = false;
      }
      ∷ [];
  payouts = [];
  payout_requests = asked ∷ [];
}

abbrev form : AgentPayoutForm
form = record { amount_ugx = pos 9_000; method = ""; phone = "256700000003"; notes = "" }

what_is_left : agent_balance nothing all agency "a1" ≡ pos 14_000
unfolding agent_balance ◌-ℤ◌ wrap
what_is_left = refl

request_payout_cases_example :
    let (reply, after) = request_payout nothing digits all agency "a1" "r2" (some form) in
    ((reply.success ≡ false) × (after ≡ agency))
    ⊎ ((req : AgentPayoutForm) × (◌≡◌ {A = Option AgentPayoutForm} (some form) (some req))
        × IsAllowed (agent_balance nothing all agency "a1") req
        × (reply ≡ respond 201 "r2")
        × Adds true "a1" "r2" req agency after)
request_payout_cases_example = request_payout_cases nothing digits all agency "a1" "r2" (some form)

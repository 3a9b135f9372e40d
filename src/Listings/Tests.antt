-- ===== src/Listings/Tests.antt =====
-- Lists, groups and a statement at concrete inputs.
use myfipay.Base.{
  ℕ, if◌then◌else◌, nat_eq, ◌*◌, ◌≡◌, ◌≢◌, refl, ap, String, List, [], ◌∷◌, Option, none, some,
  true, false, arith, ◌==◌, string_eq,
}
use myfipay.Base.Int.{ℤ, pos}
use myfipay.Float64.{Float64}
use myfipay.Http.{respond}
use myfipay.Sql.{exists}
use myfipay.Sql.Joins.{at_least_one}
use myfipay.Db.{Db, Tenant, User, Location, Payment}
use myfipay.Db.Sample.{no_rows}
use myfipay.Middleware.{UserClaims}
use myfipay.Operator.{owns}
use myfipay.Operator.Catalog.{PlanForm, new_plan}
use myfipay.Operator.Catalog.Isolation.{
  OneOwner, added-OneOwner, Operation, create_plan', delete_plan', perform_all,
}
use myfipay.AgentPayouts.{earned}
use myfipay.Payout.{gross_mobile_money, rate_setting}
use myfipay.Listings.{list_operator_locations, list_operator_plans}
use myfipay.Listings.Isolation.{listings-isolated}
use myfipay.Listings.Tenants.{tenant_row, agent_row, tenant_revenue}
use myfipay.Listings.Tenants.FanOut.{users_of, referrals_of, totals_fan_out}
use myfipay.Listings.Statement.{Statement, operator_statement, statement_months}
use myfipay.Listings.Statement.Months.{AllDated}
use myfipay.Listings.Statement.Totals.{AddsUp, operator_statement-AddsUp}

abbrev operator : String → UserClaims
operator tenant = record {
  user_id = "u1";
  tenant_id = tenant;
  email = "";
  role = "operator";
  name = "";
}

abbrev location_at : String → String → Location
location_at id tenant = record {
  id = id;
  tenant_id = tenant;
  name = "";
  address = "";
  portal_slug = id;
  branding = none;
  status = "active";
}

abbrev form : String → PlanForm
form location = record {
  location_id = location;
  name = "Hour";
  price_ugx = 500;
  duration_mins = 60;
  speed_down_kbps = 2048;
  speed_up_kbps = 512;
  status = "";
}

-- Two operators; the second has a plan on sale.
abbrev shops : Db
shops = record no_rows {
  locations = location_at "l1" "t1" ∷ location_at "l2" "t2" ∷ [];
  plans = new_plan "p2" (form "l2") ∷ [];
}

nobody : OneOwner (record no_rows { plans = shops.plans })
unfolding owns exists
nobody location a b x y = cc

second : OneOwner (record no_rows { plans = shops.plans; locations = location_at "l2" "t2" ∷ [] })
unfolding exists
second = added-OneOwner (record no_rows { plans = shops.plans }) (location_at "l2" "t2") refl nobody

one_owner : OneOwner shops
unfolding exists
one_owner =
    added-OneOwner (record no_rows { plans = shops.plans; locations = location_at "l2" "t2" ∷ [] })
      (location_at "l1" "t1") refl second

different : (operator "t1").tenant_id ≢ (operator "t2").tenant_id
different e = apart (ap (λ tenant. tenant == "t1") e)
  where
    apart : true ≢ false
    apart z = cc

abbrev ops : List Operation
ops = create_plan' (λ i. true) "p3" (some (form "l1")) ∷ delete_plan' true "p2" ∷ []

listings-isolated_example :
    (list_operator_locations true
        (λ id. 0)
        (λ rows. rows)
        (operator "t2")
        (perform_all (operator "t1") ops shops)
      ≡ list_operator_locations true (λ id. 0) (λ rows. rows) (operator "t2") shops)
    × (list_operator_plans true
          (λ rows. rows)
          (operator "t2")
          (perform_all (operator "t1") ops shops)
        ≡ list_operator_plans true (λ rows. rows) (operator "t2") shops)
listings-isolated_example =
    listings-isolated (operator "t1") (operator "t2") ops shops true (λ id. 0) (λ rows. rows)
      (λ rows. rows) different one_owner

abbrev agency : Tenant
agency = record {
  id = "a1";
  name = "Agency";
  slug = "agency";
  kind = "agent";
  status = "active";
  commission_rate = "";
}

abbrev agent : User
agent = record {
  id = "u9";
  tenant_id = "a1";
  email = "a@b.c";
  phone = "";
  name = "";
  role = "agent";
  password = "";
  status = "active";
  last_login = none;
}

-- An agent with two referred operators earned 15 UGX.
abbrev referred : Db
referred = record no_rows {
  tenants = agency ∷ [];
  users = agent ∷ [];
  referrals =
      record { agent_id = "a1"; operator_id = "t1" }
      ∷ record { agent_id = "a1"; operator_id = "t2" }
      ∷ [];
  commissions =
      record {
        agent_id = "a1";
        operator_id = "t1";
        payment_id = "pm1";
        amount_ugx = 15;
        settled = false;
      }
      ∷ [];
}

abbrev no_email : List String → String
no_email emails = ""

totals_fan_out_example :
    ((tenant_row (λ id. 0) no_email referred agency).total_revenue
      ≡ at_least_one (users_of referred agency) * (tenant_revenue referred agency).revenue)
    × ((agent_row (λ id. 0) referred (agency, agent)).total_commission_ugx
        ≡ at_least_one (referrals_of referred agency) * earned referred "a1")
totals_fan_out_example = totals_fan_out (λ id. 0) no_email referred agency agent

-- The list of agents shows 30.
shown_twice : (agent_row (λ id. 0) referred (agency, agent)).total_commission_ugx ≡ 30
unfolding agent_row
shown_twice = refl

abbrev payment : String → ℕ → Payment
payment id amount = record {
  id = id;
  location_id = "l1";
  plan_id = none;
  customer_phone = "";
  amount_ugx = amount;
  method = "mobile_money";
  status = "confirmed";
  zengapay_ref = none;
  portal_payment = none;
  session_id = "";
}

-- 60 UGX in each of two months: the fees are 4 and 4, the commission is 9.
abbrev earning : Db
earning = record no_rows {
  locations = location_at "l1" "t1" ∷ [];
  payments = payment "pm1" 60 ∷ payment "pm2" 60 ∷ [];
}

abbrev month_of : ℕ → String
month_of at = if at == 1 then "2026-01" else "2026-02"

abbrev confirmed_at : Payment → Option ℕ
confirmed_at pm = if pm.id == "pm1" then some 1 else some 2

abbrev unspecified : Float64 → ℤ
unspecified x = pos 0

abbrev parse_float : String → Option Float64
parse_float text = none

no_setting : rate_setting earning "t1" ≡ ""
unfolding rate_setting
no_setting = refl

gross_120 : gross_mobile_money earning "t1" ≡ 120
unfolding gross_mobile_money
gross_120 = refl

two_months : statement_months month_of confirmed_at earning "t1" ≡ "2026-01" ∷ "2026-02" ∷ []
unfolding statement_months
two_months = refl

all_dated : AllDated month_of confirmed_at earning "t1"
all_dated = (λ h. refl, (λ h. refl, tt))

operator_statement-AddsUp_example :
    (st : Statement) × (operator_statement month_of confirmed_at unspecified parse_float
        (λ i. true)
        (λ rows. rows)
        (operator "t1")
        earning
      ≡ respond 200 st)
    × AddsUp st
operator_statement-AddsUp_example =
    operator_statement-AddsUp month_of confirmed_at unspecified parse_float (λ i. true)
      (λ rows. rows) (operator "t1") earning (λ i. refl) (λ f rows. refl) no_setting
      (omega (arith, gross_120)) (rw two_months (omega arith)) all_dated

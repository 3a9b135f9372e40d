-- ===== src/Sessions.antt =====
-- The grant of a session, as the webhook, a voucher and an operator make it
-- (api/internal/handlers/payment.go): plans, the RADIUS rows, the rows of sessions and payments, and
-- its end. A duration is in seconds, for plans of less than 292 years.
pub mod Frame
pub mod Access
pub mod Credit
use myfipay.Base.{
  coalesce, ℕ, suc, ◌+◌, ◌*◌, String, List, [], ◌∷◌, Option, none, some, Bool, true, false, ◌&&◌,
  ◌||◌, not, if◌then◌else◌, ◌==◌, string_eq, nat_eq, leb, ltb,
}
use myfipay.Base.Int.{pos, pos_part}
use myfipay.Float64.{Float64}
use Prim.Native.String.{◌++◌ as concat}
use myfipay.Sql.{update_where, delete_where, exists, first}
use myfipay.Db.{Db, Tenant, Location, Plan, Payment, Session, RadRow, Referral, Commission, Voucher}
use myfipay.Payout.{nullif}
use myfipay.Money.{agent_commission, agent_commission_rate}
use myfipay.Base.Int.{ℤ}

pub record PlanRecord : Type 0 where
  pub id : String
  pub name : String
  pub price_ugx : ℕ
  pub duration_mins : ℕ
  pub speed_down_kbps : ℕ
  pub speed_up_kbps : ℕ

abbrev or_else {ℓ} : {A : Type ℓ} → Option A → Option A → Option A
or_else none other = other
or_else (some a) other = some a

-- The plans that sessions from before the migration name, and the plan of any other id.
unfoldable pub legacy_plan : String → PlanRecord
legacy_plan id =
    if id == "plan-1h"
    then record {
      id = id;
      name = "1 Hour";
      price_ugx = 500;
      duration_mins = 60;
      speed_down_kbps = 2048;
      speed_up_kbps = 512;
    }
    else if id == "plan-day"
    then record {
      id = id;
      name = "All Day";
      price_ugx = 2000;
      duration_mins = 1440;
      speed_down_kbps = 5120;
      speed_up_kbps = 1024;
    }
    else if id == "plan-week"
    then record {
      id = id;
      name = "Weekly";
      price_ugx = 8000;
      duration_mins = 10080;
      speed_down_kbps = 10240;
      speed_up_kbps = 2048;
    }
    else record {
      id = id;
      name = "Plan";
      price_ugx = 500;
      duration_mins = 60;
      speed_down_kbps = 2048;
      speed_up_kbps = 512;
    }

abbrev pub plan_of : Option Plan → String → PlanRecord
plan_of none id = legacy_plan id
plan_of (some p) id = record {
  id = p.id;
  name = p.name;
  price_ugx = p.price_ugx;
  duration_mins = p.duration_mins;
  speed_down_kbps = coalesce p.speed_down_kbps 2048;
  speed_up_kbps = coalesce p.speed_up_kbps 512;
}

unfoldable pub get_plan_from_db : Bool → Db → String → PlanRecord
unfolding first legacy_plan
get_plan_from_db reached db plan_id =
    plan_of (if reached then first (λ p. p.id == plan_id) db.plans else none) plan_id

-- time.Duration(mins) * time.Minute, in seconds
abbrev pub duration_secs : PlanRecord → ℕ
duration_secs pl = pl.duration_mins * 60

-- db.Exec with its error ignored
abbrev pub exec : Bool → (Db → Db) → Db → Db
exec reached statement db = if reached then statement db else db

-- Statements in a row, the first of them the i-th of its handler.
unfoldable pub exec_all : (ℕ → Bool) → ℕ → List (Db → Db) → Db → Db
exec_all ok i [] db = db
exec_all ok i (s ∷ rest) db = exec_all ok (suc i) rest (exec (ok i) s db)

abbrev pub insert_check : String → Db → Db
insert_check username db = record db {
  radcheck =
      record { username = username; attribute = "Auth-Type"; op = ":="; value = "Accept" }
      ∷ db.radcheck;
}

abbrev pub insert_reply : String → String → String → Db → Db
insert_reply username attribute value db = record db {
  radreply =
      record { username = username; attribute = attribute; op = ":="; value = value } ∷ db.radreply;
}

unfoldable pub delete_check : String → Db → Db
delete_check username db = record db {
  radcheck = delete_where (λ r. r.username == username) db.radcheck;
}

unfoldable pub delete_reply : String → Db → Db
delete_reply username db = record db {
  radreply = delete_where (λ r. r.username == username) db.radreply;
}

module _ (decimal : ℕ → String) where
  -- "%dk/%dk"
  unfoldable pub rate_limit : PlanRecord → String
  rate_limit pl =
      concat (concat (concat (decimal pl.speed_down_kbps) "k/") (decimal pl.speed_up_kbps)) "k"

  -- The eight statements that write radcheck and radreply.
  unfoldable pub radius_statements : String → ℕ → PlanRecord → List (Db → Db)
  unfolding delete_check delete_reply
  radius_statements username secs pl =
      delete_check username
      ∷ insert_check username
      ∷ delete_reply username
      ∷ insert_reply username "Session-Timeout" (decimal secs)
      ∷ insert_reply username "Idle-Timeout" "300"
      ∷ insert_reply username "Mikrotik-Rate-Limit" (rate_limit pl)
      ∷ insert_reply username "WISPr-Bandwidth-Max-Down" (decimal (pl.speed_down_kbps * 1000))
      ∷ insert_reply username "WISPr-Bandwidth-Max-Up" (decimal (pl.speed_up_kbps * 1000))
      ∷ []

  unfoldable pub write_radius : (ℕ → Bool) → String → ℕ → PlanRecord → Db → Db
  unfolding radius_statements exec_all
  write_radius ok username secs pl db = exec_all ok 0 (radius_statements username secs pl) db

-- (SELECT id FROM locations WHERE portal_slug = slug LIMIT 1)
abbrev pub location_id : Option Location → Option String
location_id none = none
location_id (some l) = some l.id

unfoldable pub location_of : Db → String → Option String
unfolding first
location_of db slug = location_id (first (λ l. l.portal_slug == slug) db.locations)

abbrev plan_id : Option Plan → Option String
plan_id none = none
plan_id (some p) = some p.id

-- The plan with that id, or else with that name.
unfoldable pub plan_ref : Db → String → String → Option String
unfolding first
plan_ref db id name =
    or_else (plan_id (first (λ p. p.id == id) db.plans))
      (plan_id (first (λ p. p.name == name) db.plans))

-- The INSERT INTO sessions: a location that is NULL breaks its column, an id that is there is left.
abbrev pub insert_session_at : Option String → (String → Session) → Db → Db
insert_session_at none row db = db
insert_session_at (some location) row db =
    if exists (λ s. s.id == (row location).id) db.sessions
    then db
    else record db { sessions = row location ∷ db.sessions }

unfoldable pub insert_session : String → (String → Session) → Db → Db
unfolding location_of exists
insert_session slug row db = insert_session_at (location_of db slug) row db

abbrev pub active_session : String → Option String → String → String → String → ℕ → String → Session
active_session id plan username phone mac expires_at location = record {
  id = id;
  location_id = location;
  plan_id = plan;
  username = username;
  customer_phone = phone;
  mac_address = nullif mac;
  status = "active";
  expires_at = expires_at;
  terminated_at = none;
}

-- metadata->>'payment_id' = id AND status = 'confirmed'
abbrev pub same_option : Option String → Option String → Bool
same_option (some a) (some b) = a == b
same_option _ _ = false

unfoldable pub is_confirmed_for : String → Payment → Bool
is_confirmed_for payment_id pm =
    same_option pm.portal_payment (some payment_id) && pm.status == "confirmed"

abbrev pub confirmed_payment :
    String → Option String → String → ℕ → String → String → String → String → Payment
confirmed_payment id plan phone amount ref payment_id session_id location = record {
  id = id;
  location_id = location;
  plan_id = plan;
  customer_phone = phone;
  amount_ugx = amount;
  method = "mobile_money";
  status = "confirmed";
  zengapay_ref = nullif ref;
  portal_payment = some payment_id;
  session_id = session_id;
}

-- INSERT ... WHERE NOT EXISTS ... ON CONFLICT (zengapay_ref) DO NOTHING RETURNING id: the row that
-- was written, if one was.
abbrev pub insert_payment_at :
    Option String → String → (String → Payment) → Db → Option Payment × Db
insert_payment_at none payment_id row db = (none, db)
insert_payment_at (some location) payment_id row db =
    if exists (is_confirmed_for payment_id) db.payments
      || exists (λ pm. same_option pm.zengapay_ref (row location).zengapay_ref) db.payments
    then (none, db)
    else (some (row location), record db { payments = row location ∷ db.payments })

unfoldable pub insert_payment :
    Bool → String → String → (String → Payment) → Db → Option Payment × Db
unfolding location_of exists is_confirmed_for
insert_payment reached slug payment_id row db =
    insert_payment_at (if reached then location_of db slug else none) payment_id row db

-- The referral of the operator of a location: FROM locations l JOIN agent_referrals ... LIMIT 1.
unfoldable pub referral_of : Db → String → Option Referral
unfolding first exists
referral_of db slug =
    first (λ ar. exists (λ l. l.portal_slug == slug && l.tenant_id == ar.operator_id) db.locations)
      db.referrals

abbrev pub insert_commission : Bool → Commission → Db → Db
insert_commission reached row db =
    if reached && not (exists (λ c. c.payment_id == row.payment_id) db.commissions)
    then record db { commissions = row ∷ db.commissions }
    else db

module _ (unspecified : Float64 → ℤ) where
  abbrev pub credit : Bool → Option Referral → String → ℕ → Db → Db
  credit reached none payment_id amount db = db
  credit reached (some ar) payment_id amount db =
      let share = pos_part (agent_commission unspecified (pos amount) agent_commission_rate) in
      if share == 0
      then db
      else insert_commission reached
          (record {
            agent_id = ar.agent_id;
            operator_id = ar.operator_id;
            payment_id = payment_id;
            amount_ugx = share;
            settled = false;
          })
          db

  unfoldable pub create_agent_commission : (ℕ → Bool) → String → String → ℕ → Db → Db
  unfolding referral_of exists
  create_agent_commission ok slug payment_id amount db =
      credit (ok 1) (if ok 0 then referral_of db slug else none) payment_id amount db

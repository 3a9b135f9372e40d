-- ===== src/AccessControl.antt =====
-- Who may go online, over the handlers that change it: vouchers and paid sessions
-- (api/internal/handlers/payment.go), the grant, the extension and the end of a session by an operator
-- (operator.go) and the reaper (handlers.go). The abstract view is a map from users to permits; an
-- operation is the events that it stands for. Every statement reaches the database here.
pub mod Frame
pub mod Rows
pub mod Handlers
pub mod Refinement
pub mod OnSale
pub mod Vouchers
mod Tests
use myfipay.Base.{
  ℕ, ◌-◌, ◌*◌, ◌||◌, ◌⊎◌, inl, inr, String, List, [], ◌∷◌, map, Option, none, some, Bool, true,
  select, if◌then◌else◌, ◌==◌, string_eq,
}
use myfipay.Base.Table.{Table}
use myfipay.Http.{Reply}
use myfipay.Db.{Db, Plan, Session, Voucher, RadRow}
use myfipay.Cache.{payment_pending, Redis}
use myfipay.Middleware.{UserClaims}
use myfipay.Sessions.{PlanRecord, plan_of, get_plan_from_db, duration_secs}
use myfipay.Sessions.Access.{row_for, granted_replies}
use myfipay.Webhook.{Library, field, create_session_after_payment}
use myfipay.Checkout.{VoucherForm, Redeemed, check_voucher, redeem_voucher}
use myfipay.Operator.{
  GrantForm, plan_on_sale, active_session_of, grant_session, extend_session, terminate_session,
  extended_expiry, timeout_secs,
}
use myfipay.Live.{RouterLibrary}
use myfipay.Radius.{Bytes}
use myfipay.Reaper.{is_overdue, reap_expired_sessions}

-- A permit: the seconds that a login may last, and the plan.
pub record Permit : Type 0 where
  pub secs : ℕ
  pub plan : PlanRecord

-- Who has a permit.
abbrev pub Permits : Type 0
Permits = String → Option Permit

pub data Event : Type 0 where
  grants : String → ℕ → PlanRecord → Event
  retimes : String → ℕ → Event
  revokes : String → Event

abbrev pub retimed : ℕ → Option Permit → Option Permit
retimed secs none = none
retimed secs (some p) = some (record p { secs = secs })

abbrev pub apply : Event → Permits → Permits
apply (grants username secs pl) permits user =
    if user == username then some (record { secs = secs; plan = pl }) else permits user
apply (retimes username secs) permits user =
    if user == username then retimed secs (permits user) else permits user
apply (revokes username) permits user = if user == username then none else permits user

abbrev pub replay : List Event → Permits → Permits
replay [] permits = permits
replay (e ∷ rest) permits = replay rest (apply e permits)

-- The rows of radcheck and radreply that stand for a permit.
abbrev pub check_rows : String → Option Permit → List RadRow
check_rows user none = []
check_rows user (some p) = row_for user ("Auth-Type", "Accept") ∷ []

abbrev pub all_run : ℕ → Bool
all_run i = true

abbrev pub redeem_events : Db → Reply Redeemed ⊎ Voucher × VoucherForm → List Event
redeem_events db (inl answer) = []
redeem_events db (inr (v, req)) =
    let pl = get_plan_from_db true db v.plan_id in grants req.phone (duration_secs pl) pl ∷ []

abbrev pub grant_events : GrantForm → Option Plan → List Event
grant_events req none = []
grant_events req (some p) =
    let pl = plan_of (some p) req.plan_id in grants req.phone (duration_secs pl) pl ∷ []

abbrev pub extend_events : ℕ → String → Session → Option Plan → List Event
extend_events now plan_id s none = []
extend_events now plan_id s (some p) =
    let expiry = extended_expiry now s.expires_at (duration_secs (plan_of (some p) plan_id)) in
    retimes s.username (timeout_secs now expiry) ∷ []

abbrev pub extend_found_events : ℕ → String → Option Plan → Option Session → List Event
extend_found_events now plan_id plan none = []
extend_found_events now plan_id plan (some s) = extend_events now plan_id s plan

abbrev pub terminate_events : Option Session → List Event
terminate_events none = []
terminate_events (some s) = revokes s.username ∷ []

abbrev pub expiry_events : List Session → List Event
expiry_events sessions = map (λ s. revokes s.username) sessions

module _ (lib : Library) (to_upper : String → String) (redis : Redis) where
  abbrev pub reply_rows : String → Option Permit → List RadRow
  reply_rows user none = []
  reply_rows user (some p) = granted_replies lib.decimal user p.secs p.plan

  pub data Op : Type 0 where
    redeem : ℕ → String → String → Option VoucherForm → Op
    pay : ℕ → String → String → String → String → Op
    grant : UserClaims → ℕ → String → String → Option GrantForm → Op
    extend : UserClaims → ℕ → String → Option String → Op
    terminate :
        RouterLibrary → (ℕ → Bytes → ℕ → Option Bytes) → (ℕ → ℕ) → UserClaims → ℕ → String → Op
    reap : ℕ → Op

  abbrev pub after {ℓ} : {A : Type ℓ} → A × redis.Cache × Db → redis.Cache × Db
  after (reply, cache, db) = (cache, db)

  -- The handlers.
  unfoldable pub step : Op → redis.Cache × Db → redis.Cache × Db
  unfolding redeem_voucher create_session_after_payment grant_session extend_session
      terminate_session reap_expired_sessions
  step (redeem now slug session_id form) state =
      after (redeem_voucher lib to_upper redis all_run now slug session_id form state)
  step (pay now session_id row_id payment_id phone) state =
      create_session_after_payment lib redis all_run now session_id row_id payment_id phone state
  step (grant claims now session_id row_id form) state =
      after (grant_session lib redis all_run claims now session_id row_id form state)
  step (extend claims now session_id form) state =
      after (extend_session lib redis all_run claims now session_id form state)
  step (terminate routers exchange id claims now session_id) state =
      after (terminate_session lib redis routers exchange id all_run claims now session_id state)
  step (reap now) state = reap_expired_sessions lib redis true (λ i. all_run) now state

  abbrev pub pay_events : Db → String → Table String String → List Event
  pay_events db phone [] = []
  pay_events db phone (entry ∷ rest) =
      let pl = get_plan_from_db true db (field lib redis (entry ∷ rest) "plan_id") in
      grants phone (duration_secs pl) pl ∷ []

  -- What an operation stands for: a permit where the checks pass, its end where a session is found.
  unfoldable pub events : Op → redis.Cache × Db → List Event
  unfolding check_voucher get_plan_from_db plan_on_sale active_session_of is_overdue select
  events (redeem now slug session_id form) (cache, db) =
      redeem_events db (check_voucher lib to_upper redis true slug form db)
  events (pay now session_id row_id payment_id phone) (cache, db) =
      pay_events db phone (redis.hget_all now (payment_pending payment_id) cache)
  events (grant claims now session_id row_id none) (cache, db) = []
  events (grant claims now session_id row_id (some req)) (cache, db) =
      if req.phone == "" || req.plan_id == ""
      then []
      else grant_events req (plan_on_sale db claims.tenant_id req.plan_id)
  events (extend claims now session_id none) (cache, db) = []
  events (extend claims now session_id (some plan_id)) (cache, db) =
      if plan_id == ""
      then []
      else extend_found_events now plan_id (plan_on_sale db claims.tenant_id plan_id)
          (active_session_of db claims.tenant_id session_id)
  events (terminate routers exchange id claims now session_id) (cache, db) =
      terminate_events (active_session_of db claims.tenant_id session_id)
  events (reap now) (cache, db) = expiry_events (select (is_overdue now) db.sessions)

  -- A sequence of operations, and the events of each at the state it meets.
  abbrev pub run : List Op → redis.Cache × Db → redis.Cache × Db
  run [] state = state
  run (op ∷ rest) state = run rest (step op state)

  abbrev pub run_events : List Op → redis.Cache × Db → Permits → Permits
  run_events [] state permits = permits
  run_events (op ∷ rest) state permits =
      run_events rest (step op state) (replay (events op state) permits)

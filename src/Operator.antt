-- ===== src/Operator.antt =====
-- What an operator does to sessions (api/internal/handlers/operator.go): the grant for cash, the
-- extension and the end. The claims of the token name the tenant and the user. A time is in seconds.
pub mod Extensions
pub mod Catalog
pub mod Batches
mod Tests
use myfipay.Base.{
  ℕ, ◌+◌, ◌-◌, ◌*◌, String, List, [], ◌∷◌, Option, none, some, Bool, true, false, not, ◌&&◌, ◌||◌,
  ltb, coalesce, if◌then◌else◌, ◌==◌, string_eq, nat_eq,
}
use myfipay.Http.{Reply, respond, respond_error}
use myfipay.Sql.{update_where, exists, first}
use myfipay.Db.{Db, Location, Plan, Payment, Session, RadRow}
use myfipay.Cache.{CacheKey, session_user, session_mac, Redis}
use myfipay.Sessions.{
  PlanRecord, plan_of, duration_secs, exec, write_radius, insert_session_at, active_session,
  location_id,
}
use myfipay.Middleware.{UserClaims}
use myfipay.Webhook.{Library, cache_session}
use myfipay.Radius.{Bytes}
use myfipay.Live.{RouterLibrary, DisconnectResult, disconnect_live_sessions}
use myfipay.Checkout.{dashes_to_colons, expire_session}

-- SELECT ... FROM locations WHERE id = $1 AND tenant_id = $2
unfoldable pub owns : Db → String → String → Bool
unfolding exists
owns db tenant location = exists (λ l. l.id == location && l.tenant_id == tenant) db.locations

-- The plan of a tenant that is on sale: plans p JOIN locations l ON p.location_id = l.id.
unfoldable pub plan_on_sale : Db → String → String → Option Plan
unfolding first owns
plan_on_sale db tenant id =
    first (λ p. p.id == id && owns db tenant p.location_id && p.active) db.plans

-- The session of a tenant that is active.
unfoldable pub active_session_of : Db → String → String → Option Session
unfolding first owns
active_session_of db tenant id =
    first (λ s. s.id == id && owns db tenant s.location_id && s.status == "active") db.sessions

pub record GrantForm : Type 0 where
  pub phone : String
  pub plan_id : String
  pub mac : String
  pub note : String

pub record Granted : Type 0 where
  pub session_id : String
  pub username : String
  pub plan_name : String
  pub duration_mins : ℕ
  pub expires_at : ℕ

pub record Extended : Type 0 where
  pub session_id : String
  pub username : String
  pub added_mins : ℕ
  pub new_expires_at : ℕ

-- (SELECT id FROM locations WHERE tenant_id = $2 LIMIT 1)
unfoldable pub location_of_tenant : Db → String → Option String
unfolding first
location_of_tenant db tenant = location_id (first (λ l. l.tenant_id == tenant) db.locations)

-- The INSERT of a payment in cash: a location that is NULL breaks its column.
abbrev pub insert_cash : Option String → (String → Payment) → Db → Db
insert_cash none row db = db
insert_cash (some location) row db =
    if exists (λ pm. pm.id == (row location).id) db.payments
    then db
    else record db { payments = row location ∷ db.payments }

abbrev pub cash_payment : String → String → String → ℕ → String → String → Payment
cash_payment id plan phone amount session_id location = record {
  id = id;
  location_id = location;
  plan_id = some plan;
  customer_phone = phone;
  amount_ugx = amount;
  method = "cash";
  status = "confirmed";
  zengapay_ref = none;
  portal_payment = none;
  session_id = session_id;
}

-- UPDATE sessions SET expires_at = $1 WHERE id = $2
unfoldable pub set_expiry : String → ℕ → Db → Db
set_expiry session_id expires_at db = record db {
  sessions =
      (update_where (λ s. s.id == session_id) (λ s. record s { expires_at = expires_at })
        db.sessions).0;
}

-- UPDATE radreply SET value = $1 WHERE username = $2 AND attribute = 'Session-Timeout'
unfoldable pub set_timeout : String → String → Db → Db
set_timeout username value db = record db {
  radreply =
      (update_where (λ r. r.username == username && r.attribute == "Session-Timeout")
        (λ r. record r { value = value }) db.radreply).0;
}

-- From the current expiry on, or from now where that is past.
unfoldable pub extended_expiry : ℕ → ℕ → ℕ → ℕ
extended_expiry now current added = (if ltb current now then now else current) + added

-- The seconds from now to then, at least a minute.
unfoldable pub timeout_secs : ℕ → ℕ → ℕ
timeout_secs now then' = let secs = then' - now in if ltb secs 60 then 60 else secs

module _ (lib : Library) (redis : Redis) where
  -- The statements on the database, in their order: the session, the payment, the RADIUS rows.
  unfoldable pub book_session :
      (ℕ → Bool) → UserClaims → ℕ → String → String → GrantForm → String → PlanRecord → Db → Db
  unfolding location_of_tenant write_radius
  book_session ok claims now session_id row_id req mac pl db =
      let secs = duration_secs pl in
      let row = active_session session_id (some pl.id) req.phone req.phone mac (now + secs) in
      let paid = cash_payment row_id pl.id req.phone pl.price_ugx session_id in
      let booked =
        exec (ok 1) (insert_session_at (location_of_tenant db claims.tenant_id) row) db in
      let charged =
        exec (ok 2) (insert_cash (location_of_tenant booked claims.tenant_id) paid) booked in
      write_radius lib.decimal (λ i. ok (3 + i)) req.phone secs pl charged

  abbrev pub grant_plan :
      (ℕ → Bool)
      → UserClaims
      → ℕ
      → String
      → String
      → GrantForm
      → Option Plan
      → redis.Cache × Db
      → Reply Granted × redis.Cache × Db
  grant_plan ok claims now session_id row_id req none (cache, db) =
      (respond_error 404 "NOT_FOUND" "plan not found", cache, db)
  grant_plan ok claims now session_id row_id req (some p) (cache, db) =
      let pl = plan_of (some p) req.plan_id in
      let mac = lib.to_lower (dashes_to_colons req.mac) in
      let fields =
        ("session_id", session_id)
        ∷ ("plan_id", req.plan_id)
        ∷ ("phone", req.phone)
        ∷ ("mac", mac)
        ∷ ("status", "active")
        ∷ ("started_at", lib.rfc3339 now)
        ∷ ("grant_type", "manual")
        ∷ ("note", req.note)
        ∷ [] in
      (
        respond 201 (record {
          session_id = session_id;
          username = req.phone;
          plan_name = pl.name;
          duration_mins = pl.duration_mins;
          expires_at = now + duration_secs pl;
        }),
        cache_session lib redis now (duration_secs pl) session_id req.phone mac fields cache,
        book_session ok claims now session_id row_id req mac pl db,
      )

  unfoldable pub grant_session :
      (ℕ → Bool)
      → UserClaims
      → ℕ
      → String
      → String
      → Option GrantForm
      → redis.Cache × Db
      → Reply Granted × redis.Cache × Db
  unfolding plan_on_sale cache_session book_session dashes_to_colons
  grant_session ok claims now session_id row_id none (cache, db) =
      (respond_error 400 "VALIDATION_ERROR" "phone and plan_id are required", cache, db)
  grant_session ok claims now session_id row_id (some req) (cache, db) =
      let row = if ok 0 then plan_on_sale db claims.tenant_id req.plan_id else none in
      let granted = grant_plan ok claims now session_id row_id req row (cache, db) in
      if req.phone == "" || req.plan_id == ""
      then (respond_error 400 "VALIDATION_ERROR" "phone and plan_id are required", cache, db)
      else granted

  -- The lifetimes in Redis, of the MAC where it is known.
  unfoldable pub extend_cache : ℕ → String → ℕ → redis.Cache → redis.Cache
  extend_cache now username secs cache =
      let longer = redis.expire now (session_user username) secs cache in
      let mac = coalesce (redis.hget now (session_user username) "mac" longer) "" in
      let linked = redis.expire now (session_mac mac) secs longer in
      if not (mac == "") then linked else longer

  abbrev pub extend_by :
      (ℕ → Bool)
      → ℕ
      → String
      → Session
      → Option Plan
      → redis.Cache × Db
      → Reply Extended × redis.Cache × Db
  extend_by ok now plan_id s none (cache, db) =
      (respond_error 404 "NOT_FOUND" "plan not found", cache, db)
  extend_by ok now plan_id s (some p) (cache, db) =
      let pl = plan_of (some p) plan_id in
      let new_expiry = extended_expiry now s.expires_at (duration_secs pl) in
      let moved = exec (ok 2) (set_expiry s.id new_expiry) db in
      (
        respond 200 (record {
          session_id = s.id;
          username = s.username;
          added_mins = pl.duration_mins;
          new_expires_at = new_expiry;
        }),
        extend_cache now s.username (new_expiry - now) cache,
        exec (ok 3) (set_timeout s.username (lib.decimal (timeout_secs now new_expiry))) moved,
      )

  abbrev pub extend_found :
      (ℕ → Bool)
      → UserClaims
      → ℕ
      → String
      → Option Session
      → redis.Cache × Db
      → Reply Extended × redis.Cache × Db
  extend_found ok claims now plan_id none (cache, db) =
      (respond_error 404 "NOT_FOUND" "active session not found", cache, db)
  extend_found ok claims now plan_id (some s) (cache, db) =
      extend_by ok now plan_id s (if ok 1 then plan_on_sale db claims.tenant_id plan_id else none)
        (cache, db)

  -- The form is the id of a plan.
  unfoldable pub extend_session :
      (ℕ → Bool)
      → UserClaims
      → ℕ
      → String
      → Option String
      → redis.Cache × Db
      → Reply Extended × redis.Cache × Db
  unfolding active_session_of plan_on_sale extended_expiry set_expiry set_timeout timeout_secs
      extend_cache
  extend_session ok claims now session_id none (cache, db) =
      (respond_error 400 "VALIDATION_ERROR" "plan_id is required", cache, db)
  extend_session ok claims now session_id (some plan_id) (cache, db) =
      let row = if ok 0 then active_session_of db claims.tenant_id session_id else none in
      let extended = extend_found ok claims now plan_id row (cache, db) in
      if plan_id == ""
      then (respond_error 400 "VALIDATION_ERROR" "plan_id is required", cache, db)
      else extended

  -- The live sessions are ended on the routers after the authorization is gone.
  abbrev pub terminate_found :
      (ℕ → Bool)
      → (Db → String → List DisconnectResult)
      → ℕ
      → String
      → Option Session
      → redis.Cache × Db
      → Reply (List DisconnectResult) × redis.Cache × Db
  terminate_found ok disconnect now session_id none (cache, db) =
      (respond_error 404 "NOT_FOUND" "active session not found", cache, db)
  terminate_found ok disconnect now session_id (some s) (cache, db) =
      let (cache', db') =
        expire_session lib lib.to_lower redis (λ i. ok (1 + i)) now s.username session_id
          (cache, db) in
      (respond 200 (disconnect db' s.username), cache', db')

  unfoldable pub terminate_session :
      RouterLibrary
      → (ℕ → Bytes → ℕ → Option Bytes)
      → (ℕ → ℕ)
      → (ℕ → Bool)
      → UserClaims
      → ℕ
      → String
      → redis.Cache × Db
      → Reply (List DisconnectResult) × redis.Cache × Db
  unfolding active_session_of expire_session disconnect_live_sessions
  terminate_session routers exchange id ok claims now session_id (cache, db) =
      terminate_found ok (disconnect_live_sessions routers exchange id (ok 4)) now session_id
        (if ok 0 then active_session_of db claims.tenant_id session_id else none) (cache, db)

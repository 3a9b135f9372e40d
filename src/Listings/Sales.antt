-- ===== src/Listings/Sales.antt =====
-- Sessions, payments and revenue of an operator (api/internal/handlers/operator.go: DashboardStats,
-- RevenueChart, ListSessions, ListPayments). What the database's clock and FreeRADIUS fill is a
-- parameter: the start of a session, the times of a payment, the start and the octets of an accounting row.
use myfipay.Base.{
  ℕ, String, List, [], ◌∷◌, map, Option, none, some, Bool, true, ◌&&◌, ◌||◌, coalesce, select,
  sum_by, ◌++◌, length, take, leb, if◌then◌else◌, ◌==◌, string_eq,
}
use myfipay.Http.{Reply, respond}
use myfipay.Sql.{exists}
use myfipay.Sql.Joins.{join, outer, distinct}
use myfipay.Db.{Db, Location, Plan, Payment, Session, AcctRow}
use myfipay.Middleware.{UserClaims}
use myfipay.Sessions.{same_option}
use myfipay.Operator.{owns}
use myfipay.Listings.{listing}

-- sessions s JOIN plans p ON s.plan_id = p.id
unfoldable pub sold : Db → List (Session × Plan)
unfolding join
sold db = join (λ s p. same_option s.plan_id (some p.id)) db.sessions db.plans

pub record Stats : Type 0 where
  pub active_sessions : ℕ
  pub today_sessions : ℕ
  pub today_revenue : ℕ
  pub total_locations : ℕ
  pub today_bandwidth_bytes : ℕ

-- A figure whose query fails stays 0.
abbrev pub figure : Bool → ℕ → ℕ
figure reached n = if reached then n else 0

pub record DayRevenue : Type 0 where
  pub day : String
  pub revenue : ℕ

pub record SessionRow : Type 0 where
  pub id : String
  pub username : String
  pub customer_phone : String
  pub status : String
  pub started_at : ℕ
  pub expires_at : ℕ
  pub terminated_at : Option ℕ
  pub location_name : String
  pub plan_name : String
  pub price_ugx : ℕ
  pub bytes_used : ℕ

pub record PaymentRow : Type 0 where
  pub id : String
  pub customer_phone : String
  pub amount_ugx : ℕ
  pub method : String
  pub status : String
  pub paid_at : ℕ
  pub location_name : String
  pub plan_name : String

module _ (started_at : String → ℕ) where
  -- s.started_at >= ... AND s.location_id IN (SELECT id FROM locations WHERE tenant_id = $1)
  unfoldable pub started_since : Db → String → ℕ → Session → Bool
  unfolding owns
  started_since db tenant since s = leb since (started_at s.id) && owns db tenant s.location_id

  -- `today` is CURRENT_DATE.
  unfoldable pub dashboard_stats : (ℕ → Bool) → (AcctRow → ℕ) → ℕ → UserClaims → Db → Reply Stats
  unfolding started_since sold select sum_by exists owns
  dashboard_stats ok octets today claims db =
      let tenant = claims.tenant_id in
      let active = select (λ s. s.status == "active" && owns db tenant s.location_id) db.sessions in
      let started = select (started_since db tenant today) db.sessions in
      let sales = select (λ (sp : Session × Plan). started_since db tenant today sp.0) (sold db) in
      let places = select (λ l. l.tenant_id == tenant && l.status == "active") db.locations in
      let traffic = select (λ ra. exists (λ s. s.username == ra.username) started) db.radacct in
      respond 200 (record {
        active_sessions = figure (ok 0) (length active);
        today_sessions = figure (ok 1) (length started);
        today_revenue = figure (ok 2) (sum_by (λ (sp : Session × Plan). sp.1.price_ugx) sales);
        total_locations = figure (ok 3) (length places);
        today_bandwidth_bytes = figure (ok 4) (sum_by octets traffic);
      })

  abbrev pub day_revenue : (ℕ → String) → List (Session × Plan) → String → DayRevenue
  day_revenue day_of sales day = record {
    day = day;
    revenue =
        sum_by (λ (sp : Session × Plan). sp.1.price_ugx)
          (select (λ (sp : Session × Plan). day_of (started_at sp.0.id) == day) sales);
  }

  -- One row for each day of `sales`: GROUP BY day.
  unfoldable pub revenue_by_day : (ℕ → String) → List (Session × Plan) → List DayRevenue
  unfolding distinct select sum_by
  revenue_by_day day_of sales =
      map (day_revenue day_of sales)
        (distinct (map (λ (sp : Session × Plan). day_of (started_at sp.0.id)) sales))

  -- `since` is thirty days ago.
  unfoldable pub revenue_chart :
      Bool
      → (ℕ → String)
      → (List DayRevenue → List DayRevenue)
      → ℕ
      → UserClaims
      → Db
      → Reply (List DayRevenue)
  unfolding started_since sold select revenue_by_day
  revenue_chart reached day_of by_day since claims db =
      let sales =
        select (λ (sp : Session × Plan). started_since db claims.tenant_id since sp.0) (sold db) in
      listing reached "query failed" (by_day (revenue_by_day day_of sales))

  abbrev pub session_row :
      (AcctRow → ℕ) → (AcctRow → ℕ) → Db → (Session × Location) × Plan → SessionRow
  session_row acct_start octets db ((s, l), p) = record {
    id = s.id;
    username = s.username;
    customer_phone = s.customer_phone;
    status = s.status;
    started_at = started_at s.id;
    expires_at = s.expires_at;
    terminated_at = s.terminated_at;
    location_name = l.name;
    plan_name = p.name;
    price_ugx = p.price_ugx;
    bytes_used = sum_by octets (
        select (λ ra. ra.username == s.username && leb (started_at s.id) (acct_start ra))
          db.radacct);
  }

  -- sessions s JOIN locations l ... JOIN plans p ..., at most 200; "" and "all" are every status.
  unfoldable pub list_sessions :
      Bool
      → (AcctRow → ℕ)
      → (AcctRow → ℕ)
      → (List SessionRow → List SessionRow)
      → UserClaims
      → String
      → Db
      → Reply (List SessionRow)
  unfolding join select sum_by
  list_sessions reached acct_start octets newest claims status db =
      let placed = join (λ (s : Session) l. s.location_id == l.id) db.sessions db.locations in
      let rows =
        join (λ (sl : Session × Location) p. same_option sl.0.plan_id (some p.id)) placed
          db.plans in
      listing reached "query failed" (
        take 200 (
          newest (
            map (session_row acct_start octets db) (
              select
                (λ (slp : (Session × Location) × Plan).
                  slp.0.1.tenant_id == claims.tenant_id
                  && (status == "" || status == "all" || slp.0.0.status == status))
                rows))))

abbrev plan_name : Option Plan → String
plan_name none = "—"
plan_name (some p) = p.name

-- The plan of a payment, where there is one: LEFT JOIN plans p ON pm.plan_id = p.id.
abbrev pub payment_rows :
    (Payment → Option ℕ) → (Payment → ℕ) → Db → List (Payment × Location) → List PaymentRow
payment_rows confirmed_at initiated_at db [] = []
payment_rows confirmed_at initiated_at db ((pm, l) ∷ rest) =
    map
      (λ p. record {
        id = pm.id;
        customer_phone = pm.customer_phone;
        amount_ugx = pm.amount_ugx;
        method = pm.method;
        status = pm.status;
        paid_at = coalesce (confirmed_at pm) (initiated_at pm);
        location_name = l.name;
        plan_name = plan_name p;
      })
      (outer (select (λ (p : Plan). same_option pm.plan_id (some p.id)) db.plans))
    ++ payment_rows confirmed_at initiated_at db rest

-- payments pm JOIN locations l ..., the confirmed ones, at most 300; any other method is no filter.
unfoldable pub list_payments :
    Bool
    → (Payment → Option ℕ)
    → (Payment → ℕ)
    → (List PaymentRow → List PaymentRow)
    → UserClaims
    → String
    → Db
    → Reply (List PaymentRow)
unfolding join select outer
list_payments reached confirmed_at initiated_at newest claims method db =
    let rows =
      select
        (λ (pl : Payment × Location).
          pl.1.tenant_id == claims.tenant_id
          && pl.0.status == "confirmed"
          && (if method == "cash" || method == "mobile_money" then pl.0.method == method else true))
        (join (λ (pm : Payment) l. pm.location_id == l.id) db.payments db.locations) in
    listing reached "query failed"
      (take 300 (newest (payment_rows confirmed_at initiated_at db rows)))

-- ===== src/Listings/Tenants.antt =====
-- What the admin is shown of tenants, agents and revenue (api/internal/handlers/admin.go: ListTenants,
-- PlatformRevenue, ListAgents).
pub mod FanOut
use myfipay.Base.{
  ℕ, String, List, [], ◌∷◌, ◌++◌, map, Option, none, some, Bool, true, false, ◌&&◌, leb, select,
  sum_by, length, if◌then◌else◌, ◌==◌, string_eq,
}
use myfipay.Http.{Reply, respond}
use myfipay.Sql.Joins.{join, outer, product, or_zero, present, distinct}
use myfipay.Db.{Db, Tenant, User, Location, Plan, Session, Referral, Commission}
use myfipay.Sessions.{same_option}
use myfipay.Listings.{listing}
use myfipay.Listings.Sales.{DayRevenue, figure, revenue_by_day, sold}

-- A row of locations l LEFT JOIN sessions s ... LEFT JOIN plans p ...
abbrev pub Sale : Type 0
Sale = Location × Option Session × Option Plan

abbrev pub plans_of_session : Db → Option Session → List (Option Plan)
plans_of_session db none = none ∷ []
plans_of_session db (some s) =
    outer (select (λ (p : Plan). same_option s.plan_id (some p.id)) db.plans)

abbrev pub session_sales : Db → Location → List (Option Session) → List Sale
session_sales db l [] = []
session_sales db l (s ∷ rest) =
    map (λ p. (l, s, p)) (plans_of_session db s) ++ session_sales db l rest

abbrev pub location_sales : Db → List Location → List Sale
location_sales db [] = []
location_sales db (l ∷ rest) =
    session_sales db l (outer (select (λ (s : Session). s.location_id == l.id) db.sessions))
    ++ location_sales db rest

-- The sales at the locations of a tenant.
unfoldable pub sales_of : Db → String → List Sale
unfolding select outer
sales_of db tenant = location_sales db (select (λ l. l.tenant_id == tenant) db.locations)

abbrev pub price_of : Sale → ℕ
price_of (l, s, none) = 0
price_of (l, s, some p) = p.price_ugx

abbrev pub session_id_of : Sale → Option String
session_id_of (l, none, p) = none
session_id_of (l, some s, p) = some s.id

abbrev pub location_id_of : Sale → Option String
location_id_of (l, s, p) = some l.id

-- A column of the rows of a LEFT JOIN.
abbrev pub column {ℓ} : {A : Type ℓ} → (A → Option String) → List (Option A) → List String
column f [] = []
column f (none ∷ rest) = column f rest
column f (some a ∷ rest) = present (f a ∷ []) ++ column f rest

-- COUNT(DISTINCT column)
abbrev pub count_distinct : List String → ℕ
count_distinct values = length (distinct values)

abbrev operator_id : User → Option String
operator_id u = if u.role == "operator" then some u.id else none

abbrev operator_email : User → Option String
operator_email u = if u.role == "operator" then some u.email else none

pub record TenantRow : Type 0 where
  pub id : String
  pub name : String
  pub slug : String
  pub status : String
  pub created_at : ℕ
  pub user_count : ℕ
  pub location_count : ℕ
  pub session_count : ℕ
  pub total_revenue : ℕ
  pub owner_email : String

-- The group of a tenant: its users with its sales, each of one with each of the other. `greatest` is
-- COALESCE(MAX(...), '').
unfoldable pub tenant_row : (String → ℕ) → (List String → String) → Db → Tenant → TenantRow
unfolding select sales_of outer product sum_by present distinct
tenant_row created_at greatest db t =
    let group =
      product (outer (select (λ (u : User). u.tenant_id == t.id) db.users))
        (outer (sales_of db t.id)) in
    let users = map (λ (us : Option User × Option Sale). us.0) group in
    let sales = map (λ (us : Option User × Option Sale). us.1) group in
    record {
      id = t.id;
      name = t.name;
      slug = t.slug;
      status = t.status;
      created_at = created_at t.id;
      user_count = count_distinct (column operator_id users);
      location_count = count_distinct (column location_id_of sales);
      session_count = count_distinct (column session_id_of sales);
      total_revenue = sum_by (λ (us : Option User × Option Sale). or_zero price_of us.1) group;
      owner_email = greatest (column operator_email users);
    }

unfoldable pub list_tenants :
    Bool
    → (String → ℕ)
    → (List String → String)
    → (List TenantRow → List TenantRow)
    → Db
    → Reply (List TenantRow)
unfolding select tenant_row
list_tenants reached created_at greatest newest db = listing reached "could not fetch tenants" (
    newest (
      map (tenant_row created_at greatest db)
        (select (λ (t : Tenant). t.kind == "operator") db.tenants)))

pub record AgentRow : Type 0 where
  pub id : String
  pub name : String
  pub slug : String
  pub status : String
  pub created_at : ℕ
  pub email : String
  pub operator_count : ℕ
  pub total_commission_ugx : ℕ

-- The group of an agent and its user: LEFT JOIN agent_referrals ar ... LEFT JOIN commissions c ...
unfoldable pub agent_row : (String → ℕ) → Db → Tenant × User → AgentRow
unfolding select outer product sum_by distinct present
agent_row created_at db (t, u) =
    let group =
      product (outer (select (λ (ar : Referral). ar.agent_id == t.id) db.referrals))
        (outer (select (λ (c : Commission). c.agent_id == t.id) db.commissions)) in
    record {
      id = t.id;
      name = t.name;
      slug = t.slug;
      status = t.status;
      created_at = created_at t.id;
      email = u.email;
      operator_count = count_distinct (
          column (λ (ar : Referral). some ar.operator_id)
            (map (λ (rc : Option Referral × Option Commission). rc.0) group));
      total_commission_ugx =
          sum_by (λ (rc : Option Referral × Option Commission). or_zero (λ c. c.amount_ugx) rc.1)
            group;
    }

-- tenants t JOIN users u ON u.tenant_id = t.id AND u.role = 'agent', the largest commission first
unfoldable pub list_agents :
    Bool → (String → ℕ) → (List AgentRow → List AgentRow) → Db → Reply (List AgentRow)
unfolding join select agent_row
list_agents reached created_at largest db = listing reached "query failed" (
    largest (
      map (agent_row created_at db) (
        select (λ (tu : Tenant × User). tu.0.kind == "agent")
          (join (λ (t : Tenant) u. u.tenant_id == t.id && u.role == "agent") db.tenants db.users))))

pub record TenantRevenue : Type 0 where
  pub id : String
  pub name : String
  pub status : String
  pub revenue : ℕ
  pub sessions : ℕ

-- The group of a tenant without its users: COUNT(s.id).
unfoldable pub tenant_revenue : Db → Tenant → TenantRevenue
unfolding sales_of outer sum_by present
tenant_revenue db t = record {
  id = t.id;
  name = t.name;
  status = t.status;
  revenue = sum_by (or_zero price_of) (outer (sales_of db t.id));
  sessions = length (column session_id_of (outer (sales_of db t.id)));
}

pub record Revenue : Type 0 where
  pub total_revenue : ℕ
  pub today_revenue : ℕ
  pub total_sessions : ℕ
  pub today_sessions : ℕ
  pub by_tenant : List TenantRevenue
  pub chart : List DayRevenue

abbrev sales_since : (String → ℕ) → ℕ → List (Session × Plan) → List (Session × Plan)
sales_since started_at since sales =
    select (λ (sp : Session × Plan). leb since (started_at sp.0.id)) sales

abbrev price_sum : List (Session × Plan) → ℕ
price_sum sales = sum_by (λ (sp : Session × Plan). sp.1.price_ugx) sales

-- A query that fails leaves its figures 0 and its list empty. `today` is CURRENT_DATE, `since` is
-- thirty days ago.
unfoldable pub platform_revenue :
    (ℕ → Bool)
    → (String → ℕ)
    → (ℕ → String)
    → ℕ
    → ℕ
    → (List TenantRevenue → List TenantRevenue)
    → (List DayRevenue → List DayRevenue)
    → Db
    → Reply Revenue
unfolding sold select sum_by tenant_revenue revenue_by_day
platform_revenue ok started_at day_of today since largest by_day db =
    let started = sales_since started_at today (sold db) in
    let operators = select (λ (t : Tenant). t.kind == "operator") db.tenants in
    let recent = sales_since started_at since (sold db) in
    respond 200 (record {
      total_revenue = figure (ok 0) (price_sum (sold db));
      today_revenue = figure (ok 1) (price_sum started);
      total_sessions = figure (ok 0) (length (sold db));
      today_sessions = figure (ok 1) (length started);
      by_tenant = if ok 2 then largest (map (tenant_revenue db) operators) else [];
      chart = if ok 3 then by_day (revenue_by_day started_at day_of recent) else [];
    })

-- ===== src/Listings.antt =====
-- The read-only lists of locations and plans (api/internal/handlers/operator.go, portal.go). A time
-- that the clock of the database fills is a parameter, a function of the id of its row; the order that
-- an ORDER BY gives is one, too. `reached` says whether the query goes through.
pub mod Vouchers
pub mod Accounts
pub mod Sales
pub mod Agents
pub mod Payouts
pub mod Tenants
pub mod Statement
pub mod Isolation
mod Tests
use myfipay.Base.{
  ℕ, String, List, [], ◌∷◌, map, Option, none, some, Bool, true, false, ◌&&◌, coalesce, select,
  length, if◌then◌else◌, ◌==◌, string_eq,
}
use myfipay.Http.{Reply, respond, respond_error}
use myfipay.Sql.{first}
use myfipay.Sql.Joins.{join}
use myfipay.Db.{Db, Location, Plan, User, Voucher, VoucherBatch}
use myfipay.Middleware.{UserClaims}
use myfipay.Sessions.{same_option}

-- The rows of a query, or the error.
abbrev pub listing : {A : Type 0} → Bool → String → List A → Reply (List A)
listing reached message rows =
    if reached then respond 200 rows else respond_error 500 "DB_ERROR" message

pub record LocationRow : Type 0 where
  pub id : String
  pub name : String
  pub address : String
  pub portal_slug : String
  pub status : String
  pub created_at : ℕ

abbrev pub location_row : (String → ℕ) → Location → LocationRow
location_row created_at l = record {
  id = l.id;
  name = l.name;
  address = l.address;
  portal_slug = l.portal_slug;
  status = l.status;
  created_at = created_at l.id;
}

-- FROM locations WHERE tenant_id = $1
unfoldable pub list_operator_locations :
    Bool
    → (String → ℕ)
    → (List LocationRow → List LocationRow)
    → UserClaims
    → Db
    → Reply (List LocationRow)
unfolding select
list_operator_locations reached created_at newest claims db = listing reached "query failed" (
    newest
      (map (location_row created_at) (select (λ l. l.tenant_id == claims.tenant_id) db.locations)))

pub record PlanRow : Type 0 where
  pub id : String
  pub location_id : String
  pub location_name : String
  pub name : String
  pub price_ugx : ℕ
  pub duration_minutes : ℕ
  pub speed_down_kbps : ℕ
  pub speed_up_kbps : ℕ
  pub status : String

abbrev pub plan_row : Plan × Location → PlanRow
plan_row (p, l) = record {
  id = p.id;
  location_id = p.location_id;
  location_name = l.name;
  name = p.name;
  price_ugx = p.price_ugx;
  duration_minutes = p.duration_mins;
  speed_down_kbps = coalesce p.speed_down_kbps 2048;
  speed_up_kbps = coalesce p.speed_up_kbps 512;
  status = if p.active then "active" else "inactive";
}

-- plans p JOIN locations l ON p.location_id = l.id
unfoldable pub plans_at : Db → List (Plan × Location)
unfolding join
plans_at db = join (λ p l. p.location_id == l.id) db.plans db.locations

-- ORDER BY l.name, p.price_ugx
unfoldable pub list_operator_plans :
    Bool → (List PlanRow → List PlanRow) → UserClaims → Db → Reply (List PlanRow)
unfolding plans_at select
list_operator_plans reached sorted claims db = listing reached "query failed" (
    sorted (
      map plan_row
        (select (λ (pl : Plan × Location). pl.1.tenant_id == claims.tenant_id) (plans_at db))))

-- The public lists of the portal: the active locations, by name, and the plans on sale at one of them,
-- the cheapest first.
pub record PublicLocation : Type 0 where
  pub id : String
  pub name : String
  pub address : String
  pub portal_slug : String
  pub status : String

unfoldable pub list_locations :
    Bool → (List PublicLocation → List PublicLocation) → Db → Reply (List PublicLocation)
unfolding select
list_locations reached by_name db = listing reached "could not fetch locations" (
    by_name (
      map
        (λ l. record {
          id = l.id;
          name = l.name;
          address = l.address;
          portal_slug = l.portal_slug;
          status = l.status;
        })
        (select (λ (l : Location). l.status == "active") db.locations)))

pub record PublicPlan : Type 0 where
  pub id : String
  pub name : String
  pub price_ugx : ℕ
  pub duration_minutes : ℕ
  pub speed_down_kbps : ℕ
  pub speed_up_kbps : ℕ

unfoldable pub list_plans :
    Bool → (List PublicPlan → List PublicPlan) → String → Db → Reply (List PublicPlan)
unfolding plans_at select
list_plans reached cheapest slug db = listing reached "could not fetch plans" (
    cheapest (
      map
        (λ (pl : Plan × Location). record {
          id = pl.0.id;
          name = pl.0.name;
          price_ugx = pl.0.price_ugx;
          duration_minutes = pl.0.duration_mins;
          speed_down_kbps = coalesce pl.0.speed_down_kbps 2048;
          speed_up_kbps = coalesce pl.0.speed_up_kbps 512;
        })
        (select (λ (pl : Plan × Location). pl.1.portal_slug == slug && pl.0.active) (plans_at db))))

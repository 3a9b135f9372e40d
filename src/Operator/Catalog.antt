-- ===== src/Operator/Catalog.antt =====
-- The locations and the plans of an operator (api/internal/handlers/operator.go). The numbers of the
-- forms are not negative, and prices are whole.
pub mod Isolation
use myfipay.Base.{
  ℕ, ◌+◌, String, List, [], ◌∷◌, Option, none, some, Bool, true, false, not, ◌&&◌, ◌||◌, coalesce,
  if◌then◌else◌, ◌==◌, string_eq, nat_eq,
}
use Prim.Native.String.{◌++◌ as concat, len}
use myfipay.Text.{has_prefix}
use myfipay.Http.{Reply, respond, respond_error}
use myfipay.Sql.{update_where, exists, first}
use myfipay.Db.{Db, Branding, Location, Plan}
use myfipay.Middleware.{UserClaims}
use myfipay.Sessions.{exec}
use myfipay.Operator.{owns}

pub record LocationForm : Type 0 where
  pub name : String
  pub address : String
  pub portal_slug : String

-- The INSERT of a location: its id is the primary key, and its slug is UNIQUE.
unfoldable pub insert_location : Bool → Location → Db → Option Db
unfolding exists
insert_location reached l db =
    if reached
      && not (exists (λ other. other.id == l.id || other.portal_slug == l.portal_slug) db.locations)
    then some (record db { locations = l ∷ db.locations })
    else none

abbrev pub new_location : String → String → LocationForm → Location
new_location tenant id req = record {
  id = id;
  tenant_id = tenant;
  name = req.name;
  address = req.address;
  portal_slug = req.portal_slug;
  branding = none;
  status = "active";
}

-- The answer has the id and the address of the portal.
unfoldable pub create_location :
    Bool → UserClaims → String → Option LocationForm → Db → Reply (String × String) × Db
unfolding insert_location
create_location reached claims id none db =
    (respond_error 400 "VALIDATION_ERROR" "name and portal_slug are required", db)
create_location reached claims id (some req) db =
    let inserted = insert_location reached (new_location claims.tenant_id id req) db in
    if req.name == "" || req.portal_slug == ""
    then (respond_error 400 "VALIDATION_ERROR" "name and portal_slug are required", db)
    else elim inserted [
      | none ↦ (respond_error 409 "CONFLICT" "portal_slug may already be taken", db)
      | some after ↦ (
        respond 201 (id, concat (concat "https://myfipay.com/portal/" req.portal_slug) "/"),
        after,
      )
    ]

-- An UPDATE that reaches the database affects some row.
abbrev pub affects : Bool → ℕ → Bool
affects reached n = reached && not (n == 0)

-- A color is empty or seven bytes from # on.
unfoldable pub is_bad_color : String → Bool
unfolding has_prefix
is_bad_color color = not (color == "") && (not (len color == 7) || not (has_prefix color "#"))

-- UPDATE locations SET branding ... WHERE id = $5 AND tenant_id = $6
abbrev pub brand_rows : UserClaims → String → Branding → List Location → List Location × ℕ
brand_rows claims location_id req rows =
    update_where (λ l. l.id == location_id && l.tenant_id == claims.tenant_id)
      (λ l. record l { branding = some req }) rows

unfoldable pub update_location_branding :
    Bool → UserClaims → String → Option Branding → Db → Reply String × Db
unfolding update_where is_bad_color
update_location_branding reached claims location_id none db =
    (respond_error 400 "INVALID_BODY" "invalid request body", db)
update_location_branding reached claims location_id (some req) db =
    if is_bad_color req.primary_color
    then (respond_error 422 "VALIDATION_ERROR" "primary_color must be a hex color like #2563eb", db)
    else if affects reached (brand_rows claims location_id req db.locations).1
    then (
      respond 200 "branding updated",
      record db { locations = (brand_rows claims location_id req db.locations).0 },
    )
    else (respond_error 404 "NOT_FOUND" "location not found", db)

-- The branding of a row, with COALESCE on its fields.
abbrev pub shown_branding : Location → Branding
shown_branding l =
    coalesce l.branding
      (record { portal_name = ""; tagline = ""; primary_color = "#2563eb"; logo_url = "" })

unfoldable pub get_location_branding : Bool → UserClaims → String → Db → Reply Branding
unfolding first
get_location_branding reached claims location_id db =
    let row =
      if reached
      then first (λ l. l.id == location_id && l.tenant_id == claims.tenant_id) db.locations
      else none in
    elim row [
      | none ↦ respond_error 404 "NOT_FOUND" "location not found"
      | some l ↦ respond 200 (shown_branding l)
    ]

-- `status` is read by the update only.
pub record PlanForm : Type 0 where
  pub location_id : String
  pub name : String
  pub price_ugx : ℕ
  pub duration_mins : ℕ
  pub speed_down_kbps : ℕ
  pub speed_up_kbps : ℕ
  pub status : String

abbrev pub new_plan : String → PlanForm → Plan
new_plan id req = record {
  id = id;
  location_id = req.location_id;
  name = req.name;
  price_ugx = req.price_ugx;
  duration_mins = req.duration_mins;
  speed_down_kbps = some req.speed_down_kbps;
  speed_up_kbps = some req.speed_up_kbps;
  active = true;
}

-- The INSERT of a plan: its id is the primary key.
abbrev pub insert_plan : Plan → Db → Db
insert_plan p db =
    if exists (λ other. other.id == p.id) db.plans then db else record db { plans = p ∷ db.plans }

-- The error of the INSERT is ignored.
unfoldable pub create_plan :
    (ℕ → Bool) → UserClaims → String → Option PlanForm → Db → Reply String × Db
unfolding owns exists
create_plan ok claims id none db = (respond_error 400 "INVALID_BODY" "invalid request body", db)
create_plan ok claims id (some req) db =
    if req.name == "" || req.price_ugx == 0 || req.duration_mins == 0
    then (respond_error 422 "VALIDATION_ERROR" "name, price_ugx, duration_minutes are required", db)
    else if not (ok 0 && owns db claims.tenant_id req.location_id)
    then (respond_error 403 "FORBIDDEN" "location not found", db)
    else (respond 201 id, exec (ok 1) (insert_plan (new_plan id req)) db)

abbrev pub revised : PlanForm → Plan → Plan
revised req p = record p {
  name = req.name;
  price_ugx = req.price_ugx;
  duration_mins = req.duration_mins;
  speed_down_kbps = some req.speed_down_kbps;
  speed_up_kbps = some req.speed_up_kbps;
  active = not (req.status == "inactive");
}

-- UPDATE plans ... WHERE id = $1 AND location_id IN (SELECT id FROM locations WHERE tenant_id = $2)
abbrev pub plan_rows : Db → UserClaims → String → (Plan → Plan) → List Plan × ℕ
plan_rows db claims plan_id change =
    update_where (λ p. p.id == plan_id && owns db claims.tenant_id p.location_id) change db.plans

abbrev pub change_plan :
    Bool → UserClaims → String → (Plan → Plan) → String → Db → Reply String × Db
change_plan reached claims plan_id change done db =
    if affects reached (plan_rows db claims plan_id change).1
    then (respond 200 done, record db { plans = (plan_rows db claims plan_id change).0 })
    else (respond_error 404 "NOT_FOUND" "plan not found", db)

unfoldable pub update_plan : Bool → UserClaims → String → Option PlanForm → Db → Reply String × Db
unfolding update_where owns
update_plan reached claims plan_id none db =
    (respond_error 400 "INVALID_BODY" "invalid request body", db)
update_plan reached claims plan_id (some req) db =
    change_plan reached claims plan_id (revised req) "plan updated" db

unfoldable pub delete_plan : Bool → UserClaims → String → Db → Reply String × Db
unfolding update_where owns
delete_plan reached claims plan_id db =
    change_plan reached claims plan_id (λ p. record p { active = false }) "plan deactivated" db

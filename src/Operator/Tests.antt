-- ===== src/Operator/Tests.antt =====
-- The catalogs of two operators, and an extension, at concrete inputs.
use myfipay.Base.{
  ◌≡◌, ◌≢◌, refl, ap, String, List, [], ◌∷◌, none, some, true, false, ◌==◌, string_eq,
}
use myfipay.Db.{Db, Location}
use myfipay.Db.Sample.{no_rows}
use myfipay.Middleware.{UserClaims}
use myfipay.Sql.{exists}
use myfipay.Base.Int.{pos}
use myfipay.Cache.Memory.{memory, Store}
use myfipay.Webhook.{Library}
use myfipay.Operator.{owns, extend_session}
use myfipay.Operator.Catalog.{PlanForm, new_plan}
use myfipay.Operator.Catalog.Isolation.{
  OneOwner, added-OneOwner, Operation, create_plan', delete_plan', catalog, perform_all,
  perform_all-isolated,
}

abbrev ann : UserClaims
ann = record { user_id = "u1"; tenant_id = "t1"; email = "a@b.c"; role = "operator"; name = "Ann" }

abbrev location_of : String → String → Location
location_of id tenant = record {
  id = id;
  tenant_id = tenant;
  name = "";
  address = "";
  portal_slug = id;
  branding = none;
  status = "active";
}

abbrev db : Db
db = record no_rows {
  locations = location_of "l1" "t1" ∷ location_of "l2" "t2" ∷ [];
  plans =
      record {
        id = "p2";
        location_id = "l2";
        name = "Day";
        price_ugx = 2000;
        duration_mins = 1440;
        speed_down_kbps = none;
        speed_up_kbps = none;
        active = true;
      }
      ∷ [];
}

abbrev form : String → PlanForm
form location = record {
  location_id = location;
  name = "Hour";
  price_ugx = 500;
  duration_mins = 60;
  speed_down_kbps = 2048;
  speed_up_kbps = 512;
  status = "";
}

-- A plan of one's own, and attempts at the other's location and plan.
abbrev ops : List Operation
ops =
    create_plan' (λ i. true) "p3" (some (form "l1"))
    ∷ create_plan' (λ i. true) "p4" (some (form "l2"))
    ∷ delete_plan' true "p2"
    ∷ []

no_owner : OneOwner (record no_rows { plans = db.plans })
unfolding owns exists
no_owner location a b x y = cc

other_owner : OneOwner (record no_rows { plans = db.plans; locations = location_of "l2" "t2" ∷ [] })
unfolding exists
other_owner =
    added-OneOwner (record no_rows { plans = db.plans }) (location_of "l2" "t2") refl no_owner

one_owner : OneOwner db
unfolding exists
one_owner =
    added-OneOwner (record no_rows { plans = db.plans; locations = location_of "l2" "t2" ∷ [] })
      (location_of "l1" "t1") refl other_owner

different : ann.tenant_id ≢ "t2"
different e = apart (ap (λ tenant. tenant == "t1") e)
  where
    apart : true ≢ false
    apart z = cc

perform_all-isolated_example :
    (catalog (perform_all ann ops db) "t2" ≡ catalog db "t2") × OneOwner (perform_all ann ops db)
perform_all-isolated_example = perform_all-isolated ann "t2" ops db different one_owner

abbrev lib : Library
lib = record {
  hmac_sha256_hex = λ key body. "";
  hex_decode = λ s. none;
  to_lower = λ s. s;
  decode_webhook = λ s. none;
  decimal = λ n. "";
  rfc3339 = λ t. "";
  unspecified = λ f. pos 0;
}

-- An active session of Ann's first location that ends at 500, and a plan of an hour.
abbrev busy : Db
busy = record db {
  sessions =
      record {
        id = "s1";
        location_id = "l1";
        plan_id = none;
        username = "256700000001";
        customer_phone = "256700000001";
        mac_address = none;
        status = "active";
        expires_at = 500;
        terminated_at = none;
      }
      ∷ [];
  plans = new_plan "p1" (form "l1") ∷ [];
}

abbrev empty : Store
empty = λ k. none

extended :
    (extend_session lib memory (λ i. true) ann 100 "s1" (some "p1") (empty, busy)).0.status ≡ 200
unfolding extend_session
extended = refl

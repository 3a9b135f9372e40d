-- ===== src/Devices/Tests.antt =====
-- Routers of two operators at a concrete input.
use myfipay.Base.{
  ℕ, ◌≡◌, refl, String, List, [], ◌∷◌, Option, none, some, Bool, true, ◌==◌, string_eq,
}
use myfipay.Db.{Db, Location}
use myfipay.Db.Sample.{no_rows}
use myfipay.Middleware.{UserClaims, Net}
use myfipay.Sql.Keys.{is_key}
use myfipay.Devices.{DeviceForm, create_device}
use myfipay.Devices.Addresses.{IsKeyed, Operation, create, update, perform_all, perform_all-IsKeyed}

abbrev net : Net
net = record {
  Ip = String;
  Network = String;
  parse_ip = λ s. some s;
  ip_string = λ s. s;
  to4 = λ s. some s;
  host_network = λ s bits. s;
  parse_cidr = λ s. none;
  contains = λ network ip. network == ip;
  split_host_port = λ s. none;
}

abbrev claims_of : String → UserClaims
claims_of tenant = record {
  user_id = "u";
  tenant_id = tenant;
  email = "";
  role = "operator";
  name = "";
}

abbrev location_of : String → String → Location
location_of id tenant = record {
  id = id;
  tenant_id = tenant;
  name = "";
  address = "";
  portal_slug = id;
  branding = none;
  status = "active";
}

abbrev db : Db
db = record no_rows { locations = location_of "l1" "t1" ∷ location_of "l2" "t2" ∷ [] }

abbrev form : String → String → DeviceForm
form location ip = record { name = "Router"; location_id = location; nas_ip = ip }

abbrev up : ℕ → Bool
up i = true

abbrev draw : Option (ℕ → ℕ)
draw = some (λ i. i)

-- The second router would have the address of the first one, which then moves.
abbrev ops : List Operation
ops =
    create up draw (claims_of "t1") "11111111-a" (some (form "l1" "1.1.1.1"))
    ∷ create up draw (claims_of "t2") "22222222-b" (some (form "l2" "1.1.1.1"))
    ∷ update up (claims_of "t1") "11111111-a" (some ("Router", "2.2.2.2"))
    ∷ []

taken :
    (create_device net up draw
      (claims_of "t2")
      "22222222-b"
      (some (form "l2" "1.1.1.1"))
      (create_device net up draw
        (claims_of "t1")
        "11111111-a"
        (some (form "l1" "1.1.1.1"))
        db).1).0.status
    ≡ 409
unfolding create_device
taken = refl

nothing_yet : IsKeyed db
unfolding is_key
nothing_yet = (refl, refl)

perform_all-IsKeyed_example : IsKeyed (perform_all net ops db)
perform_all-IsKeyed_example = perform_all-IsKeyed net ops db (refl, (refl, (refl, tt))) nothing_yet

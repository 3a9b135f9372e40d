-- ===== src/Server/Tests.antt =====
-- A route of the admins at a concrete input.
use myfipay.Base.{
  ◌≡◌, refl, inr, String, [], Option, none, some, Bool, true, false, ◌&&◌, if◌then◌else◌, ◌==◌,
  string_eq,
}
use myfipay.Text.{has_prefix}
use myfipay.Middleware.{Jwt, IsJwt, Net, Request, UserClaims}
use myfipay.Server.{Route, admins, post, route_of, admit, cors_middleware}
use myfipay.Server.Guards.{IsKnown, is_open, routes-guarded}

abbrev boss : UserClaims
boss = record { user_id = "u1"; tenant_id = "t1"; email = "a@b.c"; role = "admin"; name = "Ann" }

-- A package that knows one token: "signed", by an HMAC under the key "secret".
abbrev known : Option String → String → Option (UserClaims × Bool)
known none token = none
known (some key) token = if key == "secret" && token == "signed" then some (boss, true) else none

abbrev jwt : Jwt
jwt = record { parse_with_claims = λ key token. known (key true) token }

known-inv :
    (key : Option String) (token : String) (claims : UserClaims)
    → known key token ≡ some (claims, true)
    → (secret : String) × (key ≡ some secret) × (known (some secret) token ≡ some (claims, true))
known-inv none token claims h = cc
known-inv (some secret) token claims h = (secret, refl, h)

abbrev jwt-IsJwt : IsJwt jwt
jwt-IsJwt = record {
  Verifies = λ hmac secret token claims. known (some secret) token ≡ some (claims, true);
  verified = λ key token claims h.
      let (secret, e, v) = known-inv (key true) token claims h in (true, secret, e, v);
}

abbrev net : Net
net = record {
  Ip = String;
  Network = String;
  parse_ip = λ s. some s;
  ip_string = λ s. s;
  to4 = λ s. some s;
  host_network = λ s bits. s;
  parse_cidr = λ s. none;
  contains = λ network ip. network == ip;
  split_host_port = λ s. none;
}

abbrev request : Request
request = record {
  authorization = "Bearer signed";
  mfb_token = none;
  x_real_ip = "10.0.0.7";
  remote_addr = "127.0.0.1";
  origin = "https://evil.example";
  is_options = false;
}

abbrev route : Route
route = (post, "/api/admin/operators", admins, "CreateOperator")

found : route_of post "/api/admin/operators" ≡ some route
unfolding route_of
found = refl

closed : is_open "/api/admin/operators" ≡ false
unfolding is_open has_prefix
closed = refl

admitted : admit jwt net "secret" [] admins request ≡ inr (some boss)
unfolding admit
admitted = refl

routes-guarded_example : IsKnown jwt jwt-IsJwt "secret" "/api/admin/operators" request (some boss)
routes-guarded_example =
    routes-guarded jwt jwt-IsJwt net [] "secret" post "/api/admin/operators" route request
      (some boss) found closed admitted

-- In production without origins, a page elsewhere gets no header.
no_echo : (cors_middleware [] false request).0 ≡ none
unfolding cors_middleware
no_echo = refl

-- ===== src/Middleware/Tests.antt =====
-- Allowlists at a concrete input: an address is its text, and a network the text it begins with.
use myfipay.Base.{
  ◌≡◌, ◌≢◌, refl, String, [], ◌∷◌, none, some, false, if◌then◌else◌, ◌==◌, string_eq,
}
use myfipay.Text.{trim_space, has_prefix}
use myfipay.Config.{split_list}
use myfipay.Middleware.{Net, Request, parse_ip_list, require_source_ip}
use myfipay.Middleware.Addresses.{ComesFrom, IsInside, require_source_ip-allows}

abbrev net : Net
net = record {
  Ip = String;
  Network = String;
  parse_ip = λ s. if s == "bad" then none else some s;
  ip_string = λ s. s;
  to4 = λ s. some s;
  host_network = λ s bits. s;
  parse_cidr = λ s. some "10.";
  contains = λ network ip. has_prefix ip network;
  split_host_port = λ s. none;
}

abbrev from_gateway : Request
from_gateway = record {
  authorization = "";
  mfb_token = none;
  x_real_ip = "10.0.0.7 ";
  remote_addr = "127.0.0.1";
  origin = "";
  is_options = false;
}

parsed : parse_ip_list net "10.0.0.0/8, 1.2.3.4" ≡ some ("10." ∷ "1.2.3.4" ∷ [])
unfolding parse_ip_list trim_space
parsed = refl

not_blank : split_list "10.0.0.0/8, 1.2.3.4" ≢ []
unfolding split_list trim_space
not_blank e = cc

let_through : require_source_ip net ("10." ∷ "1.2.3.4" ∷ []) from_gateway ≡ none
unfolding require_source_ip has_prefix trim_space
let_through = refl

require_source_ip-allows_example :
    (address : String) × ComesFrom net from_gateway address
    × IsInside net ("10." ∷ "1.2.3.4" ∷ []) address
require_source_ip-allows_example =
    require_source_ip-allows net "10.0.0.0/8, 1.2.3.4" ("10." ∷ "1.2.3.4" ∷ []) from_gateway parsed
      not_blank let_through

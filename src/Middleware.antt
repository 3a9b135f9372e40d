-- ===== src/Middleware.antt =====
-- What stands in front of the handlers (api/internal/middleware): the token, the role and the source
-- address of a request.
pub mod Tokens
pub mod Addresses
mod Tests
use myfipay.Base.{
  ℕ, ◌≡◌, ◌⊎◌, inl, inr, String, List, [], ◌∷◌, Option, none, some, Bool, true, false, not, ◌&&◌,
  coalesce, if◌then◌else◌, ◌==◌, string_eq,
}
use myfipay.Text.{trim_space, after_prefix, split_commas, has_slash}
use myfipay.Sql.{exists}

-- The fields that a token carries for the program.
pub record UserClaims : Type 0 where
  pub user_id : String
  pub tenant_id : String
  pub email : String
  pub role : String
  pub name : String

-- What the middleware reads of a request; a header that is missing is empty.
pub record Request : Type 0 where
  pub authorization : String
  pub mfb_token : Option String
  pub x_real_ip : String
  pub remote_addr : String
  pub origin : String
  pub is_options : Bool

-- http.Error: the status and the message.
pub record Rejection : Type 0 where
  pub status : ℕ
  pub message : String

-- The JWT package: ParseWithClaims with its key function, which is asked with whether the method of
-- the token is an HMAC. The claims come with the mark that the token is valid.
pub record Jwt : Type 1 where
  pub parse_with_claims : (Bool → Option String) → String → Option (UserClaims × Bool)

-- What the package documents: a token that is valid was verified under the key that the function gave
-- for its method, and the claims are those that were signed.
pub record IsJwt (jwt : Jwt) : Type 1 where
  pub Verifies : Bool → String → String → UserClaims → Type 0
  pub verified :
      (key : Bool → Option String) (token : String) (claims : UserClaims)
      → jwt.parse_with_claims key token ≡ some (claims, true)
      → (hmac : Bool) × (secret : String) × (key hmac ≡ some secret)
        × Verifies hmac secret token claims

unfoldable pub extract_bearer : Request → String
unfolding after_prefix
extract_bearer r = elim (after_prefix r.authorization "Bearer ") [
  | some token ↦ token
  | none ↦ coalesce r.mfb_token ""
]

-- The key function: the secret, for an HMAC only.
abbrev pub key_for : String → Bool → Option String
key_for secret hmac = if hmac then some secret else none

abbrev pub valid_claims : Option (UserClaims × Bool) → Option UserClaims
valid_claims none = none
valid_claims (some (claims, valid)) = if valid then some claims else none

unfoldable pub parse_token : Jwt → String → String → Option UserClaims
parse_token jwt secret token = valid_claims (jwt.parse_with_claims (key_for secret) token)

abbrev pub authenticated : Option UserClaims → Rejection ⊎ UserClaims
authenticated none = inl (record { status = 401; message = "invalid token" })
authenticated (some claims) = inr claims

-- What the next handler finds in its context.
unfoldable pub require_auth : Jwt → String → Request → Rejection ⊎ UserClaims
unfolding extract_bearer parse_token
require_auth jwt secret r =
    let token = extract_bearer r in
    let checked = authenticated (parse_token jwt secret token) in
    if token == "" then inl (record { status = 401; message = "missing token" }) else checked

abbrev pub forbidden : Rejection
forbidden = record { status = 403; message = "insufficient permissions" }

unfoldable pub require_role : List String → Option UserClaims → Rejection ⊎ UserClaims
unfolding exists
require_role roles none = inl forbidden
require_role roles (some claims) =
    if exists (λ role. role == claims.role) roles then inr claims else inl forbidden

-- What is taken of the package net.
pub record Net : Type 1 where
  pub Ip : Type 0
  pub Network : Type 0
  pub parse_ip : String → Option Ip
  -- IP.String
  pub ip_string : Ip → String
  pub to4 : Ip → Option Ip
  -- the network of an address with a mask of so many bits, all of them set
  pub host_network : Ip → ℕ → Network
  pub parse_cidr : String → Option Network
  pub contains : Network → Ip → Bool
  pub split_host_port : String → Option String

module _ (net : Net) where
  unfoldable pub client_ip : Request → String
  unfolding trim_space
  client_ip r =
      let ip = trim_space r.x_real_ip in
      if not (ip == "") then ip else coalesce (net.split_host_port r.remote_addr) r.remote_addr

  abbrev host_of : Option net.Ip → Option net.Network
  host_of none = none
  host_of (some ip) =
      let bits : ℕ = elim (net.to4 ip) [ none ↦ 128 | some four ↦ 32 ] in
      some (net.host_network ip bits)

  -- An address or a network.
  unfoldable pub parse_entry : String → Option net.Network
  unfolding has_slash
  parse_entry part =
      if not (has_slash part) then host_of (net.parse_ip part) else net.parse_cidr part

  abbrev pub append_network :
      Option net.Network → Option (List net.Network) → Option (List net.Network)
  append_network none rest = none
  append_network (some n) none = none
  append_network (some n) (some rest) = some (n ∷ rest)

  -- The loop over the parts; an error ends it.
  unfoldable pub parse_parts : List String → Option (List net.Network)
  unfolding parse_entry trim_space
  parse_parts [] = some []
  parse_parts (part ∷ parts) =
      let rest = parse_parts parts in
      let entry = parse_entry (trim_space part) in
      if trim_space part == "" then rest else append_network entry rest

  unfoldable pub parse_ip_list : String → Option (List net.Network)
  unfolding parse_parts split_commas
  parse_ip_list s = parse_parts (split_commas s)

  abbrev pub inside : List net.Network → Option net.Ip → Bool
  inside nets none = false
  inside nets (some ip) = exists (λ n. net.contains n ip) nets

  unfoldable pub ip_allowed : String → List net.Network → Bool
  unfolding exists trim_space
  ip_allowed text nets = inside nets (net.parse_ip (trim_space text))

  abbrev pub has_nets : List net.Network → Bool
  has_nets [] = false
  has_nets (n ∷ nets) = true

  -- The rejection, none where the request goes on.
  unfoldable pub require_source_ip : List net.Network → Request → Option Rejection
  unfolding ip_allowed client_ip
  require_source_ip nets r =
      if has_nets nets && not (ip_allowed (client_ip r) nets)
      then some (record { status = 403; message = "source not allowed" })
      else none

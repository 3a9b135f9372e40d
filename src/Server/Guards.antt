-- ===== src/Server/Guards.antt =====
-- What every route asks of its callers.
use myfipay.Base.{
  ◌≡◌, refl, subst, ◌⊎◌, inl, inr, String, List, [], ◌∷◌, Option, some, Bool, true, false, not,
  ◌&&◌, ◌||◌, if◌then◌else◌, ◌==◌, string_eq, arith,
}
use myfipay.Text.{has_prefix}
use myfipay.Sql.{exists, first}
use myfipay.Middleware.{
  Jwt, IsJwt, Net, Request, Rejection, UserClaims, extract_bearer, require_auth, require_role,
}
use myfipay.Middleware.Tokens.{require_auth-verified, require_role-allowed}
use myfipay.Server.{
  Guard, public, webhook, signed_in, agents, admins, Method, Route, routes, route_of, same_method,
  admit, admit_role, admit_user,
}

-- The paths below /api/ that are open: the health check, the sign-in and the registrations.
unfoldable pub is_open : String → Bool
is_open pattern =
    not (has_prefix pattern "/api/")
    || pattern == "/api/health"
    || pattern == "/api/auth/login"
    || pattern == "/api/auth/register"
    || pattern == "/api/auth/register/agent"

unfoldable pub is_for_admins : String → Bool
is_for_admins pattern = has_prefix pattern "/api/admin/"

unfoldable pub is_for_agents : String → Bool
is_for_agents pattern = has_prefix pattern "/api/agent/"

abbrev has_token : Guard → Bool
has_token public = false
has_token webhook = false
has_token _ = true

abbrev for_admins : Guard → Bool
for_admins admins = true
for_admins _ = false

abbrev for_agents : Guard → Bool
for_agents agents = true
for_agents _ = false

-- The guard of a route is at least what its path calls for.
abbrev is_covered : Route → Bool
is_covered (method, pattern, guard, handler) =
    (is_open pattern || has_token guard)
    && (not (is_for_admins pattern) || for_admins guard)
    && (not (is_for_agents pattern) || for_agents guard)

abbrev all_covered : List Route → Bool
all_covered [] = true
all_covered (route ∷ rest) = is_covered route && all_covered rest

table-all_covered : all_covered routes ≡ true
unfolding routes is_open is_for_admins is_for_agents has_prefix
table-all_covered = refl

both-left : (a b : Bool) → a && b ≡ true → a ≡ true
both-left a b h = ground arith

both-right : (a b : Bool) → a && b ≡ true → b ≡ true
both-right a b h = ground arith

some-inv : {x y : Route} → some x ≡ some y → x ≡ y
some-inv h = cc

first-covered :
    (p : Route → Bool) (table : List Route) (route : Route)
    → all_covered table ≡ true
    → first p table ≡ some route
    → is_covered route ≡ true
unfolding first
first-covered p [] route all h = cc
first-covered p (x ∷ rest) route all h =
    picked (p x) (first p rest) h (both-left (is_covered x) (all_covered rest) all)
      (first-covered p rest route (both-right (is_covered x) (all_covered rest) all))
  where
    moved : x ≡ route → is_covered x ≡ true → is_covered route ≡ true
    moved e c = subst (λ (y : Route). is_covered y ≡ true) e c

    picked :
        (b : Bool) (o : Option Route)
        → (if b then some x else o) ≡ some route
        → is_covered x ≡ true
        → (o ≡ some route → is_covered route ≡ true)
        → is_covered route ≡ true
    picked true o g c rest = moved (some-inv g) c
    picked false o g c rest = rest g

abbrev admin_roles : List String
admin_roles = "admin" ∷ "super_admin" ∷ []

abbrev agent_roles : List String
agent_roles = "agent" ∷ []

abbrev has_role : List String → UserClaims → Bool
has_role roles claims = exists (λ role. role == claims.role) roles

-- The caller of a handler: the token is signed with the secret, and carries what the path calls for.
pub record IsKnown (jwt : Jwt) (law : IsJwt jwt) (secret pattern : String) (r : Request)
    (caller : Option UserClaims) : Type 0 where
  pub claims : UserClaims
  pub is_caller : caller ≡ some claims
  pub signed : law.Verifies true secret (extract_bearer r) claims
  pub admin : not (is_for_admins pattern) || has_role admin_roles claims ≡ true
  pub agent : not (is_for_agents pattern) || has_role agent_roles claims ≡ true

module _ (jwt : Jwt) (law : IsJwt jwt) (secret : String) (r : Request) where
  user-inv :
      (x : Rejection ⊎ UserClaims) (caller : Option UserClaims)
      → admit_user x ≡ inr caller
      → (claims : UserClaims) × (x ≡ inr claims) × (caller ≡ some claims)
  user-inv (inl e) caller h = cc
  user-inv (inr claims) caller h = (claims, refl, cc)

  role-inv :
      (roles : List String) (x : Rejection ⊎ UserClaims) (caller : Option UserClaims)
      → admit_role roles x ≡ inr caller
      → (claims : UserClaims) × (x ≡ inr claims)
        × (caller ≡ some claims)
        × (has_role roles claims ≡ true)
  role-inv roles (inl e) caller h = cc
  role-inv roles (inr claims) caller h =
      let (said_so, role) = decided (require_role roles (some claims)) refl h in
      (claims, refl, said_so, role)
    where
      said :
          (user : UserClaims)
          → user ≡ claims
          → admit_user (inr user) ≡ inr caller
          → caller ≡ some claims
      said user same g = cc

      decided :
          (d : Rejection ⊎ UserClaims)
          → require_role roles (some claims) ≡ d
          → elim d as (λ x. Rejection ⊎ Option UserClaims) [
            | inl rejection ↦ inl rejection
            | inr c ↦ inr (some c)
          ]
            ≡ inr caller
          → (caller ≡ some claims) × (has_role roles claims ≡ true)
      decided (inl e) k g = cc
      decided (inr user) k g =
          let (same, role) = require_role-allowed roles claims user k in (said user same g, role)

not_either :
    (o a g : Bool)
    → o && (not a || false) && (not g || false) ≡ true
    → (x : Bool) → not a || x ≡ true
not_either o a g h x = ground arith

not_or :
    (o a g : Bool)
    → o && (not a || false) && (not g || false) ≡ true
    → (x : Bool) → not g || x ≡ true
not_or o a g h x = ground arith

agents_only :
    (o a g : Bool)
    → o && (not a || false) && (not g || true) ≡ true
    → (x : Bool) → not a || x ≡ true
agents_only o a g h x = ground arith

admins_only :
    (o a g : Bool)
    → o && (not a || true) && (not g || false) ≡ true
    → (x : Bool) → not g || x ≡ true
admins_only o a g h x = ground arith

or_right : (a : Bool) {b : Bool} → b ≡ true → a || b ≡ true
or_right a h = ground arith

-- Of the routes, each one below /api/ but the health check, the sign-in and the registrations calls its
-- handler only for a token that was signed with the secret of the program by an HMAC, with the claims
-- of this token; below /api/admin/ these have the role of an admin, and below /api/agent/ that of an
-- agent.
pub routes-guarded :
    (jwt : Jwt) (law : IsJwt jwt) (net : Net) (nets : List net.Network) (secret : String)
    (method : Method) (pattern : String) (route : Route) (r : Request) (caller : Option UserClaims)
    → route_of method pattern ≡ some route
    → is_open route.1 ≡ false
    → admit jwt net secret nets route.2 r ≡ inr caller
    → IsKnown jwt law secret route.1 r caller
unfolding route_of admit
routes-guarded jwt law net nets secret method pattern (m, path, guard, handler) r caller h closed
      admitted =
    known guard
      (first-covered (λ (other : Route). same_method other.0 method && other.1 == pattern) routes
        (m, path, guard, handler) table-all_covered h)
      admitted
  where
    known :
        (g : Guard)
        → is_covered (m, path, g, handler) ≡ true
        → admit jwt net secret nets g r ≡ inr caller
        → IsKnown jwt law secret path r caller
    known public c a = absurd (ground (arith, c, closed))
    known webhook c a = absurd (ground (arith, c, closed))
    known signed_in c a =
        let (claims, x, e) = user-inv jwt law secret r (require_auth jwt secret r) caller a in
        record {
          claims = claims;
          is_caller = e;
          signed = require_auth-verified jwt law secret r claims x;
          admin =
              not_either (is_open path || true) (is_for_admins path) (is_for_agents path) c
                (has_role admin_roles claims);
          agent =
              not_or (is_open path || true) (is_for_admins path) (is_for_agents path) c
                (has_role agent_roles claims);
        }
    known agents c a =
        let (claims, x, e, role) =
          role-inv jwt law secret r agent_roles (require_auth jwt secret r) caller a in
        record {
          claims = claims;
          is_caller = e;
          signed = require_auth-verified jwt law secret r claims x;
          admin =
              agents_only (is_open path || true) (is_for_admins path) (is_for_agents path) c
                (has_role admin_roles claims);
          agent = or_right (not (is_for_agents path)) role;
        }
    known admins c a =
        let (claims, x, e, role) =
          role-inv jwt law secret r admin_roles (require_auth jwt secret r) caller a in
        record {
          claims = claims;
          is_caller = e;
          signed = require_auth-verified jwt law secret r claims x;
          admin = or_right (not (is_for_admins path)) role;
          agent =
              admins_only (is_open path || true) (is_for_admins path) (is_for_agents path) c
                (has_role agent_roles claims);
        }

-- ===== src/Middleware/Tokens.antt =====
-- Who gets past the token (api/internal/middleware/auth.go).
use myfipay.Base.{
  ◌≡◌, refl, subst, ◌⊎◌, inl, inr, String, List, Option, none, some, Bool, true, false,
  if◌then◌else◌, ◌==◌, string_eq,
}
use myfipay.Sql.{exists}
use myfipay.Middleware.{
  Jwt, IsJwt, Request, Rejection, UserClaims, key_for, extract_bearer, parse_token, valid_claims,
  authenticated, require_auth, require_role, forbidden,
}

valid-inv :
    (o : Option (UserClaims × Bool)) (claims : UserClaims)
    → valid_claims o ≡ some claims
    → o ≡ some (claims, true)
valid-inv none claims h = cc
valid-inv (some (c, true)) claims h = cc
valid-inv (some (c, false)) claims h = cc

authenticated-inv :
    (o : Option UserClaims) (claims : UserClaims) → authenticated o ≡ inr claims → o ≡ some claims
authenticated-inv none claims h = cc
authenticated-inv (some c) claims h = cc

past :
    (b : Bool) (x : Rejection) (y : Rejection ⊎ UserClaims) (claims : UserClaims)
    → (if b then inl x else y) ≡ inr claims
    → y ≡ inr claims
past true x y claims h = cc
past false x y claims h = h

key_for-inv :
    (secret used : String) (hmac : Bool)
    → key_for secret hmac ≡ some used
    → (hmac ≡ true) × (used ≡ secret)
key_for-inv secret used true h = (refl, cc)
key_for-inv secret used false h = cc

-- What gets past the token was signed with the secret of the program, by an HMAC.
pub require_auth-verified :
    (jwt : Jwt) (law : IsJwt jwt) (secret : String) (r : Request) (claims : UserClaims)
    → require_auth jwt secret r ≡ inr claims
    → law.Verifies true secret (extract_bearer r) claims
unfolding require_auth parse_token
require_auth-verified jwt law secret r claims h =
    let token = extract_bearer r in
    let found = jwt.parse_with_claims (key_for secret) token in
    let (hmac, used, key, verified) = law.verified (key_for secret) token claims (
      valid-inv found claims (
        authenticated-inv (valid_claims found) claims (
          past (token == "") (record { status = 401; message = "missing token" })
            (authenticated (valid_claims found)) claims h))) in
    let (is_hmac, is_secret) = key_for-inv secret used hmac key in
    subst (λ m. law.Verifies m secret token claims) is_hmac
      (subst (λ k. law.Verifies hmac k token claims) is_secret verified)

-- The role is one of those that the route asks for.
pub require_role-allowed :
    (roles : List String) (claims user : UserClaims)
    → require_role roles (some claims) ≡ inr user
    → (user ≡ claims) × (exists (λ role. role == claims.role) roles ≡ true)
unfolding require_role
require_role-allowed roles claims user h =
    allowed (exists (λ role. role == claims.role) roles) refl h
  where
    allowed :
        (b : Bool)
        → exists (λ role. role == claims.role) roles ≡ b
        → if◌then◌else◌ {A = Rejection ⊎ UserClaims} b (inr claims) (inl forbidden) ≡ inr user
        → (user ≡ claims) × (exists (λ role. role == claims.role) roles ≡ true)
    allowed true e g = (cc, e)
    allowed false e g = cc

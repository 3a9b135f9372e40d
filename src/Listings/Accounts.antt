-- ===== src/Listings/Accounts.antt =====
-- What a user is shown of its account (api/internal/handlers/operator.go: GetProfile, auth.go: Me).
use myfipay.Base.{ℕ, String, Option, none, some, Bool, if◌then◌else◌, ◌==◌, string_eq}
use myfipay.Http.{Reply, respond, respond_error}
use myfipay.Sql.{first}
use myfipay.Db.{Db, User}
use myfipay.Middleware.{UserClaims}

pub record Profile : Type 0 where
  pub id : String
  pub email : String
  pub name : String
  pub phone : Option String
  pub role : String

-- The error of Scan is ignored: a user that is not there has empty fields.
abbrev pub profile_of : Option User → Profile
profile_of none = record { id = ""; email = ""; name = ""; phone = none; role = "" }
profile_of (some u) = record {
  id = u.id;
  email = u.email;
  name = u.name;
  phone = some u.phone;
  role = u.role;
}

unfoldable pub get_profile : Bool → UserClaims → Db → Reply Profile
unfolding first
get_profile reached claims db =
    let row = first (λ u. u.id == claims.user_id) db.users in
    respond 200 (profile_of (if reached then row else none))

pub record Account : Type 0 where
  pub id : String
  pub tenant_id : String
  pub email : String
  pub name : String
  pub role : String
  pub status : String
  pub last_login : Option ℕ
  pub created_at : ℕ

unfoldable pub me : Bool → (String → ℕ) → UserClaims → Db → Reply Account
unfolding first
me reached created_at claims db =
    let row = first (λ u. u.id == claims.user_id) db.users in
    elim (if reached then row else none) [
      | none ↦ respond_error 404 "NOT_FOUND" "user not found"
      | some u ↦ respond 200 (record {
        id = u.id;
        tenant_id = u.tenant_id;
        email = u.email;
        name = u.name;
        role = u.role;
        status = u.status;
        last_login = u.last_login;
        created_at = created_at u.id;
      })
    ]

-- ===== src/Accounts.antt =====
-- Accounts: registration of operators and agents, review by an admin, passwords and profiles
-- (api/internal/handlers/auth.go, agent.go, admin.go, operator.go). Ids, the salt of a hash and the
-- time are drawn for the call.
pub mod Agents
pub mod Reviews
pub mod Slugs
pub mod Atomic
mod Tests
use myfipay.Base.{
  ℕ, ◌+◌, ◌⊎◌, inl, inr, String, List, ◌∷◌, Option, none, some, Bool, true, false, not, ◌&&◌, ◌||◌,
  ltb, leb, length, select, code, coalesce, if◌then◌else◌, ◌==◌, string_eq, nat_eq,
}
use Prim.Native.String.{◌++◌ as concat, len}
use myfipay.Text.{trim_space, trim_dashes, has_prefix}
use myfipay.Sql.{update_where, exists, first}
use myfipay.Http.{Reply, respond, respond_error}
use myfipay.Db.{Db, Tenant, User, Referral}

-- What the handlers take from libraries: strings.ToLower, bcrypt with the salt as an argument, "%d",
-- and settings->>'commission_rate' of a text, `none` where the text is not JSON.
pub record AccountLibrary : Type 0 where
  pub to_lower : String → String
  pub hash : String → String → Option String
  pub matches : String → String → Bool
  pub decimal : ℕ → String
  pub read_rate : String → Option String

-- strings.ToLower(strings.TrimSpace(email))
abbrev pub normal_email : AccountLibrary → String → String
normal_email lib email = lib.to_lower (trim_space email)

unfoldable pub is_slug_code : ℕ → Bool
is_slug_code c = leb b'a' c && leb c b'z' || leb b'0' c && leb c b'9'

-- The loop over the runes of the text.
unfoldable pub slug_runes : String → String
unfolding is_slug_code
slug_runes String.[] = ""
slug_runes (String.◌∷◌ c s) =
    let rest = slug_runes s in
    if is_slug_code (code c)
    then String.◌∷◌ c rest
    else if code c == b' ' || code c == b'-' || code c == b'_'
    then String.◌∷◌ "-" rest
    else rest

unfoldable pub slugify : AccountLibrary → String → String
unfolding slug_runes trim_dashes
slugify lib s = trim_dashes (slug_runes (lib.to_lower s))

pub record RegisterForm : Type 0 where
  pub name : String
  pub business_name : String
  pub email : String
  pub phone : String
  pub district : String
  pub password : String
  pub agent_code : String

-- SELECT COUNT(*) FROM users WHERE email = $1 is positive; a query that fails leaves 0.
unfoldable pub email_taken : Bool → Db → String → Bool
unfolding exists
email_taken reached db email = reached && exists (λ u. u.email == email) db.users

-- The slug, or the slug with a number where slug LIKE 'slug%' counts tenants.
unfoldable pub free_slug : AccountLibrary → Bool → Db → String → String
unfolding select has_prefix
free_slug lib reached db slug =
    let taken = if reached then length (select (λ t. has_prefix t.slug slug) db.tenants) else 0 in
    if taken == 0 then slug else concat (concat slug "-") (lib.decimal (taken + 1))

-- `{"district":"%s"}`
abbrev pub settings_of : String → String
settings_of district = concat (concat "{\"district\":\"" district) "\"}"

-- The INSERT of a tenant: its settings are JSON, and its slug is UNIQUE.
abbrev pub insert_tenant_at : Option String → Tenant → Db → Option Db
insert_tenant_at none t db = none
insert_tenant_at (some rate) t db =
    if exists (λ other. other.slug == t.slug) db.tenants
    then none
    else some (record db { tenants = record t { commission_rate = rate } ∷ db.tenants })

unfoldable pub insert_tenant : Bool → Option String → Tenant → Db → Option Db
unfolding exists
insert_tenant reached rate t db = insert_tenant_at (if reached then rate else none) t db

-- The INSERT of a user: its email is UNIQUE.
unfoldable pub insert_user : Bool → User → Db → Option Db
unfolding exists
insert_user reached u db =
    if reached && not (exists (λ other. other.email == u.email) db.users)
    then some (record db { users = u ∷ db.users })
    else none

-- The status, the code and the message of an error.
abbrev pub Failure : Type 0
Failure = ℕ × String × String

abbrev pub refuse {ℓ} : {A : Type ℓ} → Failure → Reply A
refuse (status, code', message) = respond_error status code' message

abbrev pub db_error : String → Failure ⊎ Db
db_error message = inl (500, "DB_ERROR", message)

-- The messages of the errors of a registration, which the two handlers word differently.
pub record Wording : Type 0 where
  pub no_tenant : String
  pub no_user : String
  pub no_commit : String

abbrev pub insert_user_of : Wording → (ℕ → Bool) → User → Option Db → Failure ⊎ Db
insert_user_of says ok u none = db_error says.no_tenant
insert_user_of says ok u (some db) = elim (insert_user (ok 4) u db) [
  | none ↦ db_error says.no_user
  | some after ↦ if ok 5 then inr after else db_error says.no_commit
]

-- The transaction: the tenant and its user, or neither.
unfoldable pub open_account :
    Wording → (ℕ → Bool) → Option String → Tenant → User → Db → Failure ⊎ Db
unfolding insert_tenant insert_user
open_account says ok rate t u db =
    let done = insert_user_of says ok u (insert_tenant (ok 3) rate t db) in
    if not (ok 2) then db_error "could not start transaction" else done

-- An active agent with this code.
unfoldable pub agent_of_code : Db → String → Option Tenant
unfolding first
agent_of_code db agent_code =
    first (λ t. t.slug == agent_code && t.kind == "agent" && t.status == "active") db.tenants

-- ON CONFLICT DO NOTHING: operator_id is UNIQUE.
abbrev pub refer : Bool → Option Tenant → String → Db → Db
refer reached none operator_id db = db
refer reached (some agent) operator_id db =
    if reached && not (exists (λ r. r.operator_id == operator_id) db.referrals)
    then record db {
      referrals = record { agent_id = agent.id; operator_id = operator_id } ∷ db.referrals;
    }
    else db

unfoldable pub wire_referral : (ℕ → Bool) → String → String → Db → Db
unfolding agent_of_code exists
wire_referral ok agent_code operator_id db =
    let referred =
      refer (ok 7) (if ok 6 then agent_of_code db agent_code else none) operator_id db in
    if agent_code == "" then db else referred

-- A new account: the id of the user and its email.
abbrev pub Registered : Type 0
Registered = String × String

-- The messages of the two checks that every registration makes.
abbrev pub short_password : Failure
short_password = (422, "VALIDATION_ERROR", "password must be at least 8 characters")

abbrev taken_email : Failure
taken_email = (409, "EMAIL_TAKEN", "an account with this email already exists")

abbrev pub operator_wording : Wording
operator_wording = record {
  no_tenant = "could not create tenant";
  no_user = "could not create user";
  no_commit = "could not commit registration";
}

-- The two rows of an operator who registers.
abbrev pub operator_tenant : AccountLibrary → Bool → String → RegisterForm → Db → Tenant
operator_tenant lib reached tenant_id req db = record {
  id = tenant_id;
  name = trim_space req.business_name;
  slug = free_slug lib reached db (slugify lib (trim_space req.business_name));
  kind = "operator";
  status = "pending_kyc";
  commission_rate = "";
}

abbrev pub operator_user : AccountLibrary → String → String → RegisterForm → String → User
operator_user lib tenant_id user_id req hash = record {
  id = user_id;
  tenant_id = tenant_id;
  email = normal_email lib req.email;
  phone = req.phone;
  name = trim_space req.name;
  role = "operator";
  password = hash;
  status = "pending_kyc";
  last_login = none;
}

abbrev pub finish_register :
    AccountLibrary
    → (ℕ → Bool)
    → String
    → String
    → RegisterForm
    → Db
    → Option String
    → Reply Registered × Db
finish_register lib ok tenant_id user_id req db none =
    (respond_error 500 "HASH_ERROR" "could not process password", db)
finish_register lib ok tenant_id user_id req db (some hash) =
    let tenant = operator_tenant lib (ok 1) tenant_id req db in
    let user = operator_user lib tenant_id user_id req hash in
    elim (open_account operator_wording ok (lib.read_rate (settings_of req.district)) tenant user
      db) [
        | inl failure ↦ (refuse failure, db)
        | inr after ↦ (
          respond 201 (user_id, normal_email lib req.email),
          wire_referral ok req.agent_code tenant_id after,
        )
      ]

unfoldable pub register :
    AccountLibrary
    → (ℕ → Bool)
    → String
    → String
    → String
    → Option RegisterForm
    → Db
    → Reply Registered × Db
unfolding email_taken free_slug slugify open_account wire_referral
register lib ok salt tenant_id user_id none db =
    (respond_error 400 "INVALID_BODY" "invalid request body", db)
register lib ok salt tenant_id user_id (some req) db =
    let email = normal_email lib req.email in
    let finished = finish_register lib ok tenant_id user_id req db (lib.hash salt req.password) in
    if trim_space req.name == ""
      || trim_space req.business_name == ""
      || email == ""
      || req.password == ""
    then (
      respond_error 422 "VALIDATION_ERROR" "name, business_name, email, and password are required",
      db,
    )
    else if ltb (len req.password) 8
    then (refuse short_password, db)
    else if email_taken (ok 0) db email
    then (refuse taken_email, db)
    else finished

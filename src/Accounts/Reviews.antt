-- ===== src/Accounts/Reviews.antt =====
-- What an admin does to accounts (admin.go, operator.go), and what a user does to their own.
use myfipay.Base.{
  ℕ, String, ◌∷◌, Option, none, some, Bool, true, false, not, ◌&&◌, ◌||◌, ltb, if◌then◌else◌, ◌==◌,
  string_eq, nat_eq,
}
use Prim.Native.String.{◌++◌ as concat, len}
use myfipay.Text.{spaces_to_dashes, first_eight}
use myfipay.Sql.{update_where, exists, first}
use myfipay.Http.{Reply, respond, respond_error}
use myfipay.Db.{Db, User}
use myfipay.Accounts.{AccountLibrary, refuse, short_password, insert_user}

-- The form of an admin who creates an operator.
pub record OperatorForm : Type 0 where
  pub tenant_id : String
  pub email : String
  pub name : String
  pub password : String
  pub phone : String

-- INSERT INTO tenants ... ON CONFLICT DO NOTHING, with a slug of the name and the drawn id.
unfoldable pub operator_slug : AccountLibrary → String → String → String
unfolding spaces_to_dashes first_eight
operator_slug lib name drawn =
    concat (concat (lib.to_lower (spaces_to_dashes name)) "-") (first_eight drawn)

abbrev provide_tenant : Bool → String → String → String → String → Db → Db
provide_tenant reached given drawn name slug db =
    if given == "" && reached && not (exists (λ t. t.id == drawn || t.slug == slug) db.tenants)
    then record db {
      tenants =
          record {
            id = drawn;
            name = concat name " (Operator)";
            slug = slug;
            kind = "operator";
            status = "active";
            commission_rate = "";
          }
          ∷ db.tenants;
    }
    else db

-- The INSERT of the user, after the tenant, which it refers to.
abbrev finish_operator :
    AccountLibrary
    → (ℕ → Bool)
    → String
    → String
    → OperatorForm
    → Db
    → Option String
    → Reply (String × String) × Db
finish_operator lib ok drawn user_id req db none =
    (respond_error 500 "HASH_ERROR" "could not hash password", db)
finish_operator lib ok drawn user_id req db (some hash) =
    let tenant_id = if req.tenant_id == "" then drawn else req.tenant_id in
    let provided =
      provide_tenant (ok 0) req.tenant_id drawn req.name (operator_slug lib req.name drawn) db in
    let user : User = record {
      id = user_id;
      tenant_id = tenant_id;
      email = req.email;
      phone = req.phone;
      name = req.name;
      role = "operator";
      password = hash;
      status = "active";
      last_login = none;
    } in
    elim (insert_user (ok 1 && exists (λ t. t.id == tenant_id) provided.tenants) user provided) [
      | none ↦ (respond_error 409 "CONFLICT" "email already registered", provided)
      | some after ↦ (respond 201 (user_id, tenant_id), after)
    ]

unfoldable pub create_operator :
    AccountLibrary
    → (ℕ → Bool)
    → String
    → String
    → String
    → Option OperatorForm
    → Db
    → Reply (String × String) × Db
unfolding insert_user exists operator_slug
create_operator lib ok salt drawn user_id none db =
    (respond_error 400 "INVALID_BODY" "invalid request body", db)
create_operator lib ok salt drawn user_id (some req) db =
    let finished = finish_operator lib ok drawn user_id req db (lib.hash salt req.password) in
    if req.email == "" || req.password == "" || req.name == ""
    then (respond_error 422 "VALIDATION_ERROR" "email, name, password required", db)
    else if ltb (len req.password) 8
    then (refuse short_password, db)
    else finished

-- An UPDATE of users ... WHERE.
abbrev pub update_users : Bool → (User → Bool) → (User → User) → Db → Db
update_users reached guard change db =
    if reached then record db { users = (update_where guard change db.users).0 } else db

-- An UPDATE of the operators' tenants ... WHERE id = $1 AND type = 'operator', and how many it
-- affected; none where it fails.
abbrev pub update_operator : Bool → String → String → Db → Db × ℕ
update_operator reached id status db =
    let (rows, affected) =
      update_where (λ t. t.id == id && t.kind == "operator") (λ t. record t { status = status })
        db.tenants in
    if reached then (record db { tenants = rows }, affected) else (db, 0)

unfoldable pub approve_kyc : (ℕ → Bool) → String → Db → Reply String × Db
unfolding update_where
approve_kyc ok tenant_id db =
    let (after, affected) = update_operator (ok 0) tenant_id "active" db in
    let approved =
      update_users (ok 1) (λ u. u.tenant_id == tenant_id) (λ u. record u { status = "active" })
        after in
    if affected == 0
    then (respond_error 404 "NOT_FOUND" "tenant not found", after)
    else (respond 200 "operator approved", approved)

-- The reason goes into the settings; a text that is not JSON inside quotes fails the statement.
unfoldable pub reject_kyc : AccountLibrary → Bool → String → Option String → Db → Reply String × Db
unfolding update_where
reject_kyc lib reached tenant_id none db =
    (respond_error 400 "INVALID_BODY" "invalid request body", db)
reject_kyc lib reached tenant_id (some reason) db =
    let reason' = if reason == "" then "Application did not meet requirements." else reason in
    let is_json : Bool = elim (lib.read_rate (concat (concat "\"" reason') "\"")) [
      | none ↦ false
      | some rate ↦ true
    ] in
    let (after, affected) = update_operator (reached && is_json) tenant_id "rejected" db in
    if affected == 0
    then (respond_error 404 "NOT_FOUND" "tenant not found", after)
    else (respond 200 "operator rejected", after)

pub record PasswordForm : Type 0 where
  pub current_password : String
  pub new_password : String

abbrev store_password : Bool → String → Option String → Db → Reply String × Db
store_password reached user_id none db =
    (respond_error 500 "HASH_ERROR" "could not hash password", db)
store_password reached user_id (some hash) db = (
  respond 200 "password updated",
  update_users reached (λ u. u.id == user_id) (λ u. record u { password = hash }) db,
)

unfoldable pub change_password :
    AccountLibrary → (ℕ → Bool) → String → String → Option PasswordForm → Db → Reply String × Db
unfolding update_where first
change_password lib ok salt user_id none db =
    (respond_error 400 "INVALID_BODY" "invalid request body", db)
change_password lib ok salt user_id (some req) db =
    let row = if ok 0 then first (λ u. u.id == user_id) db.users else none in
    let stored = store_password (ok 1) user_id (lib.hash salt req.new_password) db in
    if ltb (len req.new_password) 8
    then (respond_error 422 "VALIDATION_ERROR" "new password must be at least 8 characters", db)
    else elim row [
      | none ↦ (respond_error 404 "NOT_FOUND" "user not found", db)
      | some u ↦
          if not (lib.matches u.password req.current_password)
          then (respond_error 401 "INVALID_CREDENTIALS" "current password is incorrect", db)
          else stored
    ]

unfoldable pub update_profile : Bool → String → Option (String × String) → Db → Reply String × Db
unfolding update_where
update_profile reached user_id none db =
    (respond_error 400 "VALIDATION_ERROR" "name is required", db)
update_profile reached user_id (some (name, phone)) db =
    if name == "" then (respond_error 400 "VALIDATION_ERROR" "name is required", db) else (
      respond 200 "profile updated",
      update_users reached (λ u. u.id == user_id) (λ u. record u { name = name; phone = phone }) db,
    )

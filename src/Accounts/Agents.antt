-- ===== src/Accounts/Agents.antt =====
-- The registration of an agent (api/internal/handlers/agent.go), who is active at once.
use myfipay.Base.{
  ℕ, inl, inr, String, Option, none, some, Bool, ◌||◌, ltb, if◌then◌else◌, ◌==◌, string_eq, nat_eq,
}
use Prim.Native.String.{◌++◌ as concat, len}
use myfipay.Text.{trim_space}
use myfipay.Http.{Reply, respond, respond_error}
use myfipay.Db.{Db, Tenant, User}
use myfipay.Accounts.{
  AccountLibrary, Registered, Wording, refuse, normal_email, slugify, email_taken, free_slug,
  settings_of, open_account, short_password, taken_email,
}

abbrev agent_wording : Wording
agent_wording = record {
  no_tenant = "could not create agent tenant";
  no_user = "could not create agent user";
  no_commit = "could not complete registration";
}

-- The form of RegisterAgent has no business name and no agent code.
pub record AgentForm : Type 0 where
  pub name : String
  pub phone : String
  pub email : String
  pub district : String
  pub password : String

-- The id of the user and the invite code.
abbrev pub finish_agent :
    AccountLibrary
    → (ℕ → Bool)
    → String
    → String
    → AgentForm
    → Db
    → Option String
    → Reply Registered × Db
finish_agent lib ok tenant_id user_id req db none =
    (respond_error 500 "HASH_ERROR" "could not process password", db)
finish_agent lib ok tenant_id user_id req db (some hash) =
    let slug = free_slug lib (ok 1) db (concat "agent-" (slugify lib (trim_space req.name))) in
    let tenant : Tenant = record {
      id = tenant_id;
      name = concat (trim_space req.name) " (Agent)";
      slug = slug;
      kind = "agent";
      status = "active";
      commission_rate = "";
    } in
    let user : User = record {
      id = user_id;
      tenant_id = tenant_id;
      email = normal_email lib req.email;
      phone = req.phone;
      name = trim_space req.name;
      role = "agent";
      password = hash;
      status = "active";
      last_login = none;
    } in
    elim (open_account agent_wording ok (lib.read_rate (settings_of req.district)) tenant user db) [
      | inl failure ↦ (refuse failure, db)
      | inr after ↦ (respond 201 (user_id, slug), after)
    ]

unfoldable pub register_agent :
    AccountLibrary
    → (ℕ → Bool)
    → String
    → String
    → String
    → Option AgentForm
    → Db
    → Reply Registered × Db
unfolding email_taken free_slug slugify open_account
register_agent lib ok salt tenant_id user_id none db =
    (respond_error 400 "INVALID_BODY" "invalid request body", db)
register_agent lib ok salt tenant_id user_id (some req) db =
    let email = normal_email lib req.email in
    let finished = finish_agent lib ok tenant_id user_id req db (lib.hash salt req.password) in
    if trim_space req.name == "" || email == "" || req.password == "" || req.phone == ""
    then (respond_error 422 "VALIDATION_ERROR" "name, email, phone, and password are required", db)
    else if ltb (len req.password) 8
    then (refuse short_password, db)
    else if email_taken (ok 0) db email
    then (refuse taken_email, db)
    else finished

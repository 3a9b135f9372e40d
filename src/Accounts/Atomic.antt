-- ===== src/Accounts/Atomic.antt =====
-- A registration writes a tenant with its user, or nothing.
use myfipay.Base.{
  ℕ, ◌≡◌, ◌≢◌, refl, ◌∙◌, ◌⊎◌, inl, inr, String, ◌∷◌, Option, none, some, Bool, true, false, not,
  ◌&&◌, ◌||◌, ltb, if◌then◌else◌, if-cases, ◌==◌, string_eq, nat_eq, arith,
}
use Prim.Native.String.{len}
use myfipay.Text.{trim_space}
use myfipay.Sql.{exists}
use myfipay.Http.{Reply, respond}
use myfipay.Db.{Db, Tenant, User}
use myfipay.Accounts.{
  AccountLibrary, Wording, operator_wording, Failure, RegisterForm, Registered, refuse,
  normal_email, open_account, insert_tenant, insert_user, insert_tenant_at, insert_user_of,
  email_taken, finish_register, operator_tenant, operator_user, wire_referral, refer, agent_of_code,
  register, db_error,
}

-- The rows of the account were added, each under a key that was free.
pub record Opened (db after : Db) (tenant : Tenant) (user : User) : Type 0 where
  pub rate : String
  pub tenants : after.tenants ≡ (record tenant { commission_rate = rate }) ∷ db.tenants
  pub users : after.users ≡ user ∷ db.users
  pub new_slug : exists (λ t. t.slug == tenant.slug) db.tenants ≡ false
  pub new_email : exists (λ u. u.email == user.email) db.users ≡ false

abbrev pub IsAtomic : Tenant → User → Db → Failure ⊎ Db → Type 0
IsAtomic t u db (inl failure) = failure.0 ≡ 500
IsAtomic t u db (inr after) = Opened db after t u

not-false : (a b : Bool) → a && not b ≡ true → b ≡ false
not-false a b h = ground arith

pub open_account-IsAtomic :
    (says : Wording) (ok : ℕ → Bool) (rate : Option String) (t : Tenant) (u : User) (db : Db)
    → IsAtomic t u db (open_account says ok rate t u db)
unfolding open_account insert_tenant insert_user
open_account-IsAtomic says ok rate t u db =
    if-cases (IsAtomic t u db) (not (ok 2)) (λ _. refl) (λ _. tenant (if ok 3 then rate else none))
  where
    tenant :
        (r : Option String) → IsAtomic t u db (insert_user_of says ok u (insert_tenant_at r t db))
    tenant none = refl
    tenant (some r) =
        if-cases (λ o. IsAtomic t u db (insert_user_of says ok u o))
          (exists (λ other. other.slug == t.slug) db.tenants) (λ _. refl)
          (λ fresh.
            if-cases
              (λ (o : Option Db). IsAtomic t u db (elim o [
                | none ↦ db_error says.no_user
                | some after ↦ if ok 5 then inr after else db_error says.no_commit
              ]))
              (ok 4 && not (exists (λ other. other.email == u.email) db.users))
              (λ added.
                if-cases (IsAtomic t u db) (ok 5)
                  (λ _. record {
                    rate = r;
                    tenants = refl;
                    users = refl;
                    new_slug = fresh;
                    new_email = not-false (ok 4) _ added;
                  })
                  (λ _. refl))
              (λ _. refl))

abbrev SameAccounts : Db → Db → Type 0
SameAccounts db after = (after.tenants ≡ db.tenants) × (after.users ≡ db.users)

wire_referral-SameAccounts :
    (ok : ℕ → Bool) (agent_code operator_id : String) (db : Db)
    → SameAccounts db (wire_referral ok agent_code operator_id db)
unfolding wire_referral
wire_referral-SameAccounts ok agent_code operator_id db =
    if-cases (SameAccounts db) (agent_code == "") (λ _. (refl, refl))
      (λ _. referred (if ok 6 then agent_of_code db agent_code else none))
  where
    referred : (agent : Option Tenant) → SameAccounts db (refer (ok 7) agent operator_id db)
    referred none = (refl, refl)
    referred (some agent) =
        if-cases (SameAccounts db)
          (ok 7 && not (exists (λ r. r.operator_id == operator_id) db.referrals))
          (λ _. (refl, refl)) (λ _. (refl, refl))

third_false : (a b c d : Bool) → a || b || c || d ≡ false → c ≡ false
third_false a b c d h = ground arith

fourth_false : (a b c d : Bool) → a || b || c || d ≡ false → d ≡ false
fourth_false a b c d h = ground arith

-- An account that awaits its review, under the address and the password of the form.
pub record Created (lib : AccountLibrary) (salt tenant_id : String) (form : RegisterForm)
    (db after : Db) : Type 0 where
  pub tenant : Tenant
  pub user : User
  pub opened : Opened db after tenant user
  pub identified : tenant.id ≡ tenant_id
  pub linked : user.tenant_id ≡ tenant.id
  pub is_operator : tenant.kind ≡ "operator"
  pub tenant_waits : tenant.status ≡ "pending_kyc"
  pub named : user.email ≡ normal_email lib form.email
  pub user_waits : user.status ≡ "pending_kyc"
  pub hashed : lib.hash salt form.password ≡ some user.password
  pub has_email : (normal_email lib form.email == "") ≡ false
  pub has_password : (form.password == "") ≡ false

abbrev pub RegisterOutcome :
    AccountLibrary → String → String → RegisterForm → Db → Reply Registered × Db → Type 0
RegisterOutcome lib salt tenant_id form db (reply, after) =
    (reply.status ≡ 201) × Created lib salt tenant_id form db after
    ⊎ (reply.success ≡ false) × (reply.status ≢ 201) × (after ≡ db)

module _ (lib : AccountLibrary) (ok : ℕ → Bool) (salt tenant_id user_id : String)
    (req : RegisterForm) (db : Db) where
  finish_register-Outcome :
      (normal_email lib req.email == "") ≡ false
      → (req.password == "") ≡ false
      → RegisterOutcome lib salt tenant_id req db
          (finish_register lib ok tenant_id user_id req db (lib.hash salt req.password))
  finish_register-Outcome has_email has_password = hashed (lib.hash salt req.password) refl
    where
      opened :
          (h : String)
          → lib.hash salt req.password ≡ some h
          → (r : Failure ⊎ Db)
          → IsAtomic
              (operator_tenant lib (ok 1) tenant_id req db)
              (operator_user lib tenant_id user_id req h)
              db
              r
          → RegisterOutcome lib salt tenant_id req db (elim r [
            | inl failure ↦ (refuse failure, db)
            | inr after ↦ (
              respond 201 (user_id, normal_email lib req.email),
              wire_referral ok req.agent_code tenant_id after,
            )
          ])
      opened h e (inl failure) is = inr (refl, (λ s. absurd (omega (arith, s, is))), refl)
      opened h e (inr after) o = inl (
        refl,
        record {
          tenant = operator_tenant lib (ok 1) tenant_id req db;
          user = operator_user lib tenant_id user_id req h;
          opened = record {
            rate = o.rate;
            tenants = (wire_referral-SameAccounts ok req.agent_code tenant_id after).0 ∙ o.tenants;
            users = (wire_referral-SameAccounts ok req.agent_code tenant_id after).1 ∙ o.users;
            new_slug = o.new_slug;
            new_email = o.new_email;
          };
          identified = refl;
          linked = refl;
          is_operator = refl;
          tenant_waits = refl;
          named = refl;
          user_waits = refl;
          hashed = e;
          has_email = has_email;
          has_password = has_password;
        },
      )

      hashed :
          (o : Option String)
          → lib.hash salt req.password ≡ o
          → RegisterOutcome lib salt tenant_id req db
              (finish_register lib ok tenant_id user_id req db o)
      hashed none e = inr (refl, (λ s. absurd (omega (arith, s))), refl)
      hashed (some h) e = opened h e _ (open_account-IsAtomic operator_wording ok _ _ _ db)

-- A registration, whichever of its statements fail, is answered 201 and has added one tenant with
-- one user of it, both with the status of a pending review; the user has the normal form of the address and a hash of the
-- password, under a slug and an address that no row had; or it is refused and the database is as it
-- was, so that no tenant is left without a user.
pub register-Outcome :
    (lib : AccountLibrary) (ok : ℕ → Bool) (salt tenant_id user_id : String) (req : RegisterForm)
    (db : Db)
    → RegisterOutcome lib salt tenant_id req db
        (register lib ok salt tenant_id user_id (some req) db)
unfolding register
register-Outcome lib ok salt tenant_id user_id req db =
    let P : Reply Registered × Db → Type 0 = RegisterOutcome lib salt tenant_id req db in
    if-cases P
      (trim_space req.name == ""
        || trim_space req.business_name == ""
        || normal_email lib req.email == ""
        || req.password == "")
      (λ _. inr (refl, (λ e. absurd (omega (arith, e))), refl))
      (λ given.
        if-cases P (ltb (len req.password) 8)
          (λ _. inr (refl, (λ e. absurd (omega (arith, e))), refl))
          (λ _.
            if-cases P (email_taken (ok 0) db (normal_email lib req.email))
              (λ _. inr (refl, (λ e. absurd (omega (arith, e))), refl))
              (λ _.
                finish_register-Outcome lib ok salt tenant_id user_id req db
                  (third_false (trim_space req.name == "") (trim_space req.business_name == "") _ _
                    given)
                  (fourth_false (trim_space req.name == "") (trim_space req.business_name == "")
                    (normal_email lib req.email == "") _ given))))

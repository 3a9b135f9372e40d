-- ===== src/Login/Access.antt =====
-- From a registration over its review to the first sign-in.
use myfipay.Base.{
  ℕ, suc, ◌≡◌, refl, ap, subst, ◌∙◌, inl, inr, String, Option, none, some, Bool, true, false, ◌&&◌,
  if-cases, ◌==◌, string_eq, nat_eq, ==-refl, arith,
}
use myfipay.Sql.{update_where, first}
use myfipay.Http.{Reply, respond}
use myfipay.Cache.{Redis}
use myfipay.Db.{Db, User}
use myfipay.Accounts.{AccountLibrary, RegisterForm, normal_email, register}
use myfipay.Accounts.Atomic.{Created, register-Outcome}
use myfipay.Accounts.Reviews.{approve_kyc}
use myfipay.Login.{LoginRequest, user_of, is_locked, login, status_refusal}

-- The rows after a registration and after its approval.
approve_kyc-user_of :
    (ok : ℕ → Bool) (lib : AccountLibrary) (salt tenant_id : String) (req : RegisterForm)
    (db after : Db) (made : Created lib salt tenant_id req db after)
    → ok 0 ≡ true
    → ok 1 ≡ true
    → user_of (approve_kyc ok made.tenant.id after).1 (normal_email lib req.email)
      ≡ some (record made.user { status = "active" })
unfolding user_of first approve_kyc update_where
approve_kyc-user_of ok lib salt tenant_id req db after made ok0 ok1 = rw ok0 (
    rw ok1 (
      rw made.opened.tenants (
        rw made.opened.users (
          rw (==-refl made.tenant.id) (
            rw made.is_operator (
              rw made.linked (
                rw (==-refl made.tenant.id) (
                  rw made.named (
                    if-cases
                      (λ (r : Reply String × Db).
                        first (λ u. u.email == normal_email lib req.email) r.1.users
                        ≡ some (record made.user {
                          tenant_id = made.tenant.id;
                          email = normal_email lib req.email;
                          status = "active";
                        }))
                      (suc
                          (update_where (λ t. t.id == made.tenant.id && t.kind == "operator")
                            (λ t. record t { status = "active" }) db.tenants).1
                        == 0)
                      (λ e. absurd (ground arith))
                      (λ _. rw (==-refl (normal_email lib req.email)) refl))))))))))

active-unrefused : (status : String) → status ≡ "active" → status_refusal status ≡ none
unfolding status_refusal
active-unrefused status e = rw e refl

module _ (redis : Redis) (lib : AccountLibrary) (sign : User → Option String) where
  -- An active account with its password is let in.
  login-active :
      (ok : ℕ → Bool) (now : ℕ) (ip : String) (req : LoginRequest) (c : redis.Cache) (db : Db)
      (u : User) (token : String)
      → ok 0 ≡ true
      → (normal_email lib req.email == "") ≡ false
      → (req.password == "") ≡ false
      → is_locked redis lib sign now ip (normal_email lib req.email) c ≡ false
      → user_of db (normal_email lib req.email) ≡ some u
      → u.status ≡ "active"
      → lib.matches u.password req.password ≡ true
      → sign u ≡ some token
      → (login redis lib sign ok now ip (some req) (c, db)).0 ≡ respond 200 token
  unfolding login
  login-active ok now ip req c db u token ok0 email password open' row active matches signs =
      rw email (
        rw password (
          rw open'
            (rw ok0 (rw row (rw (active-unrefused u.status active) (rw matches (rw signs refl)))))))

-- The operator who registers and is approved signs in: with the address in any spelling that the
-- handlers normalise to the one of the form, with the password of the form, below the limits and with a
-- token that can be signed, provided that bcrypt accepts what it hashed and that the statements which
-- approve and read the account reach the database.
pub register-approve-login :
    (redis : Redis) (lib : AccountLibrary) (sign : User → Option String) (ok ok' ok'' : ℕ → Bool)
    (salt tenant_id user_id : String) (form : RegisterForm) (db : Db) (now : ℕ) (ip : String)
    (req : LoginRequest) (c : redis.Cache)
    → ((password h : String) → lib.hash salt password ≡ some h → lib.matches h password ≡ true)
    → ((u : User) → (token : String) × (sign u ≡ some token))
    → (register lib ok salt tenant_id user_id (some form) db).0.status ≡ 201
    → ok' 0 ≡ true
    → ok' 1 ≡ true
    → ok'' 0 ≡ true
    → normal_email lib req.email ≡ normal_email lib form.email
    → req.password ≡ form.password
    → is_locked redis lib sign now ip (normal_email lib form.email) c ≡ false
    → (token : String) × ((login redis lib sign ok'' now ip (some req) (
      c,
      (approve_kyc ok' tenant_id (register lib ok salt tenant_id user_id (some form) db).1).1,
    )).0
        ≡ respond 200 token)
register-approve-login redis lib sign ok ok' ok'' salt tenant_id user_id form db now ip req c bcrypt
      signs made ok0 ok1 ok2 email password open' =
    elim (register-Outcome lib ok salt tenant_id user_id form db) [
      | inl (_, created) ↦
          let after = (register lib ok salt tenant_id user_id (some form) db).1 in
          let u : User = record created.user { status = "active" } in
          let (token, e) = signs u in
          (
            token,
            login-active redis lib sign ok'' now ip req c (approve_kyc ok' tenant_id after).1 u
                token ok2 (ap (λ m. m == "") email ∙ created.has_email)
                (ap (λ p. p == "") password ∙ created.has_password)
                (ap (λ m. is_locked redis lib sign now ip m c) email ∙ open')
                (ap (user_of (approve_kyc ok' tenant_id after).1) email
                  ∙ subst
                      (λ id.
                        user_of (approve_kyc ok' id after).1 (normal_email lib form.email) ≡ some u)
                      created.identified
                      (approve_kyc-user_of ok' lib salt tenant_id form db after created ok0 ok1))
                refl
                (ap (lib.matches u.password) password
                  ∙ bcrypt form.password u.password created.hashed)
                e,
          )
      | inr (_, other, _) ↦ absurd (other made)
    ]

-- ===== src/Login.antt =====
-- Signing in (api/internal/handlers/auth.go): the limits on failed attempts, kept in Redis, and the
-- checks on the account. The token of an account is drawn by `sign`, none where signing fails.
pub mod Counters
pub mod Lockout
pub mod Access
mod Tests
use myfipay.Base.{
  ℕ, ◌+◌, ◌*◌, String, List, Option, none, some, Bool, true, false, not, ◌&&◌, ◌||◌, leb,
  if◌then◌else◌, ◌==◌, string_eq, nat_eq,
}
use myfipay.Text.{trim_space}
use myfipay.Sql.{update_where, first}
use myfipay.Http.{Reply, respond, respond_error}
use myfipay.Cache.{CacheKey, login_ip, login_acct, Redis}
use myfipay.Db.{Db, User}
use myfipay.Accounts.{AccountLibrary, Failure, refuse, normal_email}

abbrev pub login_max_per_ip : ℕ
login_max_per_ip = 20

abbrev pub login_max_per_account : ℕ
login_max_per_account = 10

abbrev pub login_window_secs : ℕ
login_window_secs = 15 * 60

pub record LoginRequest : Type 0 where
  pub email : String
  pub password : String

unfoldable pub login_locked : ℕ → ℕ → Bool
login_locked ip_fails acct_fails =
    leb login_max_per_ip ip_fails || leb login_max_per_account acct_fails

-- The switch over the status of an account: the refusal, none for an active one.
unfoldable pub status_refusal : String → Option Failure
status_refusal status =
    if status == "active"
    then none
    else if status == "pending_kyc"
    then some
        (403, "PENDING_KYC", "Your account is pending review. You will be notified once approved.")
    else if status == "rejected"
    then some
        (403, "ACCOUNT_REJECTED", "Your application was not approved. Contact support for details.")
    else some (403, "ACCOUNT_INACTIVE", "account is not active")

abbrev pub bad_credentials : Reply String
bad_credentials = respond_error 401 "INVALID_CREDENTIALS" "invalid email or password"

-- The row of an email.
unfoldable pub user_of : Db → String → Option User
unfolding first
user_of db email = first (λ u. u.email == email) db.users

module _ (redis : Redis) where
  -- INCR, and EXPIRE for a counter that is new.
  abbrev pub count_failure : ℕ → CacheKey → redis.Cache → redis.Cache
  count_failure now key cache =
      let (n, counted) = redis.incr now key cache in
      let limited = redis.expire now key login_window_secs counted in
      if n == 1 then limited else counted

  unfoldable pub login_failed : ℕ → String → String → redis.Cache → redis.Cache
  login_failed now ip email cache =
      count_failure now (login_acct email) (count_failure now (login_ip ip) cache)

  module _ (lib : AccountLibrary) (sign : User → Option String) where
    -- After the password: the account's counter goes, and last_login is set once there is a token.
    abbrev pub signed_in :
        Bool → ℕ → User → Option String → redis.Cache × Db → Reply String × (redis.Cache × Db)
    signed_in reached now u none state =
        (respond_error 500 "TOKEN_ERROR" "could not generate token", state)
    signed_in reached now u (some token) (cache, db) = (
      respond 200 token,
      (
        cache,
        if reached
            then record db {
              users =
                  (update_where (λ x. x.id == u.id) (λ x. record x { last_login = some now })
                    db.users).0;
            }
            else db,
      ),
    )

    abbrev pub check_password :
        Bool
        → ℕ
        → String
        → String
        → String
        → User
        → Bool
        → redis.Cache × Db
        → Reply String × (redis.Cache × Db)
    check_password reached now ip email password u true (cache, db) =
        signed_in reached now u (sign u) (redis.del now (login_acct email) cache, db)
    check_password reached now ip email password u false (cache, db) =
        (bad_credentials, (login_failed now ip email cache, db))

    abbrev pub check_status :
        Bool
        → ℕ
        → String
        → String
        → String
        → User
        → Option Failure
        → redis.Cache × Db
        → Reply String × (redis.Cache × Db)
    check_status reached now ip email password u none state =
        check_password reached now ip email password u (lib.matches u.password password) state
    check_status reached now ip email password u (some failure) state = (refuse failure, state)

    abbrev pub check_user :
        Bool
        → ℕ
        → String
        → String
        → String
        → Option User
        → redis.Cache × Db
        → Reply String × (redis.Cache × Db)
    check_user reached now ip email password none (cache, db) =
        (bad_credentials, (login_failed now ip email cache, db))
    check_user reached now ip email password (some u) state =
        check_status reached now ip email password u (status_refusal u.status) state

    -- Whether the email and the address are below their limits.
    unfoldable pub is_locked : ℕ → String → String → redis.Cache → Bool
    unfolding login_locked
    is_locked now ip email cache =
        login_locked (redis.get_int now (login_ip ip) cache)
          (redis.get_int now (login_acct email) cache)

    unfoldable pub login :
        (ℕ → Bool)
        → ℕ
        → String
        → Option LoginRequest
        → redis.Cache × Db
        → Reply String × (redis.Cache × Db)
    unfolding is_locked user_of status_refusal login_failed
    login ok now ip none state = (respond_error 400 "INVALID_BODY" "invalid request body", state)
    login ok now ip (some req) (cache, db) =
        let email = normal_email lib req.email in
        let row = if ok 0 then user_of db email else none in
        let checked = check_user (ok 1) now ip email req.password row (cache, db) in
        if email == "" || req.password == ""
        then (respond_error 422 "VALIDATION_ERROR" "email and password are required", (cache, db))
        else if is_locked now ip email cache
        then (
          respond_error 429 "TOO_MANY_ATTEMPTS"
              "too many failed login attempts — try again in 15 minutes",
          (cache, db),
        )
        else checked

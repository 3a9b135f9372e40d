-- ===== src/Checkout.antt =====
-- The portal's side of a payment (api/internal/handlers/payment.go): its start, its status, the
-- voucher, and the end of a session.
pub mod Vouchers
mod Tests
use myfipay.Base.{
  coalesce, ℕ, ◌+◌, ◌*◌, ◌/◌, String, List, [], ◌∷◌, Option, none, some, Bool, true, false, not,
  ◌&&◌, ◌||◌, ltb, if◌then◌else◌, ◌==◌, string_eq, nat_eq, code, ◌⊎◌, inl, inr,
}
use Prim.Native.String.{◌++◌ as concat}
use myfipay.Text.{trim_space}
use myfipay.Http.{Reply, respond, respond_error}
use myfipay.Sql.{update_where, exists, first}
use myfipay.Db.{Db, Voucher, Session, Location}
use myfipay.Cache.{CacheKey, payment_pending, session_user, session_mac, ratelimit_pay, Redis}
use myfipay.Sessions.{
  PlanRecord, get_plan_from_db, duration_secs, exec, write_radius, delete_check, delete_reply,
  insert_session, active_session,
}
use myfipay.Webhook.{Library, cache_session}

-- strings.ReplaceAll(mac, "-", ":")
unfoldable pub dashes_to_colons : String → String
dashes_to_colons String.[] = ""
dashes_to_colons (String.◌∷◌ c s) =
    let rest = dashes_to_colons s in if code c == 45 then String.◌∷◌ ":" rest else String.◌∷◌ c rest

pub record PayRequest : Type 0 where
  pub plan_id : String
  pub phone : String
  pub method : String
  pub mac : String
  pub ip : String

pub record VoucherForm : Type 0 where
  pub code' : String
  pub phone : String
  pub mac : String

pub record Redeemed : Type 0 where
  pub session_id : String
  pub plan_name : String
  pub duration_mins : ℕ
  pub expires_at : ℕ

module _ (lib : Library) (to_upper : String → String) (redis : Redis) where
  abbrev normal_mac : String → String
  normal_mac mac = lib.to_lower (dashes_to_colons mac)

  -- The hash of a pending payment, for ten minutes.
  unfoldable pub store_pending : ℕ → String → String → PayRequest → redis.Cache → redis.Cache
  unfolding dashes_to_colons
  store_pending now slug payment_id req cache =
      let key = payment_pending payment_id in
      let idempotency_key =
        concat (concat (concat (concat req.phone "-") req.plan_id) "-") (lib.decimal (now / 300)) in
      let fields =
        ("plan_id", req.plan_id)
        ∷ ("phone", req.phone)
        ∷ ("method", if req.method == "" then "mtn_momo" else req.method)
        ∷ ("status", "pending")
        ∷ ("idempotency_key", idempotency_key)
        ∷ ("location_slug", slug)
        ∷ ("mac", normal_mac req.mac)
        ∷ ("ip", req.ip)
        ∷ [] in
      redis.expire now key 600 (redis.hset now key fields cache)

  -- `gateway` is the call of the collections API: whether it went through.
  unfoldable pub call_or_simulate :
      Bool
      → (String → String → ℕ → Bool)
      → String
      → ℕ
      → String
      → Db
      → PayRequest
      → redis.Cache
      → Reply String × redis.Cache
  unfolding get_plan_from_db
  call_or_simulate reached gateway token now payment_id db req cache =
      let amount = (get_plan_from_db reached db req.plan_id).price_ugx in
      let simulated =
        redis.hset now (payment_pending payment_id)
          (("zengapay_ref", concat "dev-" payment_id) ∷ []) cache in
      if token == ""
      then (respond 202 payment_id, simulated)
      else if gateway payment_id req.phone amount
      then (respond 202 payment_id, cache)
      else (respond_error 502 "PAYMENT_GATEWAY_ERROR" "could not reach payment gateway", cache)

  -- Ten attempts for an address in five minutes.
  unfoldable pub count_attempt : ℕ → String → redis.Cache → Bool × redis.Cache
  count_attempt now client_ip cache =
      let (count, counted) = redis.incr now (ratelimit_pay client_ip) cache in
      let limited = redis.expire now (ratelimit_pay client_ip) 300 counted in
      (ltb 10 count, if count == 1 then limited else counted)

  abbrev start_payment :
      Bool
      → (String → String → ℕ → Bool)
      → String
      → ℕ
      → String
      → String
      → Db
      → Option PayRequest
      → Bool × redis.Cache
      → Reply String × redis.Cache
  start_payment reached gateway token now slug payment_id db form (true, cache) =
      (respond_error 429 "RATE_LIMIT" "too many payment attempts — please wait 5 minutes", cache)
  start_payment reached gateway token now slug payment_id db none (false, cache) =
      (respond_error 400 "INVALID_BODY" "invalid request body", cache)
  start_payment reached gateway token now slug payment_id db (some req) (false, cache) =
      let started =
        call_or_simulate reached gateway token now payment_id db req
          (store_pending now slug payment_id req cache) in
      if req.plan_id == "" || req.phone == ""
      then (respond_error 422 "VALIDATION_ERROR" "plan_id and phone are required", cache)
      else started

  -- The answer carries the payment id.
  unfoldable pub initiate_payment :
      Bool
      → (String → String → ℕ → Bool)
      → String
      → ℕ
      → String
      → String
      → String
      → Option PayRequest
      → redis.Cache × Db
      → Reply String × redis.Cache
  unfolding count_attempt store_pending call_or_simulate
  initiate_payment reached gateway token now client_ip slug payment_id form (cache, db) =
      start_payment reached gateway token now slug payment_id db form
        (count_attempt now client_ip cache)

  unfoldable pub payment_status : ℕ → String → redis.Cache → Reply (String × Option String)
  payment_status now payment_id cache =
      elim (redis.hget now (payment_pending payment_id) "status" cache) [
        | none ↦ respond 200 ("not_found", none)
        | some status ↦ respond 200 (status, some payment_id)
      ]

  -- v.code = $1 AND l.portal_slug = $2
  unfoldable pub is_voucher_at : Db → String → String → Voucher → Bool
  is_voucher_at db code slug v =
      v.code == code && exists (λ l. l.id == v.location_id && l.portal_slug == slug) db.locations

  unfoldable pub mark_used : String → ℕ → String → Db → Db
  mark_used username expires_at voucher_id db = record db {
    vouchers =
        (update_where (λ v. v.id == voucher_id)
          (λ v. record v {
            status = "used";
            used_by_phone = some username;
            expires_at = some expires_at;
          })
          db.vouchers).0;
  }

  -- The checks, up to the first write: an answer, or the voucher.
  unfoldable pub check_voucher :
      Bool → String → Option VoucherForm → Db → Reply Redeemed ⊎ Voucher × VoucherForm
  unfolding is_voucher_at exists first
  check_voucher reached slug none db =
      inl (respond_error 400 "INVALID_BODY" "code and phone are required")
  check_voucher reached slug (some req) db =
      let code = to_upper (trim_space req.code') in
      let row = if reached then first (is_voucher_at db code slug) db.vouchers else none in
      if req.code' == "" || req.phone == ""
      then inl (respond_error 400 "INVALID_BODY" "code and phone are required")
      else elim row [
        | none ↦ inl (respond_error 404 "INVALID_CODE" "voucher code not found")
        | some v ↦
            if not (v.status == "unused")
            then inl (respond_error 409 "ALREADY_USED" "voucher has already been used")
            else inr (v, req)
      ]

  -- The statements on the database.
  unfoldable pub grant_voucher_session :
      (ℕ → Bool) → ℕ → String → String → Voucher → String → String → PlanRecord → Db → Db
  unfolding mark_used update_where insert_session write_radius
  grant_voucher_session ok now slug session_id v username mac pl db =
      let secs = duration_secs pl in
      let db = exec (ok 2) (mark_used username (now + secs) v.id) db in
      let row = active_session session_id (some v.plan_id) username username mac (now + secs) in
      let db = exec (ok 3) (insert_session slug row) db in
      write_radius lib.decimal (λ i. ok (4 + i)) username secs pl db

  abbrev pub use_voucher :
      (ℕ → Bool)
      → ℕ
      → String
      → String
      → redis.Cache × Db
      → Reply Redeemed ⊎ Voucher × VoucherForm
      → Reply Redeemed × redis.Cache × Db
  use_voucher ok now slug session_id (cache, db) (inl answer) = (answer, cache, db)
  use_voucher ok now slug session_id (cache, db) (inr (v, req)) =
      let pl = get_plan_from_db (ok 1) db v.plan_id in
      let mac = normal_mac req.mac in
      let fields =
        ("session_id", session_id)
        ∷ ("plan_id", v.plan_id)
        ∷ ("phone", req.phone)
        ∷ ("mac", mac)
        ∷ ("status", "active")
        ∷ ("started_at", lib.rfc3339 now)
        ∷ ("grant_type", "voucher")
        ∷ [] in
      (
        respond 201 (record {
          session_id = session_id;
          plan_name = pl.name;
          duration_mins = pl.duration_mins;
          expires_at = now + duration_secs pl;
        }),
        cache_session lib redis now (duration_secs pl) session_id req.phone mac fields cache,
        grant_voucher_session ok now slug session_id v req.phone mac pl db,
      )

  unfoldable pub redeem_voucher :
      (ℕ → Bool)
      → ℕ
      → String
      → String
      → Option VoucherForm
      → redis.Cache × Db
      → Reply Redeemed × redis.Cache × Db
  unfolding check_voucher grant_voucher_session cache_session get_plan_from_db dashes_to_colons
  redeem_voucher ok now slug session_id form state =
      use_voucher ok now slug session_id state (check_voucher (ok 0) slug form state.1)

  -- The keys of the session in Redis go after its MAC was read.
  unfoldable pub forget_session : ℕ → String → redis.Cache → redis.Cache
  forget_session now username cache =
      let mac = coalesce (redis.hget now (session_user username) "mac" cache) "" in
      let unlinked = redis.del now (session_mac mac) cache in
      redis.del now (session_user username) (if not (mac == "") then unlinked else cache)

  unfoldable pub mark_expired : ℕ → String → Db → Db
  mark_expired now session_id db = record db {
    sessions =
        (update_where (λ s. s.id == session_id)
          (λ s. record s { status = "expired"; terminated_at = some now }) db.sessions).0;
  }

  unfoldable pub expire_session :
      (ℕ → Bool) → ℕ → String → String → redis.Cache × Db → redis.Cache × Db
  unfolding forget_session mark_expired update_where delete_check delete_reply
  expire_session ok now username session_id (cache, db) =
      let db = exec (ok 0) (mark_expired now session_id) db in
      let db = exec (ok 1) (delete_check username) db in
      (forget_session now username cache, exec (ok 2) (delete_reply username) db)

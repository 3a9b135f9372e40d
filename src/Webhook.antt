-- ===== src/Webhook.antt =====
-- The gateway's webhook and the session that it grants (api/internal/handlers/payment.go). A handler
-- takes Redis, the time in seconds and the uuids drawn for the call. The goroutine that grants the
-- session is a job that the webhook hands over.
pub mod Credits
pub mod Claims
pub mod Once
use myfipay.Base.{
  coalesce, ℕ, ◌+◌, ◌*◌, String, List, [], ◌∷◌, Option, none, some, Bool, true, false, not, ◌&&◌,
  codes, if◌then◌else◌, ◌==◌, string_eq,
}
use myfipay.Base.Int.{ℤ}
use myfipay.Base.Table.{Table, find}
use myfipay.Float64.{Float64}
use Prim.Native.String.{◌++◌ as concat}
use myfipay.Text.{trim_space}
use myfipay.Db.{Db, Payment}
use myfipay.Cache.{CacheKey, payment_pending, session_user, session_mac, webhook_zengapay, Redis}
use myfipay.Money.{Outcome, success, failed, ignored, classify_zengapay_event}
use myfipay.Sessions.{
  PlanRecord, get_plan_from_db, duration_secs, exec, write_radius, plan_ref, insert_session,
  active_session, insert_payment, confirmed_payment, create_agent_commission,
}

pub record ZengapayTxn : Type 0 where
  pub transaction_reference : String
  pub transaction_external_reference : String
  pub transaction_status : String
  pub phone : String

pub record ZengapayWebhookPayload : Type 0 where
  pub event : String
  pub data' : Option ZengapayTxn
  pub flat : ZengapayTxn

-- What the handlers take from Go's library.
pub record Library : Type 0 where
  -- hex.EncodeToString of HMAC-SHA256: the key, then the message
  pub hmac_sha256_hex : String → String → String
  pub hex_decode : String → Option String
  pub to_lower : String → String
  pub decode_webhook : String → Option ZengapayWebhookPayload
  pub decimal : ℕ → String
  pub rfc3339 : ℕ → String
  -- the conversion to an `int` of a float64 that does not fit
  pub unspecified : Float64 → ℤ

pub record WebhookRequest : Type 0 where
  -- `none` where the body cannot be read
  pub body : Option String
  pub x_signature : String
  pub x_webhook_signature : String
  pub x_zengapay_signature : String

-- A payment id and the phone to grant a session to.
abbrev pub Job : Type 0
Job = String × String

abbrev day_secs : ℕ
day_secs = 24 * 3600

module _ (lib : Library) where
  -- The secret as it is, or read as hexadecimal digits.
  unfoldable pub verify_hmac : String → String → String → Bool
  verify_hmac body signature secret =
      let sig_lower = lib.to_lower (trim_space signature) in
      let decoded = lib.hex_decode secret in
      if lib.hmac_sha256_hex secret body == sig_lower
      then true
      else elim decoded [ none ↦ false | some key ↦ lib.hmac_sha256_hex key body == sig_lower ]

  unfoldable pub signature_of : WebhookRequest → String
  signature_of r =
      if not (r.x_signature == "")
      then r.x_signature
      else if not (r.x_webhook_signature == "")
      then r.x_webhook_signature
      else r.x_zengapay_signature

  module _ (redis : Redis) where
    -- SetNX on the payment, then the mark of the pending payment and the job.
    abbrev pub claim_success : ℕ → ZengapayTxn → Bool × redis.Cache → ℕ × redis.Cache × List Job
    claim_success now txn (false, cache) = (200, cache, [])
    claim_success now txn (true, cache) = (
      200,
      redis.hset now (payment_pending txn.transaction_external_reference)
          (("status", "successful") ∷ ("zengapay_ref", txn.transaction_reference) ∷ []) cache,
      (txn.transaction_external_reference, txn.phone) ∷ [],
    )

    abbrev pub extref_key : String → CacheKey
    extref_key payment_id = webhook_zengapay (concat "extref:" payment_id)

    -- The switch over the kinds of events.
    abbrev pub settle : ℕ → ZengapayTxn → Outcome → redis.Cache → ℕ × redis.Cache × List Job
    settle now txn success cache =
        claim_success now txn
          (redis.set_nx now (extref_key txn.transaction_external_reference) day_secs cache)
    settle now txn failed cache = (
      200,
      redis.hset now (payment_pending txn.transaction_external_reference)
          (("status", "failed") ∷ []) cache,
      [],
    )
    settle now txn ignored cache = (200, cache, [])

    -- From the deduplication of the transaction on.
    abbrev pub settle_new :
        ℕ → ZengapayTxn → Outcome → Bool × redis.Cache → ℕ × redis.Cache × List Job
    settle_new now txn outcome (false, cache) = (200, cache, [])
    settle_new now txn outcome (true, cache) =
        let settled = settle now txn outcome cache in
        if txn.transaction_external_reference == "" then (200, cache, []) else settled

    unfoldable pub settle_payload :
        ℕ → ZengapayWebhookPayload → redis.Cache → ℕ × redis.Cache × List Job
    unfolding classify_zengapay_event
    settle_payload now raw cache =
        let txn = coalesce raw.data' raw.flat in
        settle_new now txn
          (classify_zengapay_event (codes txn.transaction_status) (codes raw.event))
          (redis.set_nx now (webhook_zengapay txn.transaction_reference) day_secs cache)

    abbrev pub settle_decoded :
        ℕ → Option ZengapayWebhookPayload → redis.Cache → ℕ × redis.Cache × List Job
    settle_decoded now none cache = (400, cache, [])
    settle_decoded now (some raw) cache = settle_payload now raw cache

    abbrev pub receive :
        String → ℕ → WebhookRequest → Option String → redis.Cache → ℕ × redis.Cache × List Job
    receive secret now r none cache = (400, cache, [])
    receive secret now r (some body) cache =
        if not (secret == "") && not (verify_hmac body (signature_of r) secret)
        then (401, cache, [])
        else settle_decoded now (lib.decode_webhook body) cache

    -- The status code, Redis afterwards, and the jobs that were started.
    unfoldable pub zengapay_webhook :
        String → ℕ → WebhookRequest → redis.Cache → ℕ × redis.Cache × List Job
    unfolding verify_hmac signature_of settle_payload
    zengapay_webhook secret now r cache = receive secret now r r.body cache

    -- What is read of the hash of a pending payment; a field that is missing is empty.
    abbrev pub field : Table String String → String → String
    field vals name = coalesce (find vals name) ""

    -- session:user:, its lifetime, and session:mac: where the MAC is known.
    unfoldable pub cache_session :
        ℕ → ℕ → String → String → String → Table String String → redis.Cache → redis.Cache
    cache_session now secs session_id username mac fields cache =
        let cache = redis.hset now (session_user username) fields cache in
        let cache = redis.expire now (session_user username) secs cache in
        let linked = redis.set now (session_mac mac) session_id secs cache in
        if not (mac == "") then linked else cache

    -- createAgentCommission runs where the payment was written.
    abbrev pub credit_payment : (ℕ → Bool) → String → ℕ → Option Payment × Db → Db
    credit_payment ok slug amount (none, db) = db
    credit_payment ok slug amount (some pm, db) =
        create_agent_commission lib.unspecified ok slug pm.id amount db

    -- The statements on the database, in their order: the session, the RADIUS rows, the payment.
    unfoldable pub grant_paid_session :
        (ℕ → Bool)
        → ℕ
        → String
        → String
        → String
        → String
        → Table String String
        → PlanRecord
        → Db
        → Db
    unfolding insert_session write_radius insert_payment create_agent_commission
    grant_paid_session ok now session_id row_id payment_id phone vals pl db =
        let slug = field vals "location_slug" in
        let plan_id = field vals "plan_id" in
        let secs = duration_secs pl in
        let row = λ (before : Db).
          active_session session_id (plan_ref before plan_id pl.name) phone phone (field vals "mac")
            (now + secs) in
        let db = exec (ok 1) (λ before. insert_session slug (row before) before) db in
        let db = write_radius lib.decimal (λ i. ok (2 + i)) phone secs pl db in
        credit_payment (λ i. ok (11 + i)) slug pl.price_ugx
          (insert_payment (ok 10) slug payment_id
            (confirmed_payment row_id (plan_ref db plan_id pl.name) phone pl.price_ugx
              (field vals "zengapay_ref") payment_id session_id)
            db)

    abbrev pub start_session :
        (ℕ → Bool)
        → ℕ
        → String
        → String
        → String
        → String
        → Table String String
        → redis.Cache × Db
        → redis.Cache × Db
    start_session ok now session_id row_id payment_id phone [] (cache, db) = (cache, db)
    start_session ok now session_id row_id payment_id phone (entry ∷ rest) (cache, db) =
        let vals = entry ∷ rest in
        let pl = get_plan_from_db (ok 0) db (field vals "plan_id") in
        let fields =
          ("session_id", session_id)
          ∷ ("plan_id", field vals "plan_id")
          ∷ ("phone", phone)
          ∷ ("payment_id", payment_id)
          ∷ ("mac", field vals "mac")
          ∷ ("status", "active")
          ∷ ("started_at", lib.rfc3339 now)
          ∷ [] in
        (
          cache_session now (duration_secs pl) session_id phone (field vals "mac") fields cache,
          grant_paid_session ok now session_id row_id payment_id phone vals pl db,
        )

    unfoldable pub create_session_after_payment :
        (ℕ → Bool) → ℕ → String → String → String → String → redis.Cache × Db → redis.Cache × Db
    unfolding cache_session grant_paid_session get_plan_from_db
    create_session_after_payment ok now session_id row_id payment_id phone state =
        start_session ok now session_id row_id payment_id phone
          (redis.hget_all now (payment_pending payment_id) state.0) state

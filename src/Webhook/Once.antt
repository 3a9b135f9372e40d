-- ===== src/Webhook/Once.antt =====
-- One credit for an external reference: the claims that the webhook makes in Redis, over a sequence
-- of webhooks and the jobs that they start.
use myfipay.Base.{
  ℕ, ◌+◌, ◌≤◌, ◌<◌, ◌≡◌, ◌≢◌, refl, ap, ◌∙◌, ◌⊎◌, inl, inr, String, List, [], ◌∷◌, ◌++◌, Bool, true,
  false, not, arith, select, length, length-append, if◌then◌else◌, ◌==◌, string_eq,
}
use myfipay.Db.{Db}
use myfipay.Base.Table.{Table}
use myfipay.Sql.{select-append}
use myfipay.Cache.{payment_pending, webhook_zengapay, session_user, session_mac, Redis, IsRedis}
use myfipay.Webhook.{
  Library, WebhookRequest, Job, day_secs, extref_key, zengapay_webhook, cache_session,
  start_session, create_session_after_payment,
}
use myfipay.Webhook.Claims.{jobs_for, zengapay_webhook-Settled}

-- What reaches the server: a webhook, or the turn of a job, with its uuids and the statements that
-- reach the database.
pub data Event : Type 0 where
  receives : WebhookRequest → Event
  grants : (ℕ → Bool) → String → String → Job → Event

-- The times do not go back, and stay below `end`.
abbrev pub Timed : ℕ → ℕ → List (ℕ × Event) → Type 0
Timed start end [] = Unit
Timed start end ((now, e) ∷ rest) = (start ≤ now) × (now < end) × Timed now end rest

module _ (lib : Library) (redis : Redis) where
  unfoldable pub step : String → ℕ → Event → redis.Cache × Db → List Job × (redis.Cache × Db)
  unfolding zengapay_webhook create_session_after_payment
  step secret now (receives r) (c, db) =
      let out = zengapay_webhook lib redis secret now r c in (out.2, (out.1, db))
  step secret now (grants ok session_id row_id (payment_id, phone)) (c, db) =
      ([], create_session_after_payment lib redis ok now session_id row_id payment_id phone (c, db))

  -- All the jobs that the events start.
  unfoldable pub run : String → List (ℕ × Event) → redis.Cache × Db → List Job
  unfolding step
  run secret [] state = []
  run secret ((now, e) ∷ rest) state =
      let (jobs, after) = step secret now e state in jobs ++ run secret rest after

module _ (lib : Library) (redis : Redis) (laws : IsRedis redis) where
  cache_session-keeps :
      (now secs : ℕ) (session_id username mac : String) (fields : List (String × String))
      (c : redis.Cache) (t : ℕ) (name : String)
      → laws.held c t (webhook_zengapay name) ≡ true
      → laws.held
          (cache_session lib redis now secs session_id username mac fields c)
          t
          (webhook_zengapay name)
        ≡ true
  unfolding cache_session
  cache_session-keeps now secs session_id username mac fields c t name h = linked (mac == "")
    where
      kept :
          laws.held
            (redis.expire now
              (session_user username)
              secs
              (redis.hset now (session_user username) fields c))
            t
            (webhook_zengapay name)
          ≡ true
      kept = laws.expire_keeps _ now secs t _ _ (λ e. cc) (laws.hset_keeps c now t _ _ fields h)

      linked :
          (b : Bool)
          → laws.held
              (if not b
                then redis.set now (session_mac mac) session_id secs (
                    redis.expire now
                      (session_user username)
                      secs
                      (redis.hset now (session_user username) fields c))
                else redis.expire now
                    (session_user username)
                    secs
                    (redis.hset now (session_user username) fields c))
              t
              (webhook_zengapay name)
            ≡ true
      linked true = kept
      linked false = laws.set_keeps _ now secs t _ _ session_id (λ e. cc) kept

  step-keeps :
      (secret : String) (now : ℕ) (e : Event) (state : redis.Cache × Db) (t : ℕ) (name : String)
      → laws.held state.0 t (webhook_zengapay name) ≡ true
      → laws.held (step lib redis secret now e state).1.0 t (webhook_zengapay name) ≡ true
  unfolding step create_session_after_payment
  step-keeps secret now (receives r) (c, db) t name h =
      (zengapay_webhook-Settled lib redis laws secret now r c).keeps t (webhook_zengapay name) h
  step-keeps secret now (grants ok session_id row_id (payment_id, phone)) (c, db) t name h =
      started (redis.hget_all now (payment_pending payment_id) c)
    where
      started :
          (vals : Table String String)
          → laws.held
              (start_session lib redis ok now session_id row_id payment_id phone vals (c, db)).0
              t
              (webhook_zengapay name)
            ≡ true
      started [] = h
      started (entry ∷ rest) = cache_session-keeps now _ session_id phone _ _ c t name h

  jobs_for-append :
      (payment_id : String) (xs ys : List Job)
      → jobs_for payment_id (xs ++ ys) ≡ jobs_for payment_id xs + jobs_for payment_id ys
  unfolding jobs_for
  jobs_for-append payment_id xs ys =
      ap length (select-append (λ j. j.0 == payment_id) xs ys)
      ∙ length-append (select (λ j. j.0 == payment_id) xs) (select (λ j. j.0 == payment_id) ys)

  step-starts :
      (secret payment_id : String) (now : ℕ) (e : Event) (state : redis.Cache × Db)
      → (jobs_for payment_id (step lib redis secret now e state).0 ≡ 0)
        ⊎ ((jobs_for payment_id (step lib redis secret now e state).0 ≡ 1)
            × (laws.held state.0 now (extref_key lib redis payment_id) ≢ true)
            × ((t : ℕ)
                → t < now + day_secs
                → laws.held
                    (step lib redis secret now e state).1.0
                    t
                    (extref_key lib redis payment_id)
                  ≡ true))
  unfolding step jobs_for
  step-starts secret payment_id now (receives r) (c, db) =
      (zengapay_webhook-Settled lib redis laws secret now r c).starts payment_id
  step-starts secret payment_id now (grants ok session_id row_id job) (c, db) = inl refl

  no_jobs : (payment_id : String) → jobs_for payment_id [] ≡ 0
  unfolding jobs_for
  no_jobs payment_id = refl

  run-keeps_none :
      (secret payment_id : String) (start end : ℕ) (events : List (ℕ × Event))
      (state : redis.Cache × Db)
      → Timed start end events
      → ((t : ℕ) → t < end → laws.held state.0 t (extref_key lib redis payment_id) ≡ true)
      → jobs_for payment_id (run lib redis secret events state) ≡ 0
  unfolding run
  run-keeps_none secret payment_id start end [] state timed claimed = no_jobs payment_id
  run-keeps_none secret payment_id start end ((now, e) ∷ rest) state (from, to, timed) claimed =
      let later =
        run-keeps_none secret payment_id now end rest (step lib redis secret now e state).1 timed
          (λ t lt. step-keeps secret now e state t _ (claimed t lt)) in
      elim (step-starts secret payment_id now e state) [
        | inl idle ↦
            jobs_for-append payment_id (step lib redis secret now e state).0 _
            ∙ omega (arith, idle, later)
        | inr (one, free, claim) ↦ absurd (free (claimed now to))
      ]

  -- Over any sequence of webhooks and jobs within a day, with valid or invalid signatures, repeated
  -- or with fresh transaction references, at most one job is started for a payment.
  pub run_starts_once :
      (secret payment_id : String) (start : ℕ) (events : List (ℕ × Event))
      (state : redis.Cache × Db)
      → Timed start (start + day_secs) events
      → jobs_for payment_id (run lib redis secret events state) ≤ 1
  unfolding run
  run_starts_once secret payment_id start events state timed =
      go start events state timed (omega arith)
    where
      end : ℕ
      end = start + day_secs

      go :
          (from : ℕ) (events : List (ℕ × Event)) (state : redis.Cache × Db)
          → Timed from end events
          → start ≤ from
          → jobs_for payment_id (run lib redis secret events state) ≤ 1
      go from [] state timed low = omega (arith, no_jobs payment_id)
      go from ((now, e) ∷ rest) state (least, to, timed) low =
          elim (step-starts secret payment_id now e state) [
            | inl idle ↦
                rw
                  (jobs_for-append payment_id (step lib redis secret now e state).0
                    (run lib redis secret rest (step lib redis secret now e state).1))
                  (omega (
                    arith,
                    idle,
                    go now rest (step lib redis secret now e state).1 timed (omega arith),
                  ))
            | inr (one, free, claim) ↦
                rw
                  (jobs_for-append payment_id (step lib redis secret now e state).0
                    (run lib redis secret rest (step lib redis secret now e state).1))
                  (omega (
                    arith,
                    one,
                    run-keeps_none secret payment_id now end rest
                        (step lib redis secret now e state).1 timed (λ t lt. claim t (omega arith)),
                  ))
          ]

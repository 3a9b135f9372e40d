-- ===== src/Webhook/Claims.antt =====
-- What one webhook does to the claims that it makes in Redis.
use myfipay.Base.{
  coalesce, ℕ, ◌+◌, ◌<◌, ◌≡◌, ◌≢◌, refl, ap, sym, subst, ◌⊎◌, inl, inr, String, List, [], ◌∷◌,
  Option, none, some, Bool, true, false, not, ◌&&◌, select, length, if◌then◌else◌, ◌==◌, string_eq,
  ==→eq, Bool-cases, codes,
}
use myfipay.Cache.{CacheKey, webhook_zengapay, Redis, IsRedis}
use myfipay.Money.{Outcome, success, failed, ignored, classify_zengapay_event}
use myfipay.Sessions.{}
use myfipay.Webhook.{
  Library, ZengapayTxn, ZengapayWebhookPayload, WebhookRequest, Job, day_secs, extref_key,
  claim_success, settle, settle_new, settle_payload, settle_decoded, receive, zengapay_webhook,
  verify_hmac, signature_of,
}

-- How many sessions of a payment the jobs grant.
unfoldable pub jobs_for : String → List Job → ℕ
unfolding select
jobs_for payment_id jobs = length (select (λ j. j.0 == payment_id) jobs)

module _ (lib : Library) (redis : Redis) (laws : IsRedis redis) where
  abbrev pub extref : String → CacheKey
  extref = extref_key lib redis

  -- What a webhook does to the claims: it keeps those that are there, and starts at most one job for
  -- a payment, which was not claimed and is claimed for a day from then on.
  pub record Settled (now : ℕ) (c : redis.Cache) (out : ℕ × redis.Cache × List Job) : Type 0 where
    pub keeps : (t : ℕ) (k : CacheKey) → laws.held c t k ≡ true → laws.held out.1 t k ≡ true
    pub starts :
        (payment_id : String)
        → (jobs_for payment_id out.2 ≡ 0)
          ⊎ ((jobs_for payment_id out.2 ≡ 1)
              × (laws.held c now (extref payment_id) ≢ true)
              × ((t : ℕ) → t < now + day_secs → laws.held out.1 t (extref payment_id) ≡ true))

  no_job :
      (now code : ℕ) (c c' : redis.Cache)
      → ((t : ℕ) (k : CacheKey) → laws.held c t k ≡ true → laws.held c' t k ≡ true)
      → Settled now c (code, c', [])
  unfolding jobs_for
  no_job now code c c' keeps = record { keeps = keeps; starts = λ payment_id. inl refl }

  after :
      (now : ℕ) (c c1 : redis.Cache) (out : ℕ × redis.Cache × List Job)
      → ((t : ℕ) (k : CacheKey) → laws.held c t k ≡ true → laws.held c1 t k ≡ true)
      → Settled now c1 out
      → Settled now c out
  after now c c1 out kept s = record {
    keeps = λ t k h. s.keeps t k (kept t k h);
    starts = λ payment_id. elim (s.starts payment_id) [
      | inl idle ↦ inl idle
      | inr (one, free, claimed) ↦ inr (one, (λ h. free (kept now (extref payment_id) h)), claimed)
    ];
  }

  one_job :
      (payment_id other phone : String)
      → (jobs_for other ((payment_id, phone) ∷ []) ≡ 0)
        ⊎ ((jobs_for other ((payment_id, phone) ∷ []) ≡ 1) × (payment_id ≡ other))
  unfolding jobs_for select
  one_job payment_id other phone = elim (Bool-cases (payment_id == other)) [
    | inl same ↦ inr (
      subst (λ b. length {A = Job} (if b then ((payment_id, phone) ∷ []) else []) ≡ 1) (sym same)
          refl,
      ==→eq payment_id other same,
    )
    | inr differs ↦ inl (
        subst (λ b. length {A = Job} (if b then ((payment_id, phone) ∷ []) else []) ≡ 0)
          (sym differs) refl)
  ]

  refused :
      (now : ℕ) (c : redis.Cache) (payment_id : String)
      → (redis.set_nx now (extref payment_id) day_secs c).0 ≡ true
      → laws.held c now (extref payment_id) ≢ true
  refused now c payment_id ok h =
      absurd (clash (laws.set_nx_refused c now day_secs (extref payment_id) h))
    where
      clash : (redis.set_nx now (extref payment_id) day_secs c).0 ≢ false
      clash no' = cc

  claim_success-Settled :
      (now : ℕ) (txn : ZengapayTxn) (c : redis.Cache) (result : Bool × redis.Cache)
      → redis.set_nx now (extref txn.transaction_external_reference) day_secs c ≡ result
      → Settled now c (claim_success lib redis now txn result)
  claim_success-Settled now txn c (false, c1) e = no_job now 200 c c1 (λ t k h.
      subst (λ r. laws.held r.1 t k ≡ true) e
        (laws.set_nx_keeps c now day_secs t (extref txn.transaction_external_reference) k h))
  claim_success-Settled now txn c (true, c1) e = record {
    keeps = λ t k h. laws.hset_keeps c1 now t _ k _ (
        subst (λ r. laws.held r.1 t k ≡ true) e
          (laws.set_nx_keeps c now day_secs t (extref txn.transaction_external_reference) k h));
    starts = λ other. elim (one_job txn.transaction_external_reference other txn.phone) [
      | inl idle ↦ inl idle
      | inr (one, same) ↦ inr (
        one,
        (λ h.
            refused now c txn.transaction_external_reference (ap (λ r. r.0) e)
              (subst (λ id. laws.held c now (extref id) ≡ true) (sym same) h)),
        (λ t lt. laws.hset_keeps c1 now t _ _ _ (
            subst (λ id. laws.held c1 t (extref id) ≡ true) same
              (subst (λ r. laws.held r.1 t (extref txn.transaction_external_reference) ≡ true) e
                (laws.set_nx_holds c now day_secs t (extref txn.transaction_external_reference)
                  (ap (λ r. r.0) e) lt)))),
      )
    ];
  }

  settle-Settled :
      (now : ℕ) (txn : ZengapayTxn) (outcome : Outcome) (c : redis.Cache)
      → Settled now c (settle lib redis now txn outcome c)
  settle-Settled now txn success c = claim_success-Settled now txn c _ refl
  settle-Settled now txn failed c = no_job now 200 c _ (λ t k h. laws.hset_keeps c now t _ k _ h)
  settle-Settled now txn ignored c = no_job now 200 c c (λ t k h. h)

  settle_new-Settled :
      (now : ℕ) (txn : ZengapayTxn) (outcome : Outcome) (c : redis.Cache)
      (result : Bool × redis.Cache)
      → redis.set_nx now (webhook_zengapay txn.transaction_reference) day_secs c ≡ result
      → Settled now c (settle_new lib redis now txn outcome result)
  settle_new-Settled now txn outcome c result e =
      branch result (λ t k h.
        subst (λ r. laws.held r.1 t k ≡ true) e (laws.set_nx_keeps c now day_secs t _ k h))
    where
      branch :
          (r : Bool × redis.Cache)
          → ((t : ℕ) (k : CacheKey) → laws.held c t k ≡ true → laws.held r.1 t k ≡ true)
          → Settled now c (settle_new lib redis now txn outcome r)
      branch (false, c1) kept = no_job now 200 c c1 kept
      branch (true, c1) kept = named (txn.transaction_external_reference == "")
        where
          named :
              (b : Bool)
              → Settled now c (if b then (200, c1, []) else settle lib redis now txn outcome c1)
          named true = no_job now 200 c c1 kept
          named false = after now c c1 _ kept (settle-Settled now txn outcome c1)

  settle_payload-Settled :
      (now : ℕ) (raw : ZengapayWebhookPayload) (c : redis.Cache)
      → Settled now c (settle_payload lib redis now raw c)
  unfolding settle_payload
  settle_payload-Settled now raw c =
      let txn = coalesce raw.data' raw.flat in
      settle_new-Settled now txn
        (classify_zengapay_event (codes txn.transaction_status) (codes raw.event)) c _ refl

  settle_decoded-Settled :
      (now : ℕ) (raw : Option ZengapayWebhookPayload) (c : redis.Cache)
      → Settled now c (settle_decoded lib redis now raw c)
  settle_decoded-Settled now none c = no_job now 400 c c (λ t k h. h)
  settle_decoded-Settled now (some raw) c = settle_payload-Settled now raw c

  receive-Settled :
      (secret : String) (now : ℕ) (r : WebhookRequest) (body : Option String) (c : redis.Cache)
      → Settled now c (receive lib redis secret now r body c)
  receive-Settled secret now r none c = no_job now 400 c c (λ t k h. h)
  receive-Settled secret now r (some body) c =
      signed (not (secret == "") && not (verify_hmac lib body (signature_of lib r) secret))
    where
      signed :
          (bad : Bool)
          → Settled now c (
              if bad
              then (401, c, [])
              else settle_decoded lib redis now (lib.decode_webhook body) c)
      signed true = no_job now 401 c c (λ t k h. h)
      signed false = settle_decoded-Settled now (lib.decode_webhook body) c

  pub zengapay_webhook-Settled :
      (secret : String) (now : ℕ) (r : WebhookRequest) (c : redis.Cache)
      → Settled now c (zengapay_webhook lib redis secret now r c)
  unfolding zengapay_webhook
  zengapay_webhook-Settled secret now r c = receive-Settled secret now r r.body c

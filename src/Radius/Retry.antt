-- ===== src/Radius/Retry.antt =====
-- The attempts of a Disconnect-Request.
use myfipay.Base.{
  ℕ, zero, suc, ◌+◌, ◌≤◌, ◌<◌, ◌≡◌, refl, ap, sym, subst, ◌∙◌, ◌≢◌, dec_lt, ◌⊎◌, inl, inr, Option,
  none, some, arith, take,
}
use myfipay.Base.{coalesce}
use myfipay.Radius.{
  Bytes, NasSession, Result, ResponseError, uint16, slice, valid_response, response_result,
  try_attempts, build_disconnect, exchange_request, disconnect_detail,
}
use myfipay.Radius.Response.{IsGenuine, valid_response-response_result}

module _ (md5 : Bytes → Bytes) where
  -- The attempt that decided, among those from i on.
  pub record Answered (n i : ℕ) (exchange : ℕ → Option Bytes) (req_auth : Bytes) (id : ℕ)
      (secret : Bytes) (res : Result) : Type 0 where
    pub attempt : ℕ
    pub resp : Bytes
    pub from : i ≤ attempt
    pub to : attempt < i + n
    pub read : exchange attempt ≡ some resp
    pub genuine : IsGenuine md5 resp req_auth id secret
    pub says : res ≡ response_result (take (uint16 (slice 2 4 resp)) resp)

  later :
      (n i : ℕ) (exchange : ℕ → Option Bytes) (req_auth : Bytes) (id : ℕ) (secret : Bytes)
      (res : Result)
      → Answered n (suc i) exchange req_auth id secret res
      → Answered (suc n) i exchange req_auth id secret res
  later n i exchange req_auth id secret res a = record {
    attempt = a.attempt;
    resp = a.resp;
    from = omega (arith, a.from);
    to = omega (arith, a.to);
    read = a.read;
    genuine = a.genuine;
    says = a.says;
  }

  -- No attempt from i on read a genuine response.
  abbrev pub NoneGenuine : ℕ → ℕ → (ℕ → Option Bytes) → Bytes → ℕ → Bytes → Type 0
  NoneGenuine n i exchange req_auth id secret =
      (k : ℕ) (resp : Bytes)
      → i ≤ k
      → k < i + n
      → exchange k ≡ some resp
      → ¬ IsGenuine md5 resp req_auth id secret

  abbrev pub Outcome : ℕ → ℕ → (ℕ → Option Bytes) → Bytes → ℕ → Bytes → Option Result → Type 0
  Outcome n i exchange req_auth id secret result =
      ((res : Result) × (result ≡ some res) × Answered n i exchange req_auth id secret res)
      ⊎ ((result ≡ none) × NoneGenuine n i exchange req_auth id secret)

  module _ (n i : ℕ) (exchange : ℕ → Option Bytes) (req_auth : Bytes) (id : ℕ) (secret : Bytes)
      (rest : Option Result) (outcome : Outcome n (suc i) exchange req_auth id secret rest) where
    skipped :
        ((resp : Bytes) → exchange i ≡ some resp → ¬ IsGenuine md5 resp req_auth id secret)
        → Outcome (suc n) i exchange req_auth id secret rest
    skipped none_here = elim outcome [
      | inl (res, e, a) ↦ inl (res, e, later n i exchange req_auth id secret res a)
      | inr (e, none_later) ↦ inr (
        e,
        λ k resp from to read genuine. elim (dec_lt i k) [
          | Dec.yes above ↦ none_later k resp (omega arith) (omega arith) read genuine
          | Dec.no below ↦ none_here resp (ap exchange (omega arith) ∙ read) genuine
        ],
      )
    ]

    checked :
        (resp : Bytes) (v : ResponseError ⊎ Result)
        → exchange i ≡ some resp
        → valid_response md5 resp req_auth id secret ≡ v
        → Outcome
            (suc n)
            i
            exchange
            req_auth
            id
            secret
            (elim v [ inl error ↦ rest | inr r ↦ some r ])
    checked resp (inl error) e v = skipped (λ other o genuine. absurd (
        refused (valid_response md5 resp req_auth id secret) error v (
          (valid_response-response_result md5 resp req_auth id secret _).1 (
            subst (λ x. IsGenuine md5 x req_auth id secret) (ap (λ x. coalesce x other) (sym o ∙ e))
                genuine,
            refl,
          ))))
      where
        refused :
            {r : Result} (x : ResponseError ⊎ Result) (error : ResponseError)
            → x ≡ inl error
            → x ≢ inr r
        refused x error h k = cc
    checked resp (inr r) e v =
        let ok = (valid_response-response_result md5 resp req_auth id secret r).0 v in
        inl (
          r,
          refl,
          record {
            attempt = i;
            resp = resp;
            from = omega arith;
            to = omega arith;
            read = e;
            genuine = ok.0;
            says = ok.1;
          },
        )

    replied :
        (o : Option Bytes)
        → exchange i ≡ o
        → Outcome (suc n) i exchange req_auth id secret (elim o [
          | none ↦ rest
          | some resp ↦ elim (valid_response md5 resp req_auth id secret) [
            | inl error ↦ rest
            | inr res ↦ some res
          ]
        ])
    replied none e = skipped (λ resp o. absurd (clash resp (sym e ∙ o)))
      where
        clash : (resp : Bytes) → ◌≢◌ {A = Option Bytes} none (some resp)
        clash resp h = cc
    replied (some resp) e = checked resp (valid_response md5 resp req_auth id secret) e refl

  try_attempts_cases :
      (n i : ℕ) (exchange : ℕ → Option Bytes) (req_auth : Bytes) (id : ℕ) (secret : Bytes)
      → Outcome n i exchange req_auth id secret (try_attempts md5 n i exchange req_auth id secret)
  unfolding try_attempts
  try_attempts_cases zero i exchange req_auth id secret =
      inr (refl, λ k resp from to read genuine. omega (arith, from, to))
  try_attempts_cases (suc n) i exchange req_auth id secret =
      replied n i exchange req_auth id secret
        (try_attempts md5 n (suc i) exchange req_auth id secret)
        (try_attempts_cases n (suc i) exchange req_auth id secret) (exchange i) refl

-- When the request can be built, the answer is what one of the two attempts read as a genuine response
-- to it; and there is none exactly when neither attempt read one.
pub disconnect_detail_cases :
    (md5 : Bytes → Bytes) (hmac_md5 : Bytes → Bytes → Bytes) (exchange : Bytes → ℕ → Option Bytes)
    (id : ℕ) (secret : Bytes) (s : NasSession) (pkt : Bytes)
    → build_disconnect md5 hmac_md5 id secret s ≡ some pkt
    → Outcome md5 2 0
        (exchange pkt)
        (slice 4 20 pkt)
        id
        secret
        (disconnect_detail md5 hmac_md5 exchange id secret s)
unfolding disconnect_detail
disconnect_detail_cases md5 hmac_md5 exchange id secret s pkt h =
    subst
      (λ o.
        Outcome md5 2 0 (exchange pkt) (slice 4 20 pkt) id secret
          (exchange_request md5 hmac_md5 exchange id secret o))
      (sym h) (try_attempts_cases md5 2 0 (exchange pkt) (slice 4 20 pkt) id secret)

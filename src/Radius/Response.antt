-- ===== src/Radius/Response.antt =====
-- Which responses are accepted.
use myfipay.Base.{
  refl, ◌∙◌, [], false, ℕ, ◌≤◌, ◌≡◌, ◌↔◌, ◌⊎◌, inl, inr, ◌++◌, Bool, true, not, ◌&&◌, ◌||◌, arith,
  ltb, length, take, drop, codes_beq, codes_beq_iff, if◌then◌else◌, ◌==◌, nat_eq,
}
use myfipay.Radius.Details.{Walk, parse_nak_detail_terminates}
use myfipay.Radius.{
  no_detail, Bytes, Result, ResponseError, short_packet, bad_length, identifier_mismatch,
  unexpected_code, authenticator_invalid, uint16, byte_at, slice, check_response, valid_response,
  response_result,
}

-- What a packet says: an ACK nothing further, a NAK what the walk over its attributes ends with.
pub data Says (pkt : Bytes) (res : Result) : Type 0 where
  ack :
      byte_at 0 pkt ≡ 41
      → res ≡ record { acked = true; error_cause = 0; error_cause_name' = ""; reply_message = [] }
      → Says pkt res
  nak :
      byte_at 0 pkt ≡ 42
      → Walk
          (drop 20 pkt)
          (record { acked = false; error_cause = 0; error_cause_name' = ""; reply_message = [] })
          res
      → Says pkt res

result-Says :
    (pkt : Bytes) (res : Result)
    → (byte_at 0 pkt ≡ 41) ⊎ (byte_at 0 pkt ≡ 42)
    → (res ≡ response_result pkt) ↔ Says pkt res
result-Says pkt res code = (says code, said)
  where
    says : (byte_at 0 pkt ≡ 41) ⊎ (byte_at 0 pkt ≡ 42) → res ≡ response_result pkt → Says pkt res
    says (inl is) made = ack is (made ∙ rw is refl)
    says (inr is) made =
        nak is
          ((parse_nak_detail_terminates (drop 20 pkt) (no_detail false) res).1 (made ∙ rw is refl))

    said : Says pkt res → res ≡ response_result pkt
    said (ack is made) = made ∙ rw is refl
    said (nak is walk) =
        (parse_nak_detail_terminates (drop 20 pkt) (no_detail false) res).0 walk ∙ rw is refl

module _ (md5 : Bytes → Bytes) where
  -- RFC 5176: an ACK or a NAK with the request's identifier, whose length field covers a header and is
  -- covered by what was read, and whose authenticator is the digest under the shared secret.
  pub record IsGenuine (resp req_auth : Bytes) (id : ℕ) (secret : Bytes) : Type 0 where
    pub header : 20 ≤ uint16 (slice 2 4 resp)
    pub whole : uint16 (slice 2 4 resp) ≤ length resp
    pub same_id : byte_at 1 (take (uint16 (slice 2 4 resp)) resp) ≡ id
    pub known_code :
        (byte_at 0 (take (uint16 (slice 2 4 resp)) resp) ≡ 41)
        ⊎ (byte_at 0 (take (uint16 (slice 2 4 resp)) resp) ≡ 42)
    pub digest :
        md5 (
          slice 0 4 (take (uint16 (slice 2 4 resp)) resp)
          ++ req_auth
          ++ drop 20 (take (uint16 (slice 2 4 resp)) resp)
          ++ secret)
        ≡ slice 4 20 (take (uint16 (slice 2 4 resp)) resp)

  check_response_iff :
      (pkt req_auth : Bytes) (id : ℕ) (secret : Bytes) (res : Result)
      → (check_response md5 pkt req_auth id secret ≡ inr res) ↔ (
          (byte_at 1 pkt ≡ id)
          × ((byte_at 0 pkt ≡ 41) ⊎ (byte_at 0 pkt ≡ 42))
          × (md5 (slice 0 4 pkt ++ req_auth ++ drop 20 pkt ++ secret) ≡ slice 4 20 pkt)
          × (res ≡ response_result pkt))
  unfolding check_response
  check_response_iff pkt req_auth id secret res =
      let accepted =
        generic (byte_at 1 pkt) (byte_at 0 pkt) id
          (codes_beq (md5 (slice 0 4 pkt ++ req_auth ++ drop 20 pkt ++ secret)) (slice 4 20 pkt))
          (response_result pkt) res in
      let digest =
        codes_beq_iff (md5 (slice 0 4 pkt ++ req_auth ++ drop 20 pkt ++ secret)) (slice 4 20 pkt) in
      (
        (λ h. let (one, code, same, made) = accepted.0 h in (one, code, digest.0 same, made)),
        (λ h. accepted.1 (h.0, h.1, digest.1 h.2, h.3)),
      )
    where
      generic :
          {R : Type 0} (one code id : ℕ) (same : Bool) (made res : R)
          → (◌≡◌ {A = ResponseError ⊎ R}
              (if not (one == id)
                then inl identifier_mismatch
                else if not (code == 41) && not (code == 42)
                then inl unexpected_code
                else if not same
                then inl authenticator_invalid
                else inr made)
              (inr res))
            ↔ ((one ≡ id) × ((code ≡ 41) ⊎ (code ≡ 42)) × (same ≡ true) × (res ≡ made))
      generic one code id same made res = ((λ h. ground arith), (λ h. ground arith))

  pub valid_response-response_result :
      (resp req_auth : Bytes) (id : ℕ) (secret : Bytes) (res : Result)
      → (valid_response md5 resp req_auth id secret ≡ inr res) ↔ (
          IsGenuine resp req_auth id secret
          × (res ≡ response_result (take (uint16 (slice 2 4 resp)) resp)))
  unfolding valid_response
  valid_response-response_result resp req_auth id secret res =
      let size = uint16 (slice 2 4 resp) in
      let checked = check_response_iff (take size resp) req_auth id secret res in
      let sized =
        generic (length resp) size (check_response md5 (take size resp) req_auth id secret) res in
      (
        (λ h.
            let (header, whole, c) = sized.0 h in
            let (one, code, same, made) = checked.0 c in
            (
              record {
                header = header;
                whole = whole;
                same_id = one;
                known_code = code;
                digest = same;
              },
              made,
            )),
        (λ h.
            sized.1
              (h.0.header, h.0.whole, checked.1 (h.0.same_id, h.0.known_code, h.0.digest, h.1))),
      )
    where
      generic :
          {R : Type 0} (n size : ℕ) (checked : ResponseError ⊎ R) (res : R)
          → (◌≡◌ {A = ResponseError ⊎ R}
              (if ltb n 20
                then inl short_packet
                else if ltb size 20 || ltb n size
                then inl bad_length
                else checked)
              (inr res))
            ↔ ((20 ≤ size) × (size ≤ n) × (checked ≡ inr res))
      generic n size checked res = ((λ h. ground arith), (λ h. ground arith))

  -- A packet is accepted with a result exactly when it is genuine and says this result: on an ACK, code
  -- 41, that it is one and nothing further; on a NAK, code 42, what the walk over the attributes after
  -- the header ends with.
  pub valid_response_iff :
      (resp req_auth : Bytes) (id : ℕ) (secret : Bytes) (res : Result)
      → (valid_response md5 resp req_auth id secret ≡ inr res)
        ↔ (IsGenuine resp req_auth id secret × Says (take (uint16 (slice 2 4 resp)) resp) res)
  valid_response_iff resp req_auth id secret res =
      let pkt = take (uint16 (slice 2 4 resp)) resp in
      let accepted = valid_response-response_result resp req_auth id secret res in
      (
        (λ h.
            let (genuine, made) = accepted.0 h in
            (genuine, (result-Says pkt res genuine.known_code).0 made)),
        (λ h. accepted.1 (h.0, (result-Says pkt res h.0.known_code).1 h.1)),
      )

-- ===== src/Radius.antt =====
-- api/internal/radius/disconnect.go: the client of RFC 5176 that ends a live session on a router. A
-- packet is a list of bytes; MD5, HMAC-MD5 and the exchange with the router are parameters.
pub mod Packet
pub mod Response
pub mod Retry
pub mod Details
pub mod Attributes
pub mod Contents
mod Tests
use myfipay.Base.{
  ℕ, zero, suc, ◌+◌, ◌-◌, ◌*◌, ◌/◌, ◌%◌, ◌⊎◌, inl, inr, String, List, [], ◌∷◌, ◌++◌, Option, none,
  some, Bool, true, false, not, ◌&&◌, ◌||◌, ltb, nat_beq, length, take, drop, replicate, codes_beq,
  if◌then◌else◌, ◌==◌, nat_eq,
}

abbrev pub Bytes : Type 0
Bytes = List ℕ

-- An attribute: its type and its value.
abbrev pub Avp : Type 0
Avp = ℕ × Bytes

-- The framed IP is its four bytes, or none.
pub record NasSession : Type 0 where
  pub username : Bytes
  pub acct_session_id : Bytes
  pub calling_station_id : Bytes
  pub framed_ip : Bytes

abbrev pub attrs_onto : Avp → Option Bytes → Option Bytes
attrs_onto a none = none
attrs_onto a (some out) = some (a.0 ∷ (2 + length a.1) % 256 ∷ a.1 ++ out)

-- Empty values are left out; a value of more than 253 bytes is an error.
unfoldable pub encode_attrs : List Avp → Option Bytes
encode_attrs [] = some []
encode_attrs (a ∷ rest) =
    let out = encode_attrs rest in
    if nat_beq (length a.1) 0 then out else if ltb 253 (length a.1) then none else attrs_onto a out

-- Go's copy: as many bytes as both have.
unfoldable pub copy : Bytes → Bytes → Bytes
copy [] dst = dst
copy (x ∷ xs) [] = []
copy (x ∷ xs) (y ∷ ys) = x ∷ copy xs ys

unfoldable pub copy_at : ℕ → Bytes → Bytes → Bytes
unfolding copy
copy_at offset src dst = take offset dst ++ copy src (drop offset dst)

-- binary.BigEndian
unfoldable pub uint16 : Bytes → ℕ
uint16 (hi ∷ lo ∷ rest) = hi * 256 + lo
uint16 _ = 0

unfoldable pub uint32 : Bytes → ℕ
uint32 (a ∷ b ∷ c ∷ d ∷ rest) = ((a * 256 + b) * 256 + c) * 256 + d
uint32 _ = 0

abbrev pub byte_at : ℕ → Bytes → ℕ
byte_at zero [] = 0
byte_at zero (b ∷ rest) = b
byte_at (suc n) [] = 0
byte_at (suc n) (b ∷ rest) = byte_at n rest

-- bs[from:to]
abbrev pub slice : ℕ → ℕ → Bytes → Bytes
slice from to bs = take (to - from) (drop from bs)

-- The header with zeros for the authenticators, and the attributes.
unfoldable pub plain_packet : ℕ → Bytes → Bytes
plain_packet id attrs =
    let size = 20 + length attrs in
    40 ∷ id ∷ size % 0x1_0000 / 256 ∷ size % 256 ∷ replicate 16 0 ++ attrs

module _ (md5 : Bytes → Bytes) (hmac_md5 : Bytes → Bytes → Bytes) where
  -- Then with the Message-Authenticator, its last 16 bytes, and with the Request Authenticator.
  unfoldable pub seal : ℕ → Bytes → Bytes → Bytes
  unfolding copy_at plain_packet
  seal id secret attrs =
      let plain = plain_packet id attrs in
      let marked = copy_at (4 + length attrs) (hmac_md5 secret plain) plain in
      copy_at 4 (take 16 (md5 (marked ++ secret))) marked

  abbrev pub seal_attrs : ℕ → Bytes → Option Bytes → Option Bytes
  seal_attrs id secret none = none
  seal_attrs id secret (some attrs) = some (seal id secret attrs)

  abbrev pub request_attrs : NasSession → List Avp
  request_attrs s =
      (1, s.username)
      ∷ (8, s.framed_ip)
      ∷ (44, s.acct_session_id)
      ∷ (31, s.calling_station_id)
      ∷ (80, replicate 16 0)
      ∷ []

  unfoldable pub build_disconnect : ℕ → Bytes → NasSession → Option Bytes
  unfolding encode_attrs seal
  build_disconnect id secret s = seal_attrs id secret (encode_attrs (request_attrs s))

-- The names of RFC 5176; no name for any other value.
unfoldable pub error_cause_name : ℕ → String
error_cause_name n =
    if n == 401
    then "Unsupported Attribute"
    else if n == 402
    then "Missing Attribute"
    else if n == 403
    then "NAS Identification Mismatch"
    else if n == 404
    then "Invalid Request"
    else if n == 405
    then "Unsupported Service"
    else if n == 406
    then "Unsupported Extension"
    else if n == 407
    then "Invalid Attribute Value"
    else if n == 501
    then "Administratively Prohibited"
    else if n == 503
    then "Session Context Not Found"
    else if n == 506
    then "Resources Unavailable"
    else ""

pub record Result : Type 0 where
  pub acked : Bool
  pub error_cause : ℕ
  pub error_cause_name' : String
  pub reply_message : Bytes

-- The switch over one attribute.
unfoldable pub note_attr : ℕ → Bytes → Result → Result
unfolding uint32 error_cause_name
note_attr typ val r =
    if typ == 101
    then (if length val == 4
        then record r {
          error_cause = uint32 val;
          error_cause_name' = error_cause_name (uint32 val);
        }
        else r)
    else if typ == 18
    then record r { reply_message = val }
    else r

-- A round takes at least two bytes off, so the number of bytes is fuel enough.
unfoldable pub parse_nak_detail_from : ℕ → Bytes → Result → Result
unfolding note_attr
parse_nak_detail_from (suc fuel) (typ ∷ l ∷ rest) r =
    let attrs = typ ∷ l ∷ rest in
    let next = parse_nak_detail_from fuel (drop l attrs) (note_attr typ (slice 2 l attrs) r) in
    if ltb l 2 || ltb (length attrs) l then r else next
parse_nak_detail_from _ _ r = r

abbrev pub parse_nak_detail : Bytes → Result → Result
parse_nak_detail attrs r = parse_nak_detail_from (length attrs) attrs r

pub data ResponseError : Type 0 where
  short_packet bad_length identifier_mismatch unexpected_code authenticator_invalid : ResponseError

abbrev pub no_detail : Bool → Result
no_detail acked = record {
  acked = acked;
  error_cause = 0;
  error_cause_name' = "";
  reply_message = [];
}

abbrev pub response_result : Bytes → Result
response_result resp =
    let acked = byte_at 0 resp == 41 in
    let detailed = parse_nak_detail (drop 20 resp) (no_detail acked) in
    if not acked then detailed else no_detail acked

module _ (md5 : Bytes → Bytes) where
  -- The checks on a packet that was cut to its length field.
  unfoldable pub check_response : Bytes → Bytes → ℕ → Bytes → ResponseError ⊎ Result
  unfolding parse_nak_detail_from
  check_response resp req_auth id secret =
      if not (byte_at 1 resp == id)
      then inl identifier_mismatch
      else if not (byte_at 0 resp == 41) && not (byte_at 0 resp == 42)
      then inl unexpected_code
      else if not
          (codes_beq (md5 (slice 0 4 resp ++ req_auth ++ drop 20 resp ++ secret)) (slice 4 20 resp))
      then inl authenticator_invalid
      else inr (response_result resp)

  unfoldable pub valid_response : Bytes → Bytes → ℕ → Bytes → ResponseError ⊎ Result
  unfolding uint16 check_response
  valid_response resp req_auth id secret =
      let size = uint16 (slice 2 4 resp) in
      let checked = check_response (take size resp) req_auth id secret in
      if ltb (length resp) 20
      then inl short_packet
      else if ltb size 20 || ltb (length resp) size
      then inl bad_length
      else checked

  -- `exchange i` is what attempt i reads, if both the write and the read succeed.
  unfoldable pub try_attempts : ℕ → ℕ → (ℕ → Option Bytes) → Bytes → ℕ → Bytes → Option Result
  unfolding valid_response
  try_attempts zero i exchange req_auth id secret = none
  try_attempts (suc n) i exchange req_auth id secret =
      let rest = try_attempts n (suc i) exchange req_auth id secret in
      elim (exchange i) [
        | none ↦ rest
        | some resp ↦ elim (valid_response resp req_auth id secret) [
          | inl error ↦ rest
          | inr res ↦ some res
        ]
      ]

module _ (md5 : Bytes → Bytes) (hmac_md5 : Bytes → Bytes → Bytes) where
  -- Two attempts with the request that was built. `none` is an error.
  abbrev pub exchange_request :
      (Bytes → ℕ → Option Bytes) → ℕ → Bytes → Option Bytes → Option Result
  exchange_request exchange id secret none = none
  exchange_request exchange id secret (some pkt) =
      try_attempts md5 2 0 (exchange pkt) (slice 4 20 pkt) id secret

  unfoldable pub disconnect_detail :
      (Bytes → ℕ → Option Bytes) → ℕ → Bytes → NasSession → Option Result
  unfolding build_disconnect try_attempts
  disconnect_detail exchange id secret s =
      exchange_request exchange id secret (build_disconnect md5 hmac_md5 id secret s)

-- ===== src/Radius/Packet.antt =====
-- The length and the header of a Disconnect-Request on the wire.
use myfipay.Base.{
  ℕ, zero, suc, ◌+◌, ◌*◌, ◌/◌, ◌%◌, ◌≤◌, ◌≡◌, refl, ap, sym, subst, ◌∙◌, List, [], ◌∷◌, ◌++◌,
  Option, none, some, arith, ltb, nat_beq, length, take, drop, if◌then◌else◌, length-append,
  length-take, length-drop, nat_eq,
}
use myfipay.Base.{coalesce}
use myfipay.Radius.{
  Bytes, Avp, NasSession, attrs_onto, encode_attrs, copy, copy_at, seal, seal_attrs, request_attrs,
  build_disconnect, plain_packet,
}

length-copy : (src dst : Bytes) → length (copy src dst) ≡ length dst
unfolding copy
length-copy [] dst = refl
length-copy (x ∷ xs) [] = refl
length-copy (x ∷ xs) (y ∷ ys) = ap suc (length-copy xs ys)

pub length-copy_at :
    (offset : ℕ) (src dst : Bytes)
    → offset ≤ length dst
    → length (copy_at offset src dst) ≡ length dst
unfolding copy_at
length-copy_at offset src dst h =
    length-append (take offset dst) (copy src (drop offset dst))
    ∙ omega (
      arith,
      length-take offset dst,
      length-copy src (drop offset dst),
      length-drop offset dst,
      h,
    )

-- An attribute takes at most 255 bytes.
length-encode_attrs :
    (attrs : List Avp) (out : Bytes)
    → encode_attrs attrs ≡ some out
    → length out ≤ 255 * length attrs
unfolding encode_attrs
length-encode_attrs [] out h = ground arith
length-encode_attrs (a ∷ rest) out h =
    onto (encode_attrs rest) (λ r e. length-encode_attrs rest r e) h
  where
    onto :
        (o : Option Bytes)
        → ((r : Bytes) → o ≡ some r → length r ≤ 255 * length rest)
        → (if nat_beq (length a.1) 0
            then o
            else if ltb 253 (length a.1)
            then none
            else attrs_onto a o)
          ≡ some out
        → length out ≤ 255 * suc (length rest)
    onto none ih e = ground arith
    onto (some r) ih e = ground (arith, ih r refl, length-append a.1 r)

pub take-copy_at :
    (n offset : ℕ) (src dst : Bytes)
    → n ≤ offset
    → offset ≤ length dst
    → take n (copy_at offset src dst) ≡ take n dst
unfolding copy_at
take-copy_at n offset src dst low high = kept n offset dst (copy src (drop offset dst)) low high
  where
    kept :
        (n offset : ℕ) (dst rest : Bytes)
        → n ≤ offset
        → offset ≤ length dst
        → take n (take offset dst ++ rest) ≡ take n dst
    kept zero offset dst rest low high = refl
    kept (suc n) zero dst rest low high = absurd (omega (arith, low))
    kept (suc n) (suc offset) [] rest low high = absurd (omega (arith, high))
    kept (suc n) (suc offset) (x ∷ xs) rest low high =
        ap (λ t. x ∷ t) (kept n offset xs rest (omega (arith, low)) (omega (arith, high)))

pub length-plain_packet :
    (id : ℕ) (attrs : Bytes) → length (plain_packet id attrs) ≡ 20 + length attrs
unfolding plain_packet
length-plain_packet id attrs = omega arith

header-plain_packet :
    (id : ℕ) (attrs : Bytes)
    → take 4 (plain_packet id attrs)
      ≡ 40 ∷ id ∷ (20 + length attrs) % 0x1_0000 / 256 ∷ (20 + length attrs) % 256 ∷ []
unfolding plain_packet
header-plain_packet id attrs = refl

high : (n size : ℕ) → size ≡ 20 + n → n ≤ 1275 → (20 + n) % 0x1_0000 / 256 ≡ size / 256
high n size e small = ground arith

module _ (md5 : Bytes → Bytes) (hmac_md5 : Bytes → Bytes → Bytes) where
  seal_header :
      (id : ℕ) (secret attrs : Bytes)
      → (length (seal md5 hmac_md5 id secret attrs) ≡ 20 + length attrs)
        × (take 4 (seal md5 hmac_md5 id secret attrs)
            ≡ 40 ∷ id ∷ (20 + length attrs) % 0x1_0000 / 256 ∷ (20 + length attrs) % 256 ∷ [])
  unfolding seal
  seal_header id secret attrs =
      let plain = plain_packet id attrs in
      let size = length-plain_packet id attrs in
      let mark = hmac_md5 secret plain in
      let marked = copy_at (4 + length attrs) mark plain in
      let marked_size = length-copy_at (4 + length attrs) mark plain (omega (arith, size)) in
      (
        length-copy_at 4 (take 16 (md5 (marked ++ secret))) marked
              (omega (arith, size, marked_size))
            ∙ marked_size
            ∙ size,
        take-copy_at 4 4 (take 16 (md5 (marked ++ secret))) marked (omega arith)
              (omega (arith, size, marked_size))
            ∙ take-copy_at 4 (4 + length attrs) mark plain (omega arith) (omega (arith, size))
            ∙ header-plain_packet id attrs,
      )

  -- A request that is built has a Disconnect-Request's code, the identifier and its own length in its
  -- first four bytes, and is at most 1,295 bytes long.
  pub build_disconnect_header :
      (id : ℕ) (secret : Bytes) (s : NasSession) (pkt : Bytes)
      → build_disconnect md5 hmac_md5 id secret s ≡ some pkt
      → (length pkt ≤ 1295) × (take 4 pkt ≡ 40 ∷ id ∷ length pkt / 256 ∷ length pkt % 256 ∷ [])
  unfolding build_disconnect
  build_disconnect_header id secret s pkt h =
      sealed (encode_attrs (request_attrs md5 hmac_md5 s))
        (λ attrs e. length-encode_attrs (request_attrs md5 hmac_md5 s) attrs e) h
    where
      sealed :
          (o : Option Bytes)
          → ((attrs : Bytes) → o ≡ some attrs → length attrs ≤ 1275)
          → seal_attrs md5 hmac_md5 id secret o ≡ some pkt
          → (length pkt ≤ 1295) × (take 4 pkt ≡ 40 ∷ id ∷ length pkt / 256 ∷ length pkt % 256 ∷ [])
      sealed none small e = cc
      sealed (some attrs) small e =
          let (size, header) = seal_header id secret attrs in
          let same = ap (λ o. coalesce o pkt) e in
          subst
            (λ p. (length p ≤ 1295) × (take 4 p ≡ 40 ∷ id ∷ length p / 256 ∷ length p % 256 ∷ []))
            same
            (
              omega (arith, size, small attrs refl),
              header
                  ∙ ap (λ hi. 40 ∷ id ∷ hi ∷ (20 + length attrs) % 256 ∷ [])
                      (high (length attrs) _ size (small attrs refl))
                  ∙ ap
                      (λ n.
                        40 ∷ id ∷ length (seal md5 hmac_md5 id secret attrs) / 256 ∷ n % 256 ∷ [])
                      (sym size),
            )

-- ===== src/Radius/Contents.antt =====
-- What a Disconnect-Request that is built carries (buildDisconnect), and what signs it.
use mathlib.Core.List.{append-nil}
use myfipay.Base.{
  ℕ, zero, suc, ◌+◌, ◌/◌, ◌%◌, ◌≤◌, ◌≡◌, refl, ap, sym, subst, ◌∙◌, List, [], ◌∷◌, ◌++◌, Option,
  none, some, length, take, drop, replicate, arith, length-append, length-take,
}
use myfipay.Radius.{
  Bytes, Avp, NasSession, encode_attrs, slice, copy, copy_at, plain_packet, seal, seal_attrs,
  request_attrs, build_disconnect,
}
use myfipay.Radius.Packet.{length-plain_packet, length-copy_at, take-copy_at}
use myfipay.Radius.Attributes.{
  Attributes, done, front-Attributes, not_empty, some-inv, Split, encode_attrs-Split,
}

-- What is copied ends before.
drop-copy : (n : ℕ) (src dst : Bytes) → length src ≤ n → drop n (copy src dst) ≡ drop n dst
unfolding copy
drop-copy n [] dst h = refl
drop-copy zero (x ∷ src) dst h = absurd (omega arith)
drop-copy (suc n) (x ∷ src) [] h = refl
drop-copy (suc n) (x ∷ src) (y ∷ dst) h = drop-copy n src dst (omega (arith, h))

drop-copy_at :
    (n offset : ℕ) (src dst : Bytes)
    → offset + length src ≤ n
    → offset ≤ length dst
    → drop n (copy_at offset src dst) ≡ drop n dst
unfolding copy_at
drop-copy_at n zero src dst h low = drop-copy n src dst (omega (arith, h))
drop-copy_at n (suc offset) src [] h low = absurd (omega arith)
drop-copy_at zero (suc offset) src (y ∷ dst) h low = absurd (omega arith)
drop-copy_at (suc n) (suc offset) src (y ∷ dst) h low =
    drop-copy_at n offset src dst (omega (arith, h)) (omega (arith, low))

-- What is copied begins after.
copy_at_after :
    (pre : Bytes) (offset m : ℕ) (src dst : Bytes)
    → offset ≡ length pre + m
    → copy_at offset src (pre ++ dst) ≡ pre ++ copy_at m src dst
unfolding copy_at
copy_at_after [] offset m src dst e =
    ap (λ k. take k dst ++ copy src (drop k dst)) (omega (arith, e))
copy_at_after (x ∷ pre) zero m src dst e = absurd (omega arith)
copy_at_after (x ∷ pre) (suc offset) m src dst e =
    ap (λ t. x ∷ t) (copy_at_after pre offset m src dst (omega (arith, e)))

-- A source as long as the target replaces it.
copy_whole : (src dst : Bytes) → length src ≡ length dst → copy src dst ≡ src
unfolding copy
copy_whole [] [] h = refl
copy_whole [] (y ∷ dst) h = absurd (omega arith)
copy_whole (x ∷ src) [] h = absurd (omega arith)
copy_whole (x ∷ src) (y ∷ dst) h = ap (λ t. x ∷ t) (copy_whole src dst (omega (arith, h)))

-- The fields of a session that name it to the router.
abbrev pub fields : NasSession → List Avp
fields s =
    (1, s.username) ∷ (8, s.framed_ip) ∷ (44, s.acct_session_id) ∷ (31, s.calling_station_id) ∷ []

module _ (md5 : Bytes → Bytes) (hmac_md5 : Bytes → Bytes → Bytes) where
  -- RFC 5176: what is signed, the packet with zeros for both authenticators, and the attributes.
  pub record Carries (secret : Bytes) (s : NasSession) (pkt : Bytes) : Type 0 where
    pub plain : Bytes
    pub same_header : take 4 pkt ≡ take 4 plain
    pub no_authenticator : slice 4 20 plain ≡ replicate 16 0
    pub unmarked : Attributes (drop 20 plain) (not_empty (fields s) ((80, replicate 16 0) ∷ []))
    pub marked : Attributes (drop 20 pkt) (not_empty (fields s) ((80, hmac_md5 secret plain) ∷ []))

  -- A Message-Authenticator alone.
  mark-Attributes : (m : Bytes) → length m ≡ 16 → Attributes (80 ∷ 18 ∷ m) ((80, m) ∷ [])
  mark-Attributes m h =
      subst (λ (b : Bytes). Attributes (80 ∷ b) ((80, m) ∷ []))
        (ap (λ n. (2 + n) % 256 ∷ m ++ []) h ∙ ap (λ x. 18 ∷ x) (append-nil m))
        (front-Attributes 80 m [] (omega (arith, h)) done)

  seal-Carries :
      (id : ℕ) (secret attrs : Bytes) (s : NasSession)
      → ((key text : Bytes) → length (hmac_md5 key text) ≡ 16)
      → Split (fields s) attrs
      → Carries secret s (seal md5 hmac_md5 id secret attrs)
  unfolding seal plain_packet copy_at
  seal-Carries id secret attrs s sixteen split =
      let plain = plain_packet id attrs in
      let mark = hmac_md5 secret plain in
      let marked = copy_at (4 + length attrs) mark plain in
      let digest = take 16 (md5 (marked ++ secret)) in
      let size = length-plain_packet id attrs in
      let marked_size = length-copy_at (4 + length attrs) mark plain (omega (arith, size)) in
      record {
        plain = plain;
        same_header =
            take-copy_at 4 4 digest marked (omega arith) (omega (arith, size, marked_size))
            ∙ take-copy_at 4 (4 + length attrs) mark plain (omega arith) (omega (arith, size));
        no_authenticator = zeros;
        unmarked =
            subst (λ b. Attributes b (not_empty (fields s) ((80, replicate 16 0) ∷ [])))
              (sym (body ∙ split.cut)) (split.reads _ _ (mark-Attributes (replicate 16 0) refl));
        marked =
            subst (λ b. Attributes b (not_empty (fields s) ((80, mark) ∷ [])))
              (sym (
                drop-copy_at 20 4 digest marked
                  (omega (arith, length-take 16 (md5 (marked ++ secret))))
                  (omega (arith, size, marked_size))
                ∙ tail mark (sixteen secret plain)))
              (split.reads _ _ (mark-Attributes mark (sixteen secret plain)));
      }
    where
      header : Bytes
      header =
          40
          ∷ id
          ∷ (20 + length attrs) % 0x1_0000 / 256
          ∷ (20 + length attrs) % 256
          ∷ replicate 16 0

      laid_out : plain_packet id attrs ≡ header ++ attrs
      laid_out = refl

      zeros : slice 4 20 (plain_packet id attrs) ≡ replicate 16 0
      zeros = refl

      body : drop 20 (plain_packet id attrs) ≡ attrs
      body = refl

      -- The mark takes the place of the zeros at the end.
      tail :
          (mark : Bytes)
          → length mark ≡ 16
          → drop 20 (copy_at (4 + length attrs) mark (plain_packet id attrs))
            ≡ split.front ++ (80 ∷ 18 ∷ mark)
      tail mark h =
          ap (λ p. drop 20 (copy_at (4 + length attrs) mark p))
            (laid_out ∙ ap (λ a. header ++ a) split.cut)
          ∙ ap (drop 20) (
              copy_at_after header (4 + length attrs) (length split.front + 2) mark
                (split.front ++ (80 ∷ 18 ∷ replicate 16 0))
                (omega (
                  arith,
                  ap length split.cut,
                  length-append split.front (80 ∷ 18 ∷ replicate 16 0),
                )))
          ∙ copy_at_after split.front (length split.front + 2) 2 mark (80 ∷ 18 ∷ replicate 16 0)
              refl
          ∙ ap (λ x. split.front ++ (80 ∷ 18 ∷ x)) (copy_whole mark (replicate 16 0) h)

  -- The bytes of a request after its header are exactly the User-Name, Framed-IP-Address,
  -- Acct-Session-Id and Calling-Station-Id of the session, those that are not empty, and a
  -- Message-Authenticator: the HMAC-MD5, of sixteen bytes, under the secret, of the packet with the same
  -- first four bytes and attributes and zeros for both authenticators.
  pub build_disconnect-Carries :
      (id : ℕ) (secret : Bytes) (s : NasSession) (pkt : Bytes)
      → ((key text : Bytes) → length (hmac_md5 key text) ≡ 16)
      → build_disconnect md5 hmac_md5 id secret s ≡ some pkt
      → Carries secret s pkt
  unfolding build_disconnect
  build_disconnect-Carries id secret s pkt sixteen h =
      sealed (encode_attrs (request_attrs md5 hmac_md5 s))
        (λ attrs e. encode_attrs-Split (fields s) attrs e) h
    where
      sealed :
          (o : Option Bytes)
          → ((attrs : Bytes) → o ≡ some attrs → Split (fields s) attrs)
          → seal_attrs md5 hmac_md5 id secret o ≡ some pkt
          → Carries secret s pkt
      sealed none split e = cc
      sealed (some attrs) split e =
          subst (λ p. Carries secret s p) (some-inv e)
            (seal-Carries id secret attrs s sixteen (split attrs refl))

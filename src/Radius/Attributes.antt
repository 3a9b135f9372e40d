-- ===== src/Radius/Attributes.antt =====
-- The attributes on the wire (encodeAttrs), read by their length octets alone.
use mathlib.Core.List.{append_assoc}
use myfipay.Base.{
  ℕ, suc, ◌+◌, ◌-◌, ◌%◌, ◌≤◌, ◌≡◌, refl, ap, sym, subst, ◌∙◌, List, [], ◌∷◌, ◌++◌, Option, none,
  some, Bool, true, false, ltb, nat_beq, length, take, drop, replicate, arith, length-append,
  if◌then◌else◌,
}
use myfipay.Radius.{Bytes, Avp, attrs_onto, encode_attrs, byte_at, slice}

-- RFC 2865: the bytes are attributes one after the other, each its type, its length with these two
-- bytes, and its value; nothing is left over.
pub data Attributes : Bytes → List Avp → Type 0 where
  done : Attributes [] []
  attribute :
      {bytes : Bytes} {rest : List Avp}
      → 2 ≤ byte_at 1 bytes
      → byte_at 1 bytes ≤ length bytes
      → Attributes (drop (byte_at 1 bytes) bytes) rest
      → Attributes bytes ((byte_at 0 bytes, slice 2 (byte_at 1 bytes) bytes) ∷ rest)

drop-append : (v out : Bytes) → drop (length v) (v ++ out) ≡ out
drop-append [] out = refl
drop-append (x ∷ v) out = drop-append v out

take-append : (v out : Bytes) → take (length v) (v ++ out) ≡ v
take-append [] out = refl
take-append (x ∷ v) out = ap (λ t. x ∷ t) (take-append v out)

-- One attribute in front.
pub front-Attributes :
    (typ : ℕ) (v out : Bytes) {rest : List Avp}
    → length v ≤ 253
    → Attributes out rest
    → Attributes (typ ∷ (2 + length v) % 256 ∷ v ++ out) ((typ, v) ∷ rest)
front-Attributes typ v out {rest} small more =
    subst (λ l. Attributes (typ ∷ l ∷ v ++ out) ((typ, v) ∷ rest)) (unwrapped (length v) small)
      (subst (λ u. Attributes (typ ∷ suc (suc (length v)) ∷ v ++ out) ((typ, u) ∷ rest))
        (ap (λ n. take n (v ++ out)) (cut (length v)) ∙ take-append v out)
        (attribute {bytes = typ ∷ suc (suc (length v)) ∷ v ++ out} (omega arith)
          (omega (arith, length-append v out))
          (subst (λ w. Attributes w rest) (sym (drop-append v out)) more)))
  where
    unwrapped : (n : ℕ) → n ≤ 253 → suc (suc n) ≡ (2 + n) % 256
    unwrapped n h = omega arith

    cut : (n : ℕ) → suc (suc n) - 2 ≡ n
    cut n = omega arith

-- The attributes that are not empty, before others.
abbrev pub not_empty : List Avp → List Avp → List Avp
not_empty [] rest = rest
not_empty (a ∷ avs) rest =
    let others = not_empty avs rest in if nat_beq (length a.1) 0 then others else a ∷ others

pub some-inv : {x y : Bytes} → some x ≡ some y → x ≡ y
some-inv h = cc

-- The bytes of the attributes before a Message-Authenticator of zeros.
pub record Split (avs : List Avp) (bytes : Bytes) : Type 0 where
  pub front : Bytes
  pub cut : bytes ≡ front ++ (80 ∷ 18 ∷ replicate 16 0)
  pub reads :
      (out : Bytes) (rest : List Avp)
      → Attributes out rest
      → Attributes (front ++ out) (not_empty avs rest)

pub encode_attrs-Split :
    (avs : List Avp) (bytes : Bytes)
    → encode_attrs (avs ++ ((80, replicate 16 0) ∷ [])) ≡ some bytes
    → Split avs bytes
unfolding encode_attrs
encode_attrs-Split [] bytes h = record {
  front = [];
  cut = sym (some-inv h);
  reads = λ out rest a. a;
}
encode_attrs-Split (a ∷ avs) bytes h =
    onto (nat_beq (length a.1) 0) (ltb 253 (length a.1)) (fits (length a.1))
      (encode_attrs (avs ++ ((80, replicate 16 0) ∷ []))) (λ out e. encode_attrs-Split avs out e)
      refl h
  where
    fits : (n : ℕ) → ltb 253 n ≡ false → n ≤ 253
    fits n h = ground arith

    onto :
        (empty long : Bool)
        → (long ≡ false → length a.1 ≤ 253)
        → (o : Option Bytes) → ((out : Bytes) → o ≡ some out → Split avs out)
        → nat_beq (length a.1) 0 ≡ empty
        → (if empty then o else if long then none else attrs_onto a o) ≡ some bytes
        → Split (a ∷ avs) bytes
    onto true long small o ih is e =
        let s = ih bytes e in
        record { front = s.front; cut = s.cut; reads = λ out rest w. rw is (s.reads out rest w) }
    onto false true small o ih is e = cc
    onto false false small none ih is e = cc
    onto false false small (some out) ih is e =
        let s = ih out refl in
        record {
          front = a.0 ∷ (2 + length a.1) % 256 ∷ a.1 ++ s.front;
          cut =
              sym (some-inv e)
              ∙ ap (λ x. a.0 ∷ (2 + length a.1) % 256 ∷ a.1 ++ x) s.cut
              ∙ ap (λ x. a.0 ∷ (2 + length a.1) % 256 ∷ x) (sym (append_assoc a.1 s.front _));
          reads = λ tail rest w. rw is (
              subst (λ x. Attributes (a.0 ∷ (2 + length a.1) % 256 ∷ x) (a ∷ not_empty avs rest))
                (sym (append_assoc a.1 s.front tail))
                (front-Attributes a.0 a.1 (s.front ++ tail) (small refl) (s.reads tail rest w)));
        }

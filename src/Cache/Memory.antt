-- ===== src/Cache/Memory.antt =====
-- A Redis in memory: a function from keys to a hash with the time at which it ends.
use myfipay.Base.{
  ℕ, ◌+◌, ◌≤◌, ◌<◌, ◌≡◌, ◌≢◌, ◌↔◌, String, [], ◌∷◌, ◌++◌, Option, none, some, Bool, true, false,
  ltb, if◌then◌else◌, ◌==◌, string_eq, HasEq, arith, length, ==-refl, ==→eq, ne→==, ap, Bool-cases,
  inl, inr, subst, sym, refl, ◌∙◌,
}
use myfipay.Base.Table.{Table, find}
use myfipay.Cache.{
  CacheKey, payment_pending, session_user, session_mac, webhook_zengapay, ratelimit_pay, login_ip,
  login_acct, Redis, IsCounting, IsRedis,
}

abbrev pub same_key : CacheKey → CacheKey → Bool
same_key (payment_pending a) (payment_pending b) = a == b
same_key (session_user a) (session_user b) = a == b
same_key (session_mac a) (session_mac b) = a == b
same_key (webhook_zengapay a) (webhook_zengapay b) = a == b
same_key (ratelimit_pay a) (ratelimit_pay b) = a == b
same_key (login_ip a) (login_ip b) = a == b
same_key (login_acct a) (login_acct b) = a == b
same_key _ _ = false

same_key_refl : (a : CacheKey) → same_key a a ≡ true
same_key_refl (payment_pending a) = ==-refl a
same_key_refl (session_user a) = ==-refl a
same_key_refl (session_mac a) = ==-refl a
same_key_refl (webhook_zengapay a) = ==-refl a
same_key_refl (ratelimit_pay a) = ==-refl a
same_key_refl (login_ip a) = ==-refl a
same_key_refl (login_acct a) = ==-refl a

same_key→eq : (a b : CacheKey) → same_key a b ≡ true → a ≡ b
same_key→eq (payment_pending a) (payment_pending b) h = ap payment_pending (==→eq a b h)
same_key→eq (session_user a) (session_user b) h = ap session_user (==→eq a b h)
same_key→eq (session_mac a) (session_mac b) h = ap session_mac (==→eq a b h)
same_key→eq (webhook_zengapay a) (webhook_zengapay b) h = ap webhook_zengapay (==→eq a b h)
same_key→eq (ratelimit_pay a) (ratelimit_pay b) h = ap ratelimit_pay (==→eq a b h)
same_key→eq (login_ip a) (login_ip b) h = ap login_ip (==→eq a b h)
same_key→eq (login_acct a) (login_acct b) h = ap login_acct (==→eq a b h)
same_key→eq _ _ h = cc

pub same_key_iff : (a b : CacheKey) → (same_key a b ≡ true) ↔ (a ≡ b)
same_key_iff a b = (same_key→eq a b, λ e. subst (λ x. same_key a x ≡ true) e (same_key_refl a))

instance abbrev pub key_eq : HasEq CacheKey
key_eq = record { equals = same_key; equals_iff = same_key_iff }

-- `ends` is `none` for a key without a lifetime.
pub record Entry : Type 0 where
  pub fields : Table String String
  pub ends : Option ℕ

abbrev pub Store : Type 0
Store = CacheKey → Option Entry

abbrev pub alive : ℕ → Option Entry → Bool
alive now none = false
alive now (some e) = elim e.ends [ none ↦ true | some end ↦ ltb now end ]

abbrev pub write : Store → CacheKey → Option Entry → Store
write c k e = λ j. if j == k then e else c j

abbrev pub fields_of : ℕ → Option Entry → Table String String
fields_of now none = []
fields_of now (some e) = if alive now (some e) then e.fields else []

abbrev pub ends_of : ℕ → Option Entry → Option ℕ
ends_of now none = none
ends_of now (some e) = if alive now (some e) then e.ends else none

abbrev pub lasting : ℕ → ℕ → Option Entry → Option Entry
lasting now ttl none = none
lasting now ttl (some e) =
    if alive now (some e) then some (record e { ends = some (now + ttl) }) else none

abbrev pub marked : ℕ → Option Entry
marked end = some (record { fields = ("", "1") ∷ []; ends = some end })

abbrev pub claim : Bool → Store → ℕ → ℕ → CacheKey → Bool × Store
claim true c now ttl k = (false, c)
claim false c now ttl k = (true, write c k (marked (now + ttl)))

abbrev pub memory : Redis
memory = record {
  Cache = Store;
  set_nx = λ now k ttl c. claim (alive now (c k)) c now ttl k;
  set =
      λ now k v ttl c. write c k (some (record { fields = ("", v) ∷ []; ends = some (now + ttl) }));
  hset = λ now k fields c.
      write c k
        (some (record { fields = fields ++ fields_of now (c k); ends = ends_of now (c k) }));
  hget = λ now k name c. find (fields_of now (c k)) name;
  hget_all = λ now k c. fields_of now (c k);
  expire = λ now k ttl c. write c k (lasting now ttl (c k));
  del = λ now k c. write c k none;
  incr = λ now k c. (
    length (fields_of now (c k)) + 1,
    write c k
        (some (record { fields = ("", "+") ∷ fields_of now (c k); ends = ends_of now (c k) })),
  );
  get = λ now k c. find (fields_of now (c k)) "";
  get_int = λ now k c. length (fields_of now (c k));
}

still_alive :
    (now t : ℕ) (e : Option Entry) (fields : Table String String)
    → alive t e ≡ true
    → alive t (some (record { fields = fields; ends = ends_of now e })) ≡ true
still_alive now t none fields h = cc
still_alive now t (some e) fields h = ground arith

written :
    (c : Store) (k j : CacheKey) (t : ℕ) (e : Option Entry)
    → alive t (c j) ≡ true
    → (alive t (c k) ≡ true → alive t e ≡ true)
    → alive t (write c k e j) ≡ true
written c k j t e h g = elim (Bool-cases (j == k)) [
  | inl same ↦
      subst (λ b. alive t (if b then e else c j) ≡ true) (sym same)
        (g (subst (λ x. alive t (c x) ≡ true) (same_key→eq j k same) h))
  | inr other ↦ subst (λ b. alive t (if b then e else c j) ≡ true) (sym other) h
]

other_key : (c : Store) (k j : CacheKey) (e : Option Entry) → j ≢ k → write c k e j ≡ c j
other_key c k j e ne = ap (λ b. if b then e else c j) (ne→== j k ne)

longer :
    (now ttl t : ℕ) (e : Option Entry)
    → alive now e ≡ false
    → alive t e ≡ true
    → alive t (marked (now + ttl)) ≡ true
longer now ttl t none before h = cc
longer now ttl t (some e) before h = ground arith

own_key : (c : Store) (k : CacheKey) (e : Option Entry) → write c k e k ≡ e
own_key c k e = ap (λ b. if b then e else c k) (same_key_refl k)

claim_refused :
    (c : Store) (now ttl : ℕ) (k : CacheKey)
    → alive now (c k) ≡ true
    → (claim (alive now (c k)) c now ttl k).0 ≢ true
claim_refused c now ttl k h = ground arith

abbrev held : Store → ℕ → CacheKey → Bool
held c t k = alive t (c k)

pub memory-IsRedis : IsRedis memory
memory-IsRedis = record {
  held = held;
  set_nx_refused = λ c now ttl k h. ground arith;
  set_nx_holds = λ c now ttl t k ok h. elim (Bool-cases (alive now (c k))) [
    | inl is ↦ absurd (claim_refused c now ttl k is ok)
    | inr free ↦
        subst (λ b. held (claim b c now ttl k).1 t k ≡ true) (sym free)
          (rw (own_key c k (marked (now + ttl))) (ground arith))
  ];
  set_nx_keeps = λ c now ttl t k j h. elim (Bool-cases (alive now (c k))) [
    | inl is ↦ subst (λ b. held (claim b c now ttl k).1 t j ≡ true) (sym is) h
    | inr free ↦
        subst (λ b. held (claim b c now ttl k).1 t j ≡ true) (sym free)
          (written c k j t (marked (now + ttl)) h (longer now ttl t (c k) free))
  ];
  set_keeps = λ c now ttl t k j v ne h.
      rw (other_key c k j (some (record { fields = ("", v) ∷ []; ends = some (now + ttl) })) ne) h;
  hset_keeps = λ c now t k j fields h.
      written c k j t
        (some (record { fields = fields ++ fields_of now (c k); ends = ends_of now (c k) })) h
        (still_alive now t (c k) (fields ++ fields_of now (c k)));
  expire_keeps = λ c now ttl t k j ne h. rw (other_key c k j (lasting now ttl (c k)) ne) h;
  del_keeps = λ c now t k j ne h. rw (other_key c k j none ne) h;
  incr_keeps = λ c now t k j h.
      written c k j t
        (some (record { fields = ("", "+") ∷ fields_of now (c k); ends = ends_of now (c k) })) h
        (still_alive now t (c k) (("", "+") ∷ fields_of now (c k)));
}

abbrev counted : ℕ → Option Entry → Option Entry
counted now e = some (record { fields = ("", "+") ∷ fields_of now e; ends = ends_of now e })

counted_lasts :
    (now end n t : ℕ) (e : Option Entry)
    → now < end
    → 0 < n
    → n ≤ length (fields_of now e)
    → n ≤ length (fields_of t e)
    → n + 1 ≤ length (fields_of t (counted now e))
counted_lasts now end n t none lt pos here there = absurd (omega (arith, pos, here))
counted_lasts now end n t (some e) lt pos here there = elim (Bool-cases (alive now (some e))) [
  | inl live ↦ ground arith
  | inr dead ↦ absurd (ground arith)
]

lasting_counts :
    (now ttl t : ℕ) (e : Option Entry)
    → length (fields_of now e) ≡ 0
    → t < now + ttl
    → 1 ≤ length (fields_of t (lasting now ttl (counted now e)))
lasting_counts now ttl t none h lt = ground arith
lasting_counts now ttl t (some e) h lt = ground arith

fields_fall :
    (now t : ℕ) (e : Option Entry) → now ≤ t → length (fields_of t e) ≤ length (fields_of now e)
fields_fall now t none h = omega arith
fields_fall now t (some e) h = ground arith

pub memory-IsCounting : IsCounting memory
memory-IsCounting = record {
  incr_counts = λ c now k. refl;
  get_int_falls = λ c now t k h. fields_fall now t (c k) h;
  incr_lasts = λ c now end n k lt pos low t before.
      subst (λ e. n + 1 ≤ length (fields_of t e)) (sym (own_key c k (counted now (c k))))
        (counted_lasts now end n t (c k) lt pos (low now lt) (low t before));
  expire_lasts = λ c now ttl t k empty lt.
      subst (λ e. 1 ≤ length (fields_of t e))
        (sym (
          own_key (write c k (counted now (c k))) k _
          ∙ ap (lasting now ttl) (own_key c k (counted now (c k)))))
        (lasting_counts now ttl t (c k) empty lt);
  incr_other = λ c now t k j ne. ap (λ e. length (fields_of t e)) (other_key c k j _ ne);
  expire_other = λ c now ttl t k j ne. ap (λ e. length (fields_of t e)) (other_key c k j _ ne);
  del_other = λ c now t k j ne. ap (λ e. length (fields_of t e)) (other_key c k j none ne);
}

-- ===== src/Cache.antt =====
-- Redis as an interface: the commands that the handlers send, with the time of the call, and the
-- documented behaviour that the proofs rely on.
pub mod Memory
use myfipay.Base.{ℕ, ◌+◌, ◌≤◌, ◌<◌, ◌≡◌, ◌≢◌, String, List, Option, Bool, true, false}
use myfipay.Base.Table.{Table}

-- A key is one of the program's prefixes with what follows it: payment:pending:, session:user:,
-- session:mac:, webhook:zengapay:, ratelimit:pay:, ratelimit:login:ip:, ratelimit:login:acct:. No
-- prefix begins with another one.
pub data CacheKey : Type 0 where
  payment_pending session_user session_mac webhook_zengapay ratelimit_pay login_ip login_acct :
      String → CacheKey

-- A command that does not reach the server answers like the client on an error: false, nothing or 0.
pub record Redis : Type 1 where
  pub Cache : Type 0
  -- SETNX with a lifetime: whether the key was set.
  pub set_nx : ℕ → CacheKey → ℕ → Cache → Bool × Cache
  -- SET with a lifetime.
  pub set : ℕ → CacheKey → String → ℕ → Cache → Cache
  pub hset : ℕ → CacheKey → Table String String → Cache → Cache
  pub hget : ℕ → CacheKey → String → Cache → Option String
  pub hget_all : ℕ → CacheKey → Cache → Table String String
  pub expire : ℕ → CacheKey → ℕ → Cache → Cache
  pub del : ℕ → CacheKey → Cache → Cache
  pub incr : ℕ → CacheKey → Cache → ℕ × Cache
  pub get : ℕ → CacheKey → Cache → Option String
  -- GET of a counter; 0 where there is none.
  pub get_int : ℕ → CacheKey → Cache → ℕ

-- A key that is held is present until its lifetime ends; other commands leave it.
pub record IsRedis (r : Redis) : Type 0 where
  pub held : r.Cache → ℕ → CacheKey → Bool
  pub set_nx_refused :
      (c : r.Cache) (now ttl : ℕ) (k : CacheKey)
      → held c now k ≡ true
      → (r.set_nx now k ttl c).0 ≡ false
  pub set_nx_holds :
      (c : r.Cache) (now ttl t : ℕ) (k : CacheKey)
      → (r.set_nx now k ttl c).0 ≡ true
      → t < now + ttl
      → held (r.set_nx now k ttl c).1 t k ≡ true
  pub set_nx_keeps :
      (c : r.Cache) (now ttl t : ℕ) (k j : CacheKey)
      → held c t j ≡ true
      → held (r.set_nx now k ttl c).1 t j ≡ true
  pub set_keeps :
      (c : r.Cache) (now ttl t : ℕ) (k j : CacheKey) (v : String)
      → j ≢ k
      → held c t j ≡ true
      → held (r.set now k v ttl c) t j ≡ true
  pub hset_keeps :
      (c : r.Cache) (now t : ℕ) (k j : CacheKey) (fields : Table String String)
      → held c t j ≡ true
      → held (r.hset now k fields c) t j ≡ true
  pub expire_keeps :
      (c : r.Cache) (now ttl t : ℕ) (k j : CacheKey)
      → j ≢ k
      → held c t j ≡ true
      → held (r.expire now k ttl c) t j ≡ true
  pub del_keeps :
      (c : r.Cache) (now t : ℕ) (k j : CacheKey)
      → j ≢ k
      → held c t j ≡ true
      → held (r.del now k c) t j ≡ true
  pub incr_keeps :
      (c : r.Cache) (now t : ℕ) (k j : CacheKey)
      → held c t j ≡ true
      → held (r.incr now k c).1 t j ≡ true

-- Counters: INCR counts one up from what GET answers, a key keeps its lifetime under INCR, and a new
-- one lives for as long as EXPIRE says. `Lasts` says that a counter is at least n at all times before
-- the end; a counter that is not there does not come back by itself.
pub record IsCounting (r : Redis) : Type 0 where
  pub incr_counts :
      (c : r.Cache) (now : ℕ) (k : CacheKey) → (r.incr now k c).0 ≡ r.get_int now k c + 1
  pub get_int_falls :
      (c : r.Cache) (now t : ℕ) (k : CacheKey) → now ≤ t → r.get_int t k c ≤ r.get_int now k c
  pub incr_lasts :
      (c : r.Cache) (now end n : ℕ) (k : CacheKey)
      → now < end
      → 0 < n
      → ((t : ℕ) → t < end → n ≤ r.get_int t k c)
      → (t : ℕ) → t < end
      → n + 1 ≤ r.get_int t k (r.incr now k c).1
  pub expire_lasts :
      (c : r.Cache) (now ttl t : ℕ) (k : CacheKey)
      → r.get_int now k c ≡ 0
      → t < now + ttl
      → 1 ≤ r.get_int t k (r.expire now k ttl (r.incr now k c).1)
  pub incr_other :
      (c : r.Cache) (now t : ℕ) (k j : CacheKey)
      → j ≢ k
      → r.get_int t j (r.incr now k c).1 ≡ r.get_int t j c
  pub expire_other :
      (c : r.Cache) (now ttl t : ℕ) (k j : CacheKey)
      → j ≢ k
      → r.get_int t j (r.expire now k ttl c) ≡ r.get_int t j c
  pub del_other :
      (c : r.Cache) (now t : ℕ) (k j : CacheKey)
      → j ≢ k
      → r.get_int t j (r.del now k c) ≡ r.get_int t j c

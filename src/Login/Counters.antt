-- ===== src/Login/Counters.antt =====
-- The counters of failed attempts within a window.
use myfipay.Base.{
  ℕ, zero, suc, ◌+◌, ◌≤◌, ◌<◌, ◌≡◌, ◌≢◌, refl, sym, subst, ◌∙◌, String, arith, ◌==◌, string_eq,
  nat_eq, if-cases,
}
use myfipay.Cache.{CacheKey, login_ip, login_acct, Redis, IsCounting}
use myfipay.Login.{login_window_secs, count_failure, login_failed}

module _ (redis : Redis) (law : IsCounting redis) where
  -- A counter of this window: at least n, and 0 where n is.
  abbrev pub Track : ℕ → ℕ → CacheKey → ℕ → redis.Cache → Type 0
  Track start end k n c =
      (n ≡ 0 → (t : ℕ) → start ≤ t → redis.get_int t k c ≡ 0)
      × ((t : ℕ) → t < end → n ≤ redis.get_int t k c)

  count_failure-other :
      (now t : ℕ) (k j : CacheKey) (c : redis.Cache)
      → j ≢ k
      → redis.get_int t j (count_failure redis now k c) ≡ redis.get_int t j c
  count_failure-other now t k j c ne =
      if-cases (λ c'. redis.get_int t j c' ≡ redis.get_int t j c) ((redis.incr now k c).0 == 1)
        (λ _.
          law.expire_other (redis.incr now k c).1 now login_window_secs t k j ne
          ∙ law.incr_other c now t k j ne)
        (λ _. law.incr_other c now t k j ne)

  pub Track-ap :
      (start end n : ℕ) (k : CacheKey) (c c' : redis.Cache)
      → ((t : ℕ) → redis.get_int t k c' ≡ redis.get_int t k c)
      → Track start end k n c
      → Track start end k n c'
  Track-ap start end n k c c' same (none', low) =
      (λ zero t h. same t ∙ none' zero t h, λ t h. subst (λ x. n ≤ x) (sym (same t)) (low t h))

  pub count_failure-Track :
      (now start n : ℕ) (k : CacheKey) (c : redis.Cache)
      → start ≤ now
      → now < start + login_window_secs
      → Track start (start + login_window_secs) k n c
      → Track start (start + login_window_secs) k (suc n) (count_failure redis now k c)
  count_failure-Track now start zero k c after before (none', low) = (
    λ e. absurd (omega (arith, e)),
    λ t h.
        if-cases (λ c'. 1 ≤ redis.get_int t k c') ((redis.incr now k c).0 == 1)
          (λ _.
            law.expire_lasts c now login_window_secs t k (none' refl now after)
              (omega (arith, after, h)))
          (λ other. absurd (ground (arith, law.incr_counts c now k, none' refl now after, other))),
  )
  count_failure-Track now start (suc n) k c after before (none', low) = (
    λ e. absurd (omega (arith, e)),
    λ t h.
        if-cases (λ c'. suc (suc n) ≤ redis.get_int t k c') ((redis.incr now k c).0 == 1)
          (λ first. absurd (ground (arith, law.incr_counts c now k, low now before, first)))
          (λ _.
            subst (λ x. x ≤ redis.get_int t k (redis.incr now k c).1) (omega arith)
              (law.incr_lasts c now (start + login_window_secs) (suc n) k before (omega arith) low t
                h)),
  )

  pub login_failed-Track :
      (now start n : ℕ) (ip email : String) (c : redis.Cache)
      → start ≤ now
      → now < start + login_window_secs
      → Track start (start + login_window_secs) (login_ip ip) n c
      → Track start
          (start + login_window_secs)
          (login_ip ip)
          (suc n)
          (login_failed redis now ip email c)
  unfolding login_failed
  login_failed-Track now start n ip email c after before h =
      Track-ap start (start + login_window_secs) (suc n) (login_ip ip)
        (count_failure redis now (login_ip ip) c) (login_failed redis now ip email c)
        (λ t.
          count_failure-other now t (login_acct email) (login_ip ip)
            (count_failure redis now (login_ip ip) c) (λ e. cc))
        (count_failure-Track now start n (login_ip ip) c after before h)

  pub login_failed-other :
      (now t : ℕ) (ip email other : String) (c : redis.Cache)
      → other ≢ ip
      → redis.get_int t (login_ip other) (login_failed redis now ip email c)
        ≡ redis.get_int t (login_ip other) c
  unfolding login_failed
  login_failed-other now t ip email other c ne =
      count_failure-other now t (login_acct email) (login_ip other)
        (count_failure redis now (login_ip ip) c) (λ e. cc)
      ∙ count_failure-other now t (login_ip ip) (login_ip other) c (λ e. ne cc)

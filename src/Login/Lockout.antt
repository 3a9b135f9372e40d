-- ===== src/Login/Lockout.antt =====
-- The limit on guesses from one address.
use myfipay.Base.{
  ℕ, suc, ◌+◌, ◌≤◌, ◌<◌, ◌≡◌, ◌≢◌, refl, ap, sym, subst, ◌∙◌, ◌⊎◌, inl, inr, String, List, [], ◌∷◌,
  Option, none, some, Bool, true, false, ◌&&◌, ◌||◌, arith, if◌then◌else◌, ◌==◌, string_eq, nat_eq,
  ==→eq, if-cases, Bool-cases, ==-refl,
}
use myfipay.Http.{Reply}
use myfipay.Cache.{login_ip, login_acct, Redis, IsCounting}
use myfipay.Db.{Db, User}
use myfipay.Accounts.{AccountLibrary, Failure, normal_email}
use myfipay.Login.{
  LoginRequest, login_window_secs, login_max_per_ip, login_locked, login_failed, status_refusal,
  user_of, check_user, check_status, check_password, signed_in, is_locked, login,
}
use myfipay.Login.Counters.{Track, Track-ap, login_failed-Track, login_failed-other}

-- An attempt: which of its statements reach the database, the time, the address and the form.
abbrev pub Attempt : Type 0
Attempt = (ℕ → Bool) × ℕ × String × Option LoginRequest

-- The attempts are made from the start on and before the end.
abbrev pub Timed : ℕ → ℕ → List Attempt → Type 0
Timed start end [] = Unit
Timed start end ((ok, now, ip, form) ∷ rest) = (start ≤ now) × (now < end) × Timed start end rest

module _ (redis : Redis) (lib : AccountLibrary) (sign : User → Option String) where
  -- How many attempts from an address are answered 401.
  unfoldable pub guesses : String → List Attempt → redis.Cache × Db → ℕ
  unfolding login
  guesses from [] state = 0
  guesses from ((ok, now, ip, form) ∷ rest) state =
      let (reply, after) = login redis lib sign ok now ip form state in
      (if ip == from && reply.status == 401 then 1 else 0) + guesses from rest after

  -- What an attempt does to the counters: it counts a failure and is answered 401, or it does neither.
  abbrev Outcome : ℕ → String → redis.Cache → Reply String × (redis.Cache × Db) → Type 0
  Outcome now ip c (reply, (c', db)) =
      ((reply.status == 401) ≡ true)
        × ((email : String) × (is_locked redis lib sign now ip email c ≡ false)
            × (c' ≡ login_failed redis now ip email c))
      ⊎ ((reply.status == 401) ≡ false)
        × ((c' ≡ c) ⊎ ((email : String) × (c' ≡ redis.del now (login_acct email) c)))

  refusal-IsForbidden : (s : String) (f : Failure) → status_refusal s ≡ some f → f.0 ≡ 403
  unfolding status_refusal
  refusal-IsForbidden s f h = ground arith

  check_user-Outcome :
      (reached : Bool) (now : ℕ) (ip email password : String) (row : Option User) (c : redis.Cache)
      (db : Db)
      → is_locked redis lib sign now ip email c ≡ false
      → Outcome now ip c (check_user redis lib sign reached now ip email password row (c, db))
  check_user-Outcome reached now ip email password none c db open' =
      inl (refl, (email, open', refl))
  check_user-Outcome reached now ip email password (some u) c db open' =
      status (status_refusal u.status) refl
    where
      token :
          (t : Option String)
          → Outcome now ip c
              (signed_in redis lib sign reached now u t (redis.del now (login_acct email) c, db))
      token none = inr (refl, inr (email, refl))
      token (some t) = inr (refl, inr (email, refl))

      matched :
          (m : Bool)
          → Outcome now ip c
              (check_password redis lib sign reached now ip email password u m (c, db))
      matched true = token (sign u)
      matched false = inl (refl, (email, open', refl))

      status :
          (s : Option Failure)
          → status_refusal u.status ≡ s
          → Outcome now ip c (check_status redis lib sign reached now ip email password u s (c, db))
      status none e = matched (lib.matches u.password password)
      status (some f) e = inr (ap (λ n. n == 401) (refusal-IsForbidden u.status f e), inl refl)

  login-Outcome :
      (ok : ℕ → Bool) (now : ℕ) (ip : String) (form : Option LoginRequest) (c : redis.Cache)
      (db : Db)
      → Outcome now ip c (login redis lib sign ok now ip form (c, db))
  unfolding login
  login-Outcome ok now ip none c db = inr (refl, inl refl)
  login-Outcome ok now ip (some req) c db =
      if-cases (Outcome now ip c) (normal_email lib req.email == "" || req.password == "")
        (λ _. inr (refl, inl refl))
        (λ _.
          if-cases (Outcome now ip c)
            (is_locked redis lib sign now ip (normal_email lib req.email) c)
            (λ _. inr (refl, inl refl))
            (λ open'.
              check_user-Outcome (ok 1) now ip (normal_email lib req.email) req.password
                (if ok 0 then user_of db (normal_email lib req.email) else none) c db open'))

module _ (redis : Redis) (law : IsCounting redis) (lib : AccountLibrary)
    (sign : User → Option String) where
  open'-lt :
      (now : ℕ) (ip email : String) (c : redis.Cache)
      → is_locked redis lib sign now ip email c ≡ false
      → redis.get_int now (login_ip ip) c < login_max_per_ip
  unfolding is_locked login_locked
  open'-lt now ip email c h = ground arith

  -- The counter of the address after one attempt.
  attempt-Track :
      (now start n : ℕ) (ip from : String) (c : redis.Cache) (reply : Reply String)
      (after : redis.Cache × Db)
      → start ≤ now
      → now < start + login_window_secs
      → Outcome redis lib sign now ip c (reply, after)
      → Track redis law start (start + login_window_secs) (login_ip from) n c
      → n ≤ login_max_per_ip
      → (m : ℕ) × Track redis law start (start + login_window_secs) (login_ip from) m after.0
        × (m ≤ login_max_per_ip)
        × (m ≡ (if ip == from && reply.status == 401 then 1 else 0) + n)
  attempt-Track now start n ip from c reply (c', db) low high (inl (guess, (email, open', failed)))
        track le =
      elim (Bool-cases (ip == from)) [
        | inl same ↦ (
          suc n,
          subst (λ k. Track redis law start (start + login_window_secs) (login_ip k) (suc n) c')
              (==→eq ip from same)
              (subst (Track redis law start (start + login_window_secs) (login_ip ip) (suc n))
                (sym failed)
                (login_failed-Track redis law now start n ip email c low high (
                  subst (λ k. Track redis law start (start + login_window_secs) (login_ip k) n c)
                    (sym (==→eq ip from same)) track))),
          omega (
            arith,
            track.1 now high,
            subst (λ k. redis.get_int now (login_ip k) c < login_max_per_ip) (==→eq ip from same)
                (open'-lt now ip email c open'),
          ),
          rw same (rw guess (omega arith)),
        )
        | inr other ↦ (
          n,
          Track-ap redis law start (start + login_window_secs) n (login_ip from) c c'
              (λ t.
                ap (redis.get_int t (login_ip from)) failed
                ∙ login_failed-other redis law now t ip email from c (λ e. absurd (
                    subst (λ b. b ≢ false) (sym (ap (λ x. ip == x) e ∙ ==-refl ip)) (λ z. cc)
                      other)))
              track,
          le,
          rw other (omega arith),
        )
      ]
  attempt-Track now start n ip from c reply (c', db) low high (inr (no_guess, inl kept)) track le =
      (
        n,
        subst (Track redis law start (start + login_window_secs) (login_ip from) n) (sym kept)
            track,
        le,
        rw no_guess (ground arith),
      )
  attempt-Track now start n ip from c reply (c', db) low high (inr (no_guess, inr (email, gone)))
        track le =
      (
        n,
        Track-ap redis law start (start + login_window_secs) n (login_ip from) c c'
            (λ t.
              ap (redis.get_int t (login_ip from)) gone
              ∙ law.del_other c now t (login_acct email) (login_ip from) (λ e. cc))
            track,
        le,
        rw no_guess (ground arith),
      )

  moved_up : (a b n m top : ℕ) → m ≡ a + n → b + m ≤ top → a + b + n ≤ top
  moved_up a b n m top e le = omega (arith, e, le)

  guesses-bounded :
      (start n : ℕ) (from : String) (attempts : List Attempt) (c : redis.Cache) (db : Db)
      → Track redis law start (start + login_window_secs) (login_ip from) n c
      → n ≤ login_max_per_ip
      → Timed start (start + login_window_secs) attempts
      → guesses redis lib sign from attempts (c, db) + n ≤ login_max_per_ip
  unfolding guesses
  guesses-bounded start n from [] c db track le timed = omega (arith, le)
  guesses-bounded start n from ((ok, now, ip, form) ∷ rest) c db track le (low, high, timed) =
      let (m, next, small, count) =
        attempt-Track now start n ip from c (login redis lib sign ok now ip form (c, db)).0
          (login redis lib sign ok now ip form (c, db)).1 low high
          (login-Outcome redis lib sign ok now ip form c db) track le in
      moved_up
        (if ip == from && (login redis lib sign ok now ip form (c, db)).0.status == 401
          then 1
          else 0)
        _ n m login_max_per_ip count
        (guesses-bounded start m from rest (login redis lib sign ok now ip form (c, db)).1.0
          (login redis lib sign ok now ip form (c, db)).1.1 next small timed)

-- From an address that has no failed attempts on record, whatever is tried over any accounts within a
-- window of fifteen minutes, and whichever statements of each attempt fail, at most twenty attempts are answered 401:
-- every further one is refused before a password is compared. Redis counts and keeps its keys.
pub guesses-capped :
    (redis : Redis) (law : IsCounting redis) (lib : AccountLibrary) (sign : User → Option String)
    (start : ℕ) (from : String) (attempts : List Attempt) (c : redis.Cache) (db : Db)
    → ((t : ℕ) → start ≤ t → redis.get_int t (login_ip from) c ≡ 0)
    → Timed start (start + login_window_secs) attempts
    → guesses redis lib sign from attempts (c, db) ≤ login_max_per_ip
guesses-capped redis law lib sign start from attempts c db fresh timed = omega (
  arith,
  guesses-bounded redis law lib sign start 0 from attempts c db (λ _. fresh, λ t h. omega arith)
      (omega arith) timed,
)

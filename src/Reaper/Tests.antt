-- ===== src/Reaper/Tests.antt =====
-- A tick at a concrete input, on a Redis in memory.
use myfipay.Base.{ℕ, ◌≡◌, refl, String, [], ◌∷◌, none, Bool, true, string_eq, nat_eq}
use myfipay.Base.Int.{pos}
use myfipay.Sql.{delete_where}
use myfipay.Db.{Db, Session}
use myfipay.Db.Sample.{no_rows}
use myfipay.Cache.Memory.{memory, Store}
use myfipay.Webhook.{Library}
use myfipay.Reaper.{reap_expired_sessions}

abbrev lib : Library
lib = record {
  hmac_sha256_hex = λ key body. "";
  hex_decode = λ s. none;
  to_lower = λ s. s;
  decode_webhook = λ s. none;
  decimal = λ n. "";
  rfc3339 = λ t. "";
  unspecified = λ f. pos 0;
}

abbrev session_of : String → ℕ → Session
session_of id expires_at = record {
  id = id;
  location_id = "l1";
  plan_id = none;
  username = "256700000001";
  customer_phone = "256700000001";
  mac_address = none;
  status = "active";
  expires_at = expires_at;
  terminated_at = none;
}

-- An overdue session, and a later one of the same user.
abbrev db : Db
db = record no_rows {
  sessions = session_of "s1" 90 ∷ session_of "s2" 500 ∷ [];
  radcheck =
      record { username = "256700000001"; attribute = "Auth-Type"; op = ":="; value = "Accept" }
      ∷ [];
}

abbrev empty : Store
empty = λ k. none

abbrev up : ℕ → ℕ → Bool
up i j = true

-- The later session goes on without its row of radcheck.
later_session_cut_off : (reap_expired_sessions lib memory true up 100 (empty, db)).1.radcheck ≡ []
unfolding reap_expired_sessions delete_where
later_session_cut_off = refl

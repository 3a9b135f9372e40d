-- ===== src/Portal.antt =====
-- The portal's own answers (api/internal/handlers/portal.go): the text that describes a plan, and whether
-- a device has a session. Durations and speeds are natural numbers.
use myfipay.Base.{
  ℕ, ◌/◌, ◌≡◌, refl, String, Option, none, some, leb, if◌then◌else◌, ◌==◌, string_eq,
}
use Prim.Native.String.{◌++◌ as concat}
use myfipay.Http.{Reply, respond, respond_error}
use myfipay.Cache.{session_mac, Redis}

-- `decimal` is "%d".
unfoldable pub plan_description : (ℕ → String) → ℕ → ℕ → String
plan_description decimal duration_mins speed_down_kbps =
    let dur =
      if leb 10080 duration_mins
      then concat (decimal (duration_mins / 1440)) " day"
      else if leb 1440 duration_mins
      then "full day"
      else if leb 60 duration_mins
      then concat (decimal (duration_mins / 60)) "hr"
      else concat (decimal duration_mins) "min" in
    let speed =
      if leb 5120 speed_down_kbps
      then concat (decimal (speed_down_kbps / 1024)) " Mbps"
      else if leb 1024 speed_down_kbps
      then concat (decimal (speed_down_kbps / 1024)) " Mbps"
      else "high speed" in
    concat (concat dur " · ") speed

module _ (to_lower : String → String) (redis : Redis) where
  abbrev found_session : Option String → Reply (Option String)
  found_session none = respond 200 none
  found_session (some session_id) = respond 200 (some session_id)

  -- The answer has the id of the session, none where there is none.
  unfoldable pub session_status : ℕ → String → redis.Cache → Reply (Option String)
  session_status now mac cache =
      let found = found_session (redis.get now (session_mac (to_lower mac)) cache) in
      if mac == "" then respond_error 400 "MISSING_MAC" "mac query param required" else found

described : plan_description (λ n. "7") 10080 2048 ≡ "7 day · 7 Mbps"
unfolding plan_description
described = refl

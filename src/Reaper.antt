-- ===== src/Reaper.antt =====
-- The reaper of sessions (api/internal/handlers/handlers.go): what a tick does. Its ticker only calls it.
pub mod Progress
mod Tests
use myfipay.Base.{
  ℕ, suc, ◌+◌, ◌*◌, String, List, [], ◌∷◌, Bool, ◌&&◌, ltb, select, if◌then◌else◌, ◌==◌, string_eq,
}
use myfipay.Db.{Db, Session}
use myfipay.Cache.{Redis}
use myfipay.Webhook.{Library}
use myfipay.Checkout.{expire_session}

-- status = 'active' AND expires_at < NOW()
unfoldable pub is_overdue : ℕ → Session → Bool
is_overdue now s = s.status == "active" && ltb s.expires_at now

module _ (lib : Library) (redis : Redis) where
  -- The loop over the sessions that were read; `ok i` is for the statements of the i-th one.
  unfoldable pub expire_all :
      (ℕ → ℕ → Bool) → ℕ → ℕ → List Session → redis.Cache × Db → redis.Cache × Db
  unfolding expire_session
  expire_all ok now i [] state = state
  expire_all ok now i (s ∷ rest) state =
      expire_all ok now (suc i) rest
        (expire_session lib lib.to_lower redis (ok i) now s.username s.id state)

  -- `reached` says whether the query went through.
  unfoldable pub reap_expired_sessions :
      Bool → (ℕ → ℕ → Bool) → ℕ → redis.Cache × Db → redis.Cache × Db
  unfolding is_overdue select expire_all
  reap_expired_sessions reached ok now (cache, db) =
      let reaped = expire_all ok now 0 (select (is_overdue now) db.sessions) (cache, db) in
      if reached then reaped else (cache, db)

-- ===== src/Operator/Extensions.antt =====
-- An extension never takes time from a session (ExtendSession of api/internal/handlers/operator.go).
use myfipay.Base.{ℕ, ◌+◌, ◌*◌, ◌≤◌, ◌≡◌, Bool, string_eq}
use myfipay.Http.{Body, content, error, Reply}
use myfipay.Sql.Rows.{Rows}
use myfipay.Db.{Db, Session}
use myfipay.Cache.{Redis}
use myfipay.Webhook.{Library}
use myfipay.Operator.{Extended}

-- A session with a later expiry, and nothing else changed.
pub record IsLater (x x' : Session) : Type 0 where
  pub later : x.expires_at ≤ x'.expires_at
  pub same : x' ≡ record x { expires_at = x'.expires_at }

-- What an answer promises, where it is not an error: at least the time of the plan, from now on.
abbrev Promises : ℕ → Body Extended → Type 0
Promises now (error code message) = Unit
Promises now (content e) = now + e.added_mins * 60 ≤ e.new_expires_at

-- Every session is as before but for a later expiry, and the answer promises the time of the plan.
pub record Extends (now : ℕ) (db : Db) (body : Body Extended) (after : Db) : Type 0 where
  pub rows : Rows IsLater db.sessions after.sessions
  pub promised : Promises now body

module _ (lib : Library) (redis : Redis) (ok : ℕ → Bool) (now : ℕ) (db : Db) where
  abbrev Outcome : Reply Extended × redis.Cache × Db → Type 0
  Outcome (reply, cache, after) = Extends now db reply.body after

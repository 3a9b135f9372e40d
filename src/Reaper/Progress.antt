-- ===== src/Reaper/Progress.antt =====
-- A tick leaves no session that is overdue.
use myfipay.Base.{ℕ, ◌≡◌, List, Bool, false, not, ◌&&◌, ◌==◌, string_eq}
use myfipay.Sql.{exists}
use myfipay.Db.{Db, Session}
use myfipay.Reaper.{is_overdue}

-- A session that is overdue and not on the list.
abbrev missed : ℕ → List Session → Session → Bool
missed now listed s = is_overdue now s && not (exists (λ x. s.id == x.id) listed)

-- Every overdue session is on the list.
abbrev AllListed : ℕ → List Session → List Session → Type 0
AllListed now listed sessions = exists (missed now listed) sessions ≡ false

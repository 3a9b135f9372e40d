-- ===== src/Sessions/Frame.antt =====
-- A grant writes sessions, radcheck and radreply, and nothing else: whatever does not read these
-- tables stays as it is.
use myfipay.Base.{
  ℕ, suc, ◌≡◌, refl, ◌∙◌, String, List, [], ◌∷◌, Option, none, some, Bool, true, false,
  if◌then◌else◌, ◌==◌, string_eq,
}
use myfipay.Sql.{exists}
use myfipay.Db.{Db, Session, RadRow}
use myfipay.Sessions.{
  PlanRecord, exec, exec_all, radius_statements, write_radius, delete_check, delete_reply,
  insert_session, insert_session_at, location_of,
}

module _ {A : Type 0} (view : Db → A)
    (same_check : (db : Db) (rows : List RadRow) → view (record db { radcheck = rows }) ≡ view db)
    (same_reply : (db : Db) (rows : List RadRow) → view (record db { radreply = rows }) ≡ view db)
    (same_sessions : (db : Db) (rows : List Session)
      → view (record db { sessions = rows }) ≡ view db) where
  exec-view :
      (reached : Bool) (f : Db → Db) (db : Db)
      → view (f db) ≡ view db
      → view (exec reached f db) ≡ view db
  exec-view true f db h = h
  exec-view false f db h = refl

  abbrev AllKeep : List (Db → Db) → Type 0
  AllKeep [] = Unit
  AllKeep (s ∷ rest) = ((db : Db) → view (s db) ≡ view db) × AllKeep rest

  exec_all-view :
      (ok : ℕ → Bool) (i : ℕ) (db : Db) (statements : List (Db → Db))
      → AllKeep statements
      → view (exec_all ok i statements db) ≡ view db
  unfolding exec_all
  exec_all-view ok i db [] h = refl
  exec_all-view ok i db (s ∷ rest) h =
      exec_all-view ok (suc i) (exec (ok i) s db) rest h.1 ∙ exec-view (ok i) s db (h.0 db)

  radius_statements-AllKeep :
      (decimal : ℕ → String) (username : String) (secs : ℕ) (pl : PlanRecord)
      → AllKeep (radius_statements decimal username secs pl)
  unfolding radius_statements delete_check delete_reply
  radius_statements-AllKeep decimal username secs pl = (
    (λ db. same_check db _),
    (
      (λ db. same_check db _),
      (
        (λ db. same_reply db _),
        (
          (λ db. same_reply db _),
          (
            (λ db. same_reply db _),
            ((λ db. same_reply db _), ((λ db. same_reply db _), ((λ db. same_reply db _), tt))),
          ),
        ),
      ),
    ),
  )

  pub write_radius-view :
      (decimal : ℕ → String) (ok : ℕ → Bool) (username : String) (secs : ℕ) (pl : PlanRecord)
      (db : Db)
      → view (write_radius decimal ok username secs pl db) ≡ view db
  unfolding write_radius
  write_radius-view decimal ok username secs pl db =
      exec_all-view ok 0 db (radius_statements decimal username secs pl)
        (radius_statements-AllKeep decimal username secs pl)

  insert_session_at-view :
      (location : Option String) (row : String → Session) (db : Db)
      → view (insert_session_at location row db) ≡ view db
  insert_session_at-view none row db = refl
  insert_session_at-view (some l) row db = added (exists (λ s. s.id == (row l).id) db.sessions)
    where
      added :
          (b : Bool)
          → view (if b then db else record db { sessions = row l ∷ db.sessions }) ≡ view db
      added true = refl
      added false = same_sessions db (row l ∷ db.sessions)

  pub insert_session-view :
      (reached : Bool) (slug : String) (row : Db → String → Session) (db : Db)
      → view (exec reached (λ d. insert_session slug (row d) d) db) ≡ view db
  unfolding insert_session
  insert_session-view reached slug row db =
      exec-view reached (λ d. insert_session slug (row d) d) db
        (insert_session_at-view (location_of db slug) (row db) db)

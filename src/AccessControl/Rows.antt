-- ===== src/AccessControl/Rows.antt =====
-- What the statements of the handlers do to the RADIUS rows that stand for a map of permits.
use myfipay.Base.{
  ℕ, ◌≡◌, ◌≢◌, refl, ap, sym, subst, ◌∙◌, String, List, [], ◌∷◌, Option, none, some, Bool, true,
  false, ◌&&◌, select, if-cases, ◌==◌, string_eq, nat_eq, ==→eq, ==-refl, ne→==, arith,
}
use myfipay.Sql.{update_where}
use myfipay.Db.{Db, RadRow}
use myfipay.Cache.{Redis}
use myfipay.Sessions.{PlanRecord, write_radius, delete_check, delete_reply}
use myfipay.Sessions.Access.{
  rows_of, rows_of-delete_own, rows_of-delete_other, write_radius_grants, write_radius-Untouched,
}
use myfipay.Webhook.{Library}
use myfipay.Operator.{set_timeout}
use myfipay.AccessControl.{
  Permit, Permits, grants, retimes, revokes, retimed, apply, check_rows, reply_rows, all_run,
}
use myfipay.AccessControl.Frame.{SameRadius}

other_name : (user username : String) → (user == username) ≡ false → user ≢ username
other_name user username no' e =
    true_false (sym (ap (λ n. n == username) e ∙ ==-refl username) ∙ no')
  where
    true_false : true ≢ false
    true_false h = cc

-- The new value of the Session-Timeout, where a row is the user's.
abbrev new_timeout : String → RadRow → RadRow
new_timeout value r = record r { value = value }

abbrev is_timeout : String → RadRow → Bool
is_timeout username r = r.username == username && r.attribute == "Session-Timeout"

rows_of-retime :
    (username value : String) (rows : List RadRow)
    → rows_of username (update_where (is_timeout username) (new_timeout value) rows).0
      ≡ (update_where (is_timeout username) (new_timeout value) (rows_of username rows)).0
unfolding rows_of select update_where
rows_of-retime username value [] = refl
rows_of-retime username value (r ∷ rows) = ground (arith, rows_of-retime username value rows)

rows_of-retime_other :
    (username user value : String) (rows : List RadRow)
    → user ≢ username
    → rows_of user (update_where (is_timeout username) (new_timeout value) rows).0
      ≡ rows_of user rows
unfolding rows_of select update_where
rows_of-retime_other username user value [] ne = refl
rows_of-retime_other username user value (r ∷ rows) ne = ground (
  arith,
  ==→eq r.username username,
  ne→== r.username user,
  rows_of-retime_other username user value rows,
)

module _ (lib : Library) (to_upper : String → String) (redis : Redis) where
  -- The rows of a user are those of a permit.
  pub record StandsAt (user : String) (permit : Option Permit) (db : Db) : Type 0 where
    pub checks : rows_of user db.radcheck ≡ check_rows user permit
    pub replies : rows_of user db.radreply ≡ reply_rows lib to_upper redis user permit

  -- The rows of every user are those of its permit.
  abbrev pub Stands : Permits → Db → Type 0
  Stands permits db = (user : String) → StandsAt user (permits user) db

  pub Stands-SameRadius :
      {permits : Permits} {a b : Db} → SameRadius a b → Stands permits a → Stands permits b
  Stands-SameRadius e h = λ user. record {
    checks = ap (rows_of user) e.check ∙ (h user).checks;
    replies = ap (rows_of user) e.reply ∙ (h user).replies;
  }

  pub Stands-grant :
      (username : String) (secs : ℕ) (pl : PlanRecord) {permits : Permits} (db : Db)
      → Stands permits db
      → Stands
          (apply (grants username secs pl) permits)
          (write_radius lib.decimal all_run username secs pl db)
  Stands-grant username secs pl {permits} db h = λ user.
      let db' = write_radius lib.decimal all_run username secs pl db in
      if-cases (λ o. StandsAt user o db') (user == username)
        (λ is.
          subst (λ u. StandsAt u (some (record { secs = secs; plan = pl })) db')
            (sym (==→eq user username is))
            (let (check, reply) =
                write_radius_grants lib.decimal all_run username secs pl db (λ i. refl) in
              record { checks = check; replies = reply }))
        (λ no'.
          let kept =
            write_radius-Untouched lib.decimal all_run username user secs pl db
              (other_name user username no') in
          record {
            checks = kept.check_same ∙ (h user).checks;
            replies = kept.reply_same ∙ (h user).replies;
          })

  pub Stands-revoke :
      (username : String) {permits : Permits} (db : Db)
      → Stands permits db
      → Stands (apply (revokes username) permits) (delete_reply username (delete_check username db))
  unfolding delete_reply delete_check
  Stands-revoke username {permits} db h = λ user.
      if-cases (λ o. StandsAt user o (delete_reply username (delete_check username db)))
        (user == username)
        (λ is.
          subst (λ u. StandsAt u none (delete_reply username (delete_check username db)))
            (sym (==→eq user username is))
            (record {
              checks = rows_of-delete_own username db.radcheck;
              replies = rows_of-delete_own username db.radreply;
            }))
        (λ no'. record {
          checks =
              rows_of-delete_other username user db.radcheck (other_name user username no')
              ∙ (h user).checks;
          replies =
              rows_of-delete_other username user db.radreply (other_name user username no')
              ∙ (h user).replies;
        })

  pub Stands-retime :
      (username : String) (secs : ℕ) {permits : Permits} (db : Db)
      → Stands permits db
      → Stands (apply (retimes username secs) permits) (set_timeout username (lib.decimal secs) db)
  unfolding set_timeout update_where
  Stands-retime username secs {permits} db h = λ user.
      if-cases (λ o. StandsAt user o (set_timeout username (lib.decimal secs) db))
        (user == username)
        (λ is.
          subst
            (λ u.
              StandsAt u (retimed secs (permits u)) (set_timeout username (lib.decimal secs) db))
            (sym (==→eq user username is))
            (record {
              checks = (h username).checks ∙ kept (permits username);
              replies =
                  rows_of-retime username (lib.decimal secs) db.radreply
                  ∙ ap
                      (λ rows.
                        (update_where (is_timeout username) (new_timeout (lib.decimal secs))
                          rows).0)
                      (h username).replies
                  ∙ moved (permits username);
            }))
        (λ no'. record {
          checks = (h user).checks;
          replies =
              rows_of-retime_other username user (lib.decimal secs) db.radreply
                (other_name user username no')
              ∙ (h user).replies;
        })
    where
      kept : (o : Option Permit) → check_rows username o ≡ check_rows username (retimed secs o)
      kept none = refl
      kept (some p) = refl

      moved :
          (o : Option Permit)
          → (update_where
              (is_timeout username)
              (new_timeout (lib.decimal secs))
              (reply_rows lib to_upper redis username o)).0
            ≡ reply_rows lib to_upper redis username (retimed secs o)
      moved none = refl
      moved (some p) = rw (==-refl username) refl

-- ===== src/Sessions/Access.antt =====
-- Who may go online: the rows of radcheck and radreply after a grant and after a session's end.
use myfipay.Base.{
  ℕ, suc, ◌*◌, ◌≡◌, ◌≢◌, refl, ap, sym, subst, ◌∙◌, map, String, List, [], ◌∷◌, ◌++◌, Bool, true,
  false, arith, select, if◌then◌else◌, ◌==◌, string_eq, ==-refl, ne→==, ==→eq,
}
use myfipay.Sql.{delete_where}
use myfipay.Db.{Db, RadRow}
use myfipay.Sessions.{
  PlanRecord, exec, exec_all, radius_statements, write_radius, rate_limit, delete_check,
  delete_reply, insert_check, insert_reply,
}

unfoldable pub rows_of : String → List RadRow → List RadRow
unfolding select
rows_of username rows = select (λ r. r.username == username) rows

abbrev pub AllRun : (ℕ → Bool) → Type 0
AllRun ok = (i : ℕ) → ok i ≡ true

pub rows_of-delete_own :
    (username : String) (rows : List RadRow)
    → rows_of username (delete_where (λ r. r.username == username) rows) ≡ []
unfolding rows_of select delete_where
rows_of-delete_own username [] = refl
rows_of-delete_own username (x ∷ xs) = ground (arith, rows_of-delete_own username xs)

pub rows_of-delete_other :
    (username other : String) (rows : List RadRow)
    → other ≢ username
    → rows_of other (delete_where (λ r. r.username == username) rows) ≡ rows_of other rows
unfolding rows_of select delete_where
rows_of-delete_other username other [] ne = refl
rows_of-delete_other username other (x ∷ xs) ne = ground (
  arith,
  ==→eq x.username username,
  ne→== x.username other,
  rows_of-delete_other username other xs ne,
)

-- A row that a grant writes.
abbrev pub row_for : String → String × String → RadRow
row_for username av = record { username = username; attribute = av.0; op = ":="; value = av.1 }

rows_of-own :
    (username : String) (avs : List (String × String)) (rows : List RadRow)
    → rows_of username (map (row_for username) avs ++ rows)
      ≡ map (row_for username) avs ++ rows_of username rows
unfolding rows_of select
rows_of-own username [] rows = refl
rows_of-own username (av ∷ avs) rows =
    ground (arith, ==-refl username, rows_of-own username avs rows)

rows_of-cons_other :
    (other username : String) (av : String × String) (rows : List RadRow)
    → other ≢ username
    → rows_of other (row_for username av ∷ rows) ≡ rows_of other rows
unfolding rows_of select
rows_of-cons_other other username av rows ne =
    ap (λ b. if b then row_for username av ∷ rows_of other rows else rows_of other rows)
      (ne→== username other (λ e. ne (sym e)))

-- What a user other than the one that is served sees.
pub record Untouched (other : String) (before after : Db) : Type 0 where
  pub check_same : rows_of other after.radcheck ≡ rows_of other before.radcheck
  pub reply_same : rows_of other after.radreply ≡ rows_of other before.radreply

Untouched-trans :
    {other : String} {a b c : Db} → Untouched other a b → Untouched other b c → Untouched other a c
Untouched-trans h g = record {
  check_same = g.check_same ∙ h.check_same;
  reply_same = g.reply_same ∙ h.reply_same;
}

exec-Untouched :
    {other : String} (reached : Bool) (f : Db → Db) (db : Db)
    → Untouched other db (f db)
    → Untouched other db (exec reached f db)
exec-Untouched true f db h = h
exec-Untouched false f db h = record { check_same = refl; reply_same = refl }

module _ {other username : String} (ne : other ≢ username) (db : Db) where
  pub delete_check-Untouched : Untouched other db (delete_check username db)
  unfolding delete_check
  delete_check-Untouched = record {
    check_same = rows_of-delete_other username other db.radcheck ne;
    reply_same = refl;
  }

  pub delete_reply-Untouched : Untouched other db (delete_reply username db)
  unfolding delete_reply
  delete_reply-Untouched = record {
    check_same = refl;
    reply_same = rows_of-delete_other username other db.radreply ne;
  }

  insert_check-Untouched : Untouched other db (insert_check username db)
  insert_check-Untouched = record {
    check_same = rows_of-cons_other other username ("Auth-Type", "Accept") db.radcheck ne;
    reply_same = refl;
  }

  insert_reply-Untouched :
      (attribute value : String) → Untouched other db (insert_reply username attribute value db)
  insert_reply-Untouched attribute value = record {
    check_same = refl;
    reply_same = rows_of-cons_other other username (attribute, value) db.radreply ne;
  }

abbrev AllHarmless : String → List (Db → Db) → Type 0
AllHarmless other [] = Unit
AllHarmless other (s ∷ rest) = ((db : Db) → Untouched other db (s db)) × AllHarmless other rest

exec_all-Untouched :
    {other : String} (ok : ℕ → Bool) (i : ℕ) (db : Db) (statements : List (Db → Db))
    → AllHarmless other statements
    → Untouched other db (exec_all ok i statements db)
unfolding exec_all
exec_all-Untouched ok i db [] h = record { check_same = refl; reply_same = refl }
exec_all-Untouched ok i db (s ∷ rest) h =
    Untouched-trans (exec-Untouched (ok i) s db (h.0 db))
      (exec_all-Untouched ok (suc i) (exec (ok i) s db) rest h.1)

module _ (decimal : ℕ → String) where
  -- The five attributes of a grant, the latest first.
  abbrev pub granted_replies : String → ℕ → PlanRecord → List RadRow
  granted_replies username secs pl = map (row_for username) (
      ("WISPr-Bandwidth-Max-Up", decimal (pl.speed_up_kbps * 1000))
      ∷ ("WISPr-Bandwidth-Max-Down", decimal (pl.speed_down_kbps * 1000))
      ∷ ("Mikrotik-Rate-Limit", rate_limit decimal pl)
      ∷ ("Idle-Timeout", "300")
      ∷ ("Session-Timeout", decimal secs)
      ∷ [])

  abbrev pub Granted : String → ℕ → PlanRecord → Db → Type 0
  Granted username secs pl db =
      (rows_of username db.radcheck ≡ row_for username ("Auth-Type", "Accept") ∷ [])
      × (rows_of username db.radreply ≡ granted_replies username secs pl)

  grants :
      (username : String) (secs : ℕ) (pl : PlanRecord) (db : Db)
      → Granted username secs pl (write_radius decimal (λ _. true) username secs pl db)
  unfolding write_radius radius_statements exec_all delete_check delete_reply
  grants username secs pl db = (
    rows_of-own username (("Auth-Type", "Accept") ∷ []) _
        ∙ ap (λ rows. row_for username ("Auth-Type", "Accept") ∷ rows)
            (rows_of-delete_own username db.radcheck),
    rows_of-own username
          (("WISPr-Bandwidth-Max-Up", decimal (pl.speed_up_kbps * 1000))
            ∷ ("WISPr-Bandwidth-Max-Down", decimal (pl.speed_down_kbps * 1000))
            ∷ ("Mikrotik-Rate-Limit", rate_limit decimal pl)
            ∷ ("Idle-Timeout", "300")
            ∷ ("Session-Timeout", decimal secs)
            ∷ [])
          _
        ∙ ap (λ rows. granted_replies username secs pl ++ rows)
            (rows_of-delete_own username db.radreply),
  )

  pub write_radius_grants :
      (ok : ℕ → Bool) (username : String) (secs : ℕ) (pl : PlanRecord) (db : Db)
      → AllRun ok
      → Granted username secs pl (write_radius decimal ok username secs pl db)
  write_radius_grants ok username secs pl db all =
      subst (λ f. Granted username secs pl (write_radius decimal f username secs pl db))
        (sym (λ i n. all n i)) (grants username secs pl db)

  -- Whichever statements of a grant reach the database, the rows of every other user stay.
  pub write_radius-Untouched :
      (ok : ℕ → Bool) (username other : String) (secs : ℕ) (pl : PlanRecord) (db : Db)
      → other ≢ username
      → Untouched other db (write_radius decimal ok username secs pl db)
  unfolding write_radius radius_statements
  write_radius-Untouched ok username other secs pl db ne =
      exec_all-Untouched {other = other} ok 0 db (radius_statements decimal username secs pl) (
        delete_check-Untouched ne,
        (
          insert_check-Untouched ne,
          (
            delete_reply-Untouched ne,
            (
              reply "Session-Timeout" (decimal secs),
              (
                reply "Idle-Timeout" "300",
                (
                  reply "Mikrotik-Rate-Limit" (rate_limit decimal pl),
                  (
                    reply "WISPr-Bandwidth-Max-Down" (decimal (pl.speed_down_kbps * 1000)),
                    (reply "WISPr-Bandwidth-Max-Up" (decimal (pl.speed_up_kbps * 1000)), tt),
                  ),
                ),
              ),
            ),
          ),
        ),
      )
    where
      reply :
          (attribute value : String) (db : Db)
          → Untouched other db (insert_reply username attribute value db)
      reply attribute value db = insert_reply-Untouched ne db attribute value

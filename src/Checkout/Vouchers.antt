-- ===== src/Checkout/Vouchers.antt =====
-- A voucher is redeemed once.
use myfipay.Base.{
  ℕ, ◌+◌, ◌≡◌, refl, ap, ◌∙◌, ◌⊎◌, inl, inr, String, List, [], ◌∷◌, Option, none, some, Bool, true,
  false, not, ◌||◌, arith, if◌then◌else◌, ◌==◌, string_eq, ==-refl, ==→eq,
}
use myfipay.Text.{trim_space}
use myfipay.Http.{Reply, respond_error}
use myfipay.Sql.{update_where, first}
use myfipay.Db.{Db, Voucher}
use myfipay.Cache.{Redis}
use myfipay.Sessions.{PlanRecord, exec, insert_session, active_session, duration_secs}
use myfipay.Sessions.Frame.{write_radius-view, insert_session-view}
use myfipay.Webhook.{Library}
use myfipay.Checkout.{
  VoucherForm, Redeemed, is_voucher_at, mark_used, check_voucher, grant_voucher_session,
  use_voucher, redeem_voucher,
}

-- An UPDATE of the row that is found leaves it found, when it keeps what the search reads.
first-update_where :
    (p q : Voucher → Bool) (f : Voucher → Voucher) (rows : List Voucher) (v : Voucher)
    → ((x : Voucher) → p (f x) ≡ p x)
    → first p rows ≡ some v
    → q v ≡ true
    → first p (update_where q f rows).0 ≡ some (f v)
unfolding first update_where
first-update_where p q f [] v same found h = cc
first-update_where p q f (x ∷ xs) v same found h =
    ground (arith, same x, first-update_where p q f xs v same)

read_row :
    (reached : Bool) (row : Option Voucher) (v : Voucher)
    → (if reached then row else none) ≡ some v
    → row ≡ some v
read_row true row v h = h
read_row false row v h = cc

module _ (lib : Library) (to_upper : String → String) (redis : Redis) where
  abbrev pub voucher_of : String → VoucherForm → Db → Option Voucher
  voucher_of slug req db =
      first (is_voucher_at lib to_upper redis db (to_upper (trim_space req.code')) slug) db.vouchers

  -- What the checks let through: the form's voucher at the location, unused.
  pub record IsRedeemable (slug : String) (req : VoucherForm) (db : Db) (v : Voucher) : Type 0 where
    pub given : (req.code' == "" || req.phone == "") ≡ false
    pub found : voucher_of slug req db ≡ some v
    pub unused : v.status ≡ "unused"

  abbrev Checked : String → VoucherForm → Db → Reply Redeemed ⊎ Voucher × VoucherForm → Type 0
  Checked slug req db (inl answer) = answer.success ≡ false
  Checked slug req db (inr (v, form)) = (form ≡ req) × IsRedeemable slug req db v

  check_voucher_cases :
      (reached : Bool) (slug : String) (req : VoucherForm) (db : Db)
      → Checked slug req db (check_voucher lib to_upper redis reached slug (some req) db)
  unfolding check_voucher
  check_voucher_cases reached slug req db =
      given (req.code' == "" || req.phone == "") (if reached then voucher_of slug req db else none)
        refl refl
    where
      status :
          (v : Voucher) (b : Bool)
          → (req.code' == "" || req.phone == "") ≡ false
          → voucher_of slug req db ≡ some v
          → (v.status == "unused") ≡ b
          → Checked slug req db (
              if not b
              then inl (respond_error 409 "ALREADY_USED" "voucher has already been used")
              else inr (v, req))
      status v true g f h =
          (refl, record { given = g; found = f; unused = ==→eq v.status "unused" h })
      status v false g f h = refl

      given :
          (bad : Bool) (row : Option Voucher)
          → (req.code' == "" || req.phone == "") ≡ bad
          → (if reached then voucher_of slug req db else none) ≡ row
          → Checked slug req db (
              if bad
              then inl (respond_error 400 "INVALID_BODY" "code and phone are required")
              else elim row [
                | none ↦ inl (respond_error 404 "INVALID_CODE" "voucher code not found")
                | some v ↦
                    if not (v.status == "unused")
                    then inl (respond_error 409 "ALREADY_USED" "voucher has already been used")
                    else inr (v, req)
              ])
      given true row g f = refl
      given false none g f = refl
      given false (some v) g f = status v (v.status == "unused") g (read_row reached _ v f) refl

  used :
      (reached : Bool) (slug : String) (req : VoucherForm) (db : Db) (v : Voucher)
      → reached ≡ true
      → (req.code' == "" || req.phone == "") ≡ false
      → voucher_of slug req db ≡ some v
      → v.status ≡ "used"
      → check_voucher lib to_upper redis reached slug (some req) db
        ≡ inl (respond_error 409 "ALREADY_USED" "voucher has already been used")
  unfolding check_voucher
  used reached slug req db v read g f h = rw (read, g, f, h) refl

  abbrev mark : String → ℕ → Voucher → Voucher
  mark username expires_at v = record v {
    status = "used";
    used_by_phone = some username;
    expires_at = some expires_at;
  }

  mark_used-voucher_of :
      (reached : Bool) (slug : String) (req : VoucherForm) (username : String) (expires_at : ℕ)
      (v : Voucher) (db : Db)
      → reached ≡ true
      → voucher_of slug req db ≡ some v
      → voucher_of slug req
          (exec reached (mark_used lib to_upper redis username expires_at v.id) db)
        ≡ some (mark username expires_at v)
  unfolding mark_used is_voucher_at
  mark_used-voucher_of true slug req username expires_at v db reached found =
      first-update_where
        (is_voucher_at lib to_upper redis db (to_upper (trim_space req.code')) slug)
        (λ x. x.id == v.id) (mark username expires_at) db.vouchers v (λ x. refl) found
        (==-refl v.id)
  mark_used-voucher_of false slug req username expires_at v db reached found = cc

  -- The voucher after the statements of its grant.
  grant-voucher_of :
      (ok : ℕ → Bool) (now : ℕ) (slug session_id : String) (req : VoucherForm) (v : Voucher)
      (username mac : String) (pl : PlanRecord) (db : Db)
      → ok 2 ≡ true
      → voucher_of slug req db ≡ some v
      → voucher_of slug req
          (grant_voucher_session lib to_upper redis ok now slug session_id v username mac pl db)
        ≡ some (mark username (now + duration_secs pl) v)
  unfolding grant_voucher_session is_voucher_at
  grant-voucher_of ok now slug session_id req v username mac pl db reached found =
      let expires_at = now + duration_secs pl in
      let marked = exec (ok 2) (mark_used lib to_upper redis username expires_at v.id) db in
      let row = active_session session_id (some v.plan_id) username username mac expires_at in
      let listed = exec (ok 3) (λ d. insert_session slug row d) marked in
      write_radius-view (voucher_of slug req) (λ d rows. refl) (λ d rows. refl) (λ d rows. refl)
        lib.decimal (λ i. ok (4 + i)) username (duration_secs pl) pl listed
      ∙ insert_session-view (voucher_of slug req) (λ d rows. refl) (λ d rows. refl) (λ d rows. refl)
          (ok 3) slug (λ d. row) marked
      ∙ mark_used-voucher_of (ok 2) slug req username expires_at v db reached found

  use_voucher-voucher_of :
      (ok : ℕ → Bool) (now : ℕ) (slug session_id : String) (req : VoucherForm)
      (state : redis.Cache × Db) (checked : Reply Redeemed ⊎ Voucher × VoucherForm)
      → Checked slug req state.1 checked
      → (use_voucher lib to_upper redis ok now slug session_id state checked).0.success ≡ true
      → ok 2 ≡ true
      → (w : Voucher) × ((req.code' == "" || req.phone == "") ≡ false)
        × (voucher_of slug req
              (use_voucher lib to_upper redis ok now slug session_id state checked).2
            ≡ some w)
        × (w.status ≡ "used")
  use_voucher-voucher_of ok now slug session_id req (cache, db) (inl answer) c h reached = cc
  use_voucher-voucher_of ok now slug session_id req (cache, db) (inr (v, form)) (same, c) h
        reached =
      (
        _,
        c.given,
        grant-voucher_of ok now slug session_id req v form.phone _ _ db reached c.found,
        refl,
      )

  -- After a redemption whose UPDATE reaches the database, the same form at the same location is
  -- answered 409, and changes nothing, when its SELECT reaches the database, at any time and with any
  -- later statements failing.
  pub redeem_voucher_once :
      (ok again : ℕ → Bool) (now later : ℕ) (slug session_id other_id : String) (req : VoucherForm)
      (state : redis.Cache × Db)
      → (redeem_voucher lib to_upper redis ok now slug session_id (some req) state).0.success ≡ true
      → ok 2 ≡ true
      → again 0 ≡ true
      → let (reply, cache, db) =
          redeem_voucher lib to_upper redis ok now slug session_id (some req) state in
        redeem_voucher lib to_upper redis again later slug other_id (some req) (cache, db)
        ≡ (respond_error 409 "ALREADY_USED" "voucher has already been used", cache, db)
  unfolding redeem_voucher
  redeem_voucher_once ok again now later slug session_id other_id req state success reached read =
      let (w, given, found, is_used) =
        use_voucher-voucher_of ok now slug session_id req state _
          (check_voucher_cases (ok 0) slug req state.1) success reached in
      let after = redeem_voucher lib to_upper redis ok now slug session_id (some req) state in
      ap (λ c. use_voucher lib to_upper redis again later slug other_id (after.1, after.2) c)
        (used (again 0) slug req after.2 w read given found is_used)

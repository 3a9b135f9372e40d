-- ===== src/AccessControl/Handlers.antt =====
-- Each handler does to the RADIUS rows what its events do to the permits.
use myfipay.Base.{
  ℕ, suc, ◌+◌, refl, ◌⊎◌, inl, inr, String, List, [], ◌∷◌, Option, none, some, true, string_eq,
}
use myfipay.Base.Table.{Table}
use myfipay.Http.{Reply}
use myfipay.Db.{Db, Plan, Session, Voucher}
use myfipay.Cache.{Redis}
use myfipay.Middleware.{UserClaims}
use myfipay.Sessions.{
  plan_of, plan_ref, get_plan_from_db, duration_secs, write_radius, insert_session,
  insert_session_at, active_session, location_of, confirmed_payment,
}
use myfipay.Webhook.{Library, field, start_session, grant_paid_session}
use myfipay.Checkout.{
  Redeemed, VoucherForm, use_voucher, grant_voucher_session, mark_used, expire_session,
  mark_expired, dashes_to_colons,
}
use myfipay.Operator.{
  GrantForm, plan_on_sale, grant_plan, book_session, location_of_tenant, insert_cash, cash_payment,
  extend_found, extend_by, set_expiry, terminate_found, extended_expiry, timeout_secs,
}
use myfipay.Live.{DisconnectResult}
use myfipay.Reaper.{expire_all}
use myfipay.AccessControl.{
  Permits, revokes, apply, replay, all_run, redeem_events, pay_events, grant_events, extend_events,
  extend_found_events, terminate_events, expiry_events,
}
use myfipay.AccessControl.Rows.{
  Stands, Stands-SameRadius, Stands-grant, Stands-revoke, Stands-retime,
}
use myfipay.AccessControl.Frame.{
  insert_session_at-SameRadius, insert_cash-SameRadius, pay-SameRadius,
}

module _ (lib : Library) (to_upper : String → String) (redis : Redis) where
  abbrev pub StandsFor : Permits → Db → Type 0
  StandsFor permits db = Stands lib to_upper redis permits db

  pub use_voucher-Stands :
      (now : ℕ) (slug session_id : String) (cache : redis.Cache) (db : Db) {permits : Permits}
      (checked : Reply Redeemed ⊎ Voucher × VoucherForm)
      → StandsFor permits db
      → StandsFor
          (replay (redeem_events db checked) permits)
          (use_voucher lib to_upper redis all_run now slug session_id (cache, db) checked).2
  unfolding grant_voucher_session mark_used insert_session
  use_voucher-Stands now slug session_id cache db (inl answer) h = h
  use_voucher-Stands now slug session_id cache db {permits} (inr (v, req)) h =
      let pl = get_plan_from_db true db v.plan_id in
      let secs = duration_secs pl in
      let marked = mark_used lib to_upper redis req.phone (now + secs) v.id db in
      let row =
        active_session session_id (some v.plan_id) req.phone req.phone
          (lib.to_lower (dashes_to_colons req.mac)) (now + secs) in
      let listed = insert_session slug row marked in
      Stands-grant lib to_upper redis req.phone secs pl listed (
        Stands-SameRadius lib to_upper redis
          (insert_session_at-SameRadius (location_of marked slug) row marked)
          (Stands-SameRadius lib to_upper redis (record { check = refl; reply = refl }) h))

  pub start_session-Stands :
      (now : ℕ) (session_id row_id payment_id phone : String) (cache : redis.Cache) (db : Db)
      {permits : Permits} (vals : Table String String)
      → StandsFor permits db
      → StandsFor
          (replay (pay_events lib to_upper redis db phone vals) permits)
          (start_session lib redis all_run now session_id row_id payment_id phone vals
            (cache, db)).1
  unfolding grant_paid_session insert_session
  start_session-Stands now session_id row_id payment_id phone cache db [] h = h
  start_session-Stands now session_id row_id payment_id phone cache db (entry ∷ rest) h =
      let vals = entry ∷ rest in
      let slug = field lib redis vals "location_slug" in
      let plan_id = field lib redis vals "plan_id" in
      let pl = get_plan_from_db true db plan_id in
      let secs = duration_secs pl in
      let row =
        active_session session_id (plan_ref db plan_id pl.name) phone phone
          (field lib redis vals "mac") (now + secs) in
      let listed = insert_session slug row db in
      let granted = write_radius lib.decimal all_run phone secs pl listed in
      Stands-SameRadius lib to_upper redis
        (pay-SameRadius lib redis all_run slug payment_id pl.price_ugx true
          (confirmed_payment row_id (plan_ref granted plan_id pl.name) phone pl.price_ugx
            (field lib redis vals "zengapay_ref") payment_id session_id)
          granted)
        (Stands-grant lib to_upper redis phone secs pl listed (
          Stands-SameRadius lib to_upper redis
            (insert_session_at-SameRadius (location_of db slug) row db) h))

  pub grant_plan-Stands :
      (claims : UserClaims) (now : ℕ) (session_id row_id : String) (req : GrantForm)
      (cache : redis.Cache) (db : Db) {permits : Permits} (p : Option Plan)
      → StandsFor permits db
      → StandsFor
          (replay (grant_events req p) permits)
          (grant_plan lib redis all_run claims now session_id row_id req p (cache, db)).2
  unfolding book_session
  grant_plan-Stands claims now session_id row_id req cache db none h = h
  grant_plan-Stands claims now session_id row_id req cache db (some p) h =
      let pl = plan_of (some p) req.plan_id in
      let secs = duration_secs pl in
      let row =
        active_session session_id (some pl.id) req.phone req.phone
          (lib.to_lower (dashes_to_colons req.mac)) (now + secs) in
      let booked = insert_session_at (location_of_tenant db claims.tenant_id) row db in
      let paid = cash_payment row_id pl.id req.phone pl.price_ugx session_id in
      let place = location_of_tenant booked claims.tenant_id in
      Stands-grant lib to_upper redis req.phone secs pl (insert_cash place paid booked) (
        Stands-SameRadius lib to_upper redis (insert_cash-SameRadius place paid booked) (
          Stands-SameRadius lib to_upper redis
            (insert_session_at-SameRadius (location_of_tenant db claims.tenant_id) row db) h))

  extend_by-Stands :
      (now : ℕ) (plan_id : String) (s : Session) (cache : redis.Cache) (db : Db) {permits : Permits}
      (p : Option Plan)
      → StandsFor permits db
      → StandsFor
          (replay (extend_events now plan_id s p) permits)
          (extend_by lib redis all_run now plan_id s p (cache, db)).2
  unfolding set_expiry
  extend_by-Stands now plan_id s cache db none h = h
  extend_by-Stands now plan_id s cache db (some p) h =
      let expiry = extended_expiry now s.expires_at (duration_secs (plan_of (some p) plan_id)) in
      Stands-retime lib to_upper redis s.username (timeout_secs now expiry)
        (set_expiry s.id expiry db)
        (Stands-SameRadius lib to_upper redis (record { check = refl; reply = refl }) h)

  pub extend_found-Stands :
      (claims : UserClaims) (now : ℕ) (plan_id : String) (cache : redis.Cache) (db : Db)
      {permits : Permits} (s : Option Session)
      → StandsFor permits db
      → StandsFor
          (replay
            (extend_found_events now plan_id (plan_on_sale db claims.tenant_id plan_id) s)
            permits)
          (extend_found lib redis all_run claims now plan_id s (cache, db)).2
  extend_found-Stands claims now plan_id cache db none h = h
  extend_found-Stands claims now plan_id cache db (some s) h =
      extend_by-Stands now plan_id s cache db (plan_on_sale db claims.tenant_id plan_id) h

  expire_session-Stands :
      (now : ℕ) (username session_id : String) (cache : redis.Cache) (db : Db) {permits : Permits}
      (upper : String → String)
      → StandsFor permits db
      → StandsFor
          (apply (revokes username) permits)
          (expire_session lib upper redis all_run now username session_id (cache, db)).1
  unfolding expire_session mark_expired
  expire_session-Stands now username session_id cache db upper h =
      Stands-revoke lib to_upper redis username (mark_expired lib upper redis now session_id db)
        (Stands-SameRadius lib to_upper redis (record { check = refl; reply = refl }) h)

  pub terminate_found-Stands :
      (disconnect : Db → String → List DisconnectResult) (now : ℕ) (session_id : String)
      (cache : redis.Cache) (db : Db) {permits : Permits} (s : Option Session)
      → StandsFor permits db
      → StandsFor
          (replay (terminate_events s) permits)
          (terminate_found lib redis all_run disconnect now session_id s (cache, db)).2
  terminate_found-Stands disconnect now session_id cache db none h = h
  terminate_found-Stands disconnect now session_id cache db (some s) h =
      expire_session-Stands now s.username session_id cache db lib.to_lower h

  pub expire_all-Stands :
      (now i : ℕ) (sessions : List Session) (cache : redis.Cache) (db : Db) {permits : Permits}
      → StandsFor permits db
      → StandsFor
          (replay (expiry_events sessions) permits)
          (expire_all lib redis (λ i. all_run) now i sessions (cache, db)).1
  unfolding expire_all
  expire_all-Stands now i [] cache db h = h
  expire_all-Stands now i (s ∷ rest) cache db h =
      let (cache', db') =
        expire_session lib lib.to_lower redis all_run now s.username s.id (cache, db) in
      expire_all-Stands now (suc i) rest cache' db'
        (expire_session-Stands now s.username s.id cache db lib.to_lower h)

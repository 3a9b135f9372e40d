-- ===== src/AccessControl/Refinement.antt =====
-- Whatever operations run, the RADIUS rows stand for the permits that their events leave.
use myfipay.Base.{
  ℕ, Option, ◌&&◌, inl, inr, ◌⊎◌, ◌≡◌, ◌∙◌, ap, refl, if-cases, String, List, [], ◌∷◌, none, some,
  Bool, true, false, ◌||◌, select, if◌then◌else◌, ◌==◌, string_eq,
}
use myfipay.Sql.{exists}
use myfipay.Sessions.Access.{rows_of}
use myfipay.Db.{Session, Db}
use myfipay.Cache.{Redis, payment_pending}
use myfipay.Webhook.{Library, create_session_after_payment}
use myfipay.Checkout.{redeem_voucher, check_voucher}
use myfipay.Operator.{
  plan_on_sale, active_session_of, grant_session, grant_plan, extend_session, extend_found,
  terminate_session,
}
use myfipay.Live.{disconnect_live_sessions}
use myfipay.Reaper.{is_overdue, reap_expired_sessions}
use myfipay.AccessControl.{
  Permit, check_rows, reply_rows, expiry_events, revokes, apply, Permits, Event, replay, Op, redeem,
  pay, grant, extend, terminate, reap, after, all_run, step, grant_events, extend_found_events,
  events, run, run_events,
}
use myfipay.AccessControl.Rows.{Stands}
use myfipay.AccessControl.Handlers.{
  StandsFor, use_voucher-Stands, start_session-Stands, grant_plan-Stands, extend_found-Stands,
  terminate_found-Stands, expire_all-Stands,
}

module _ (lib : Library) (to_upper : String → String) (redis : Redis) where
  -- An early answer changes nothing.
  unless-Stands {ℓ} :
      {A : Type ℓ} (bad : Bool) (answer : A) (cache : redis.Cache) (db : Db) {permits : Permits}
      (happened : List Event) (done : A × redis.Cache × Db)
      → StandsFor lib to_upper redis permits db
      → StandsFor lib to_upper redis (replay happened permits) done.2
      → StandsFor lib to_upper redis
          (replay (if bad then [] else happened) permits)
          (after lib to_upper redis (if bad then (answer, cache, db) else done)).1
  unless-Stands true answer cache db happened done h g = h
  unless-Stands false answer cache db happened done h g = g

  -- An operation does to the RADIUS rows what its events do to the permits.
  step-Stands :
      (op : Op lib to_upper redis) (cache : redis.Cache) (db : Db) {permits : Permits}
      → StandsFor lib to_upper redis permits db
      → StandsFor lib to_upper redis
          (replay (events lib to_upper redis op (cache, db)) permits)
          (step lib to_upper redis op (cache, db)).1
  unfolding step events redeem_voucher create_session_after_payment grant_session extend_session
      terminate_session reap_expired_sessions
  step-Stands (redeem now slug session_id form) cache db h =
      use_voucher-Stands lib to_upper redis now slug session_id cache db
        (check_voucher lib to_upper redis true slug form db) h
  step-Stands (pay now session_id row_id payment_id phone) cache db h =
      start_session-Stands lib to_upper redis now session_id row_id payment_id phone cache db
        (redis.hget_all now (payment_pending payment_id) cache) h
  step-Stands (grant claims now session_id row_id none) cache db h = h
  step-Stands (grant claims now session_id row_id (some req)) cache db h =
      let p = plan_on_sale db claims.tenant_id req.plan_id in
      unless-Stands (req.phone == "" || req.plan_id == "") _ cache db (grant_events req p)
        (grant_plan lib redis all_run claims now session_id row_id req p (cache, db)) h
        (grant_plan-Stands lib to_upper redis claims now session_id row_id req cache db p h)
  step-Stands (extend claims now session_id none) cache db h = h
  step-Stands (extend claims now session_id (some plan_id)) cache db h =
      let s = active_session_of db claims.tenant_id session_id in
      unless-Stands (plan_id == "") _ cache db
        (extend_found_events now plan_id (plan_on_sale db claims.tenant_id plan_id) s)
        (extend_found lib redis all_run claims now plan_id s (cache, db)) h
        (extend_found-Stands lib to_upper redis claims now plan_id cache db s h)
  step-Stands (terminate routers exchange id claims now session_id) cache db h =
      terminate_found-Stands lib to_upper redis (disconnect_live_sessions routers exchange id true)
        now session_id cache db (active_session_of db claims.tenant_id session_id) h
  step-Stands (reap now) cache db h =
      expire_all-Stands lib to_upper redis now 0 (select (is_overdue now) db.sessions) cache db h

  -- From RADIUS rows that stand for a map of permits, any sequence of operations whose statements reach
  -- the database ends in rows that stand for the map after the events of each: who was granted a session
  -- and not ended since has an unconditional Accept with the limits of the plan, and the timeout of the
  -- last grant or extension; everyone else has no row.
  pub run_refines :
      (ops : List (Op lib to_upper redis)) (state : redis.Cache × Db) (permits : Permits)
      → Stands lib to_upper redis permits state.1
      → Stands lib to_upper redis
          (run_events lib to_upper redis ops state permits)
          (run lib to_upper redis ops state).1
  run_refines [] state permits h = h
  run_refines (op ∷ ops) (cache, db) permits h =
      run_refines ops (step lib to_upper redis op (cache, db))
        (replay (events lib to_upper redis op (cache, db)) permits) (step-Stands op cache db h)

  revoked :
      (now : ℕ) (user : String) (sessions : List Session) (permits : Permits)
      → (permits user ≡ none)
        ⊎ (exists (λ s. user == s.username && is_overdue now s) sessions ≡ true)
      → replay (expiry_events (select (is_overdue now) sessions)) permits user ≡ none
  unfolding select exists
  revoked now user [] permits (inl h) = h
  revoked now user [] permits (inr h) = cc
  revoked now user (s ∷ rest) permits h =
      if-cases (λ ss. replay (expiry_events ss) permits user ≡ none) (is_overdue now s)
        (λ over. revoked now user rest (apply (revokes s.username) permits) (
          hit (user == s.username) (is_overdue now s) (permits user)
            (exists (λ s. user == s.username && is_overdue now s) rest) over h))
        (λ kept. revoked now user rest permits (
          miss (user == s.username) (is_overdue now s) (permits user)
            (exists (λ s. user == s.username && is_overdue now s) rest) kept h))
    where
      hit :
          (own over : Bool) (p : Option Permit) (later : Bool)
          → over ≡ true
          → (p ≡ none) ⊎ ((if own && over then true else later) ≡ true)
          → ((if own then none else p) ≡ none) ⊎ (later ≡ true)
      hit true over p later o h = inl refl
      hit false over p later o h = h

      miss :
          (own over : Bool) (p : Option Permit) (later : Bool)
          → over ≡ false
          → (p ≡ none) ⊎ ((if own && over then true else later) ≡ true)
          → (p ≡ none) ⊎ (later ≡ true)
      miss own true p later o h = cc
      miss true false p later o h = h
      miss false false p later o h = h

  -- Where the RADIUS rows stand for a map of permits, a tick whose query and statements all go
  -- through leaves no row to a user of an overdue session, whatever other sessions of the user are
  -- still running.
  pub reap_cuts_off :
      (now : ℕ) (user : String) (cache : redis.Cache) (db : Db) (permits : Permits)
      → Stands lib to_upper redis permits db
      → exists (λ s. user == s.username && is_overdue now s) db.sessions ≡ true
      → (rows_of user (step lib to_upper redis (reap now) (cache, db)).1.radcheck ≡ [])
        × (rows_of user (step lib to_upper redis (reap now) (cache, db)).1.radreply ≡ [])
  unfolding events
  reap_cuts_off now user cache db permits h over =
      let none' = revoked now user db.sessions permits (inr over) in
      let stands = step-Stands (reap now) cache db h user in
      (
        stands.checks ∙ ap (check_rows user) none',
        stands.replies ∙ ap (reply_rows lib to_upper redis user) none',
      )

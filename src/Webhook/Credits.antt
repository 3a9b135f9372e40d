-- ===== src/Webhook/Credits.antt =====
-- What the job of a paid session writes to payments and commissions.
use myfipay.Base.{
  coalesce, ℕ, ◌+◌, ◌*◌, ◌/◌, ◌^◌, ◌≤◌, ◌<◌, ◌≡◌, refl, ap, sym, subst, ◌∙◌, ◌⊎◌, inl, inr, String,
  List, [], ◌∷◌, Option, none, some, Bool, false, arith, select, ◌==◌, string_eq, Bool-cases, ◌&&◌,
  ==→eq,
}
use myfipay.Base.Table.{Table}
use myfipay.Sql.{exists}
use myfipay.Db.{Db, Payment, Commission}
use myfipay.Sessions.{
  PlanRecord, same_option, get_plan_from_db, exec, write_radius, insert_session, insert_payment,
  is_confirmed_for, create_agent_commission, plan_ref, confirmed_payment, active_session,
  duration_secs,
}
use myfipay.Sessions.Credit.{
  books, credits, Inserted, insert_payment_cases, CommissionOf, create_agent_commission_cases,
}
use myfipay.Sessions.Frame.{write_radius-view, insert_session-view}
use myfipay.Cache.{Redis, payment_pending}
use myfipay.Webhook.{
  Library, credit_payment, grant_paid_session, field, start_session, create_session_after_payment,
}

-- The payment that was credited, the first of its portal payment, with its commission.
pub record Credited (payment_id : String) (amount : ℕ) (before after : Db) (pm : Payment)
    : Type 0 where
  pub added : after.payments ≡ pm ∷ before.payments
  pub amount_is : pm.amount_ugx ≡ amount
  pub portal_is : pm.portal_payment ≡ some payment_id
  pub status_is : pm.status ≡ "confirmed"
  pub is_first : exists (is_confirmed_for payment_id) before.payments ≡ false
  pub commission :
      (after.commissions ≡ before.commissions)
      ⊎ ((c : Commission) × (after.commissions ≡ c ∷ before.commissions)
          × (c.payment_id ≡ pm.id)
          × (c.amount_ugx ≡ 3 * amount / 100)
          × (c.settled ≡ false))

abbrev pub CreditsOnce : String → ℕ → Db → Db → Type 0
CreditsOnce payment_id amount before after =
    (books after ≡ books before) ⊎ ((pm : Payment) × Credited payment_id amount before after pm)

-- No portal payment is credited by more than one confirmed payment.
pub record IsOnce (db : Db) : Type 0 where
  pub at_most_one : (payment_id : String) → credits payment_id db.payments ≤ 1

module _ (lib : Library) (redis : Redis) where
  credit_payment_cases :
      (ok : ℕ → Bool) (slug payment_id : String) (amount : ℕ) (before db : Db)
      (row : String → Payment) (result : Option Payment × Db)
      → amount < 2 ^ 51
      → ((l : String)
          → ((row l).amount_ugx ≡ amount)
            × ((row l).portal_payment ≡ some payment_id)
            × ((row l).status ≡ "confirmed"))
      → books db ≡ books before
      → Inserted payment_id row db result
      → CreditsOnce payment_id amount before (credit_payment lib redis ok slug amount result)
  credit_payment_cases ok slug payment_id amount before db row (none, after) h fields same
        (inl (e, kept)) =
      inl (kept ∙ same)
  credit_payment_cases ok slug payment_id amount before db row (some pm, after) h fields same
        (inl (e, kept)) =
      cc
  credit_payment_cases ok slug payment_id amount before db row (none, after) h fields same
        (inr (l, e, now, fresh, new)) =
      cc
  credit_payment_cases ok slug payment_id amount before db row (some pm, after) h fields same
        (inr (l, e, now, fresh, new)) =
      inr (
        pm,
        record {
          added =
              paid.0
              ∙ ap (λ b. b.0) now
              ∙ ap (λ x. x ∷ db.payments) (sym is_row)
              ∙ ap (λ b. pm ∷ b.0) same;
          amount_is = ap (λ x. x.amount_ugx) is_row ∙ (fields l).0;
          portal_is = ap (λ x. x.portal_payment) is_row ∙ (fields l).1;
          status_is = ap (λ x. x.status) is_row ∙ (fields l).2;
          is_first = subst (λ b. exists (is_confirmed_for payment_id) b.0 ≡ false) same fresh;
          commission = elim paid.1 [
            | inl kept ↦ inl (kept ∙ others)
            | inr (c, added, of_it, share, unsettled) ↦
                inr (c, added ∙ ap (λ cs. c ∷ cs) others, of_it, share, unsettled)
          ];
        },
      )
    where
      paid :
          CommissionOf pm.id amount after
            (create_agent_commission lib.unspecified ok slug pm.id amount after)
      paid = create_agent_commission_cases lib.unspecified ok slug pm.id amount after h

      is_row : pm ≡ row l
      is_row = ap (λ o. coalesce o pm) e

      others : after.commissions ≡ before.commissions
      others = ap (λ b. b.1) now ∙ ap (λ b. b.1) same

  -- A grant writes no payment and no commission, or exactly one confirmed payment of the plan's price
  -- for the portal payment, which had none, with at most one commission, of 3 percent, for that
  -- payment (a price below 2^51).
  pub grant_paid_session_cases :
      (ok : ℕ → Bool) (now : ℕ) (session_id row_id payment_id phone : String)
      (vals : Table String String) (pl : PlanRecord) (db : Db)
      → pl.price_ugx < 2 ^ 51
      → CreditsOnce payment_id pl.price_ugx db
          (grant_paid_session lib redis ok now session_id row_id payment_id phone vals pl db)
  unfolding grant_paid_session
  grant_paid_session_cases ok now session_id row_id payment_id phone vals pl db h =
      let row = λ (d : Db).
        active_session session_id (plan_ref d (field lib redis vals "plan_id") pl.name) phone phone
          (field lib redis vals "mac") (now + duration_secs pl) in
      let db1 =
        exec (ok 1) (λ d. insert_session (field lib redis vals "location_slug") (row d) d) db in
      let db2 = write_radius lib.decimal (λ i. ok (2 + i)) phone (duration_secs pl) pl db1 in
      let pm =
        confirmed_payment row_id (plan_ref db2 (field lib redis vals "plan_id") pl.name) phone
          pl.price_ugx (field lib redis vals "zengapay_ref") payment_id session_id in
      credit_payment_cases (λ i. ok (11 + i)) (field lib redis vals "location_slug") payment_id
        pl.price_ugx db db2 pm
        (insert_payment (ok 10) (field lib redis vals "location_slug") payment_id pm db2) h
        (λ l. (refl, refl, refl))
        (write_radius-view books (λ d rows. refl) (λ d rows. refl) (λ d rows. refl) lib.decimal
            (λ i. ok (2 + i)) phone (duration_secs pl) pl db1
          ∙ insert_session-view books (λ d rows. refl) (λ d rows. refl) (λ d rows. refl) (ok 1)
              (field lib redis vals "location_slug") row db)
        (insert_payment_cases (ok 10) (field lib redis vals "location_slug") payment_id pm db2)

  none-credits :
      (payment_id : String) (payments : List Payment)
      → exists (is_confirmed_for payment_id) payments ≡ false
      → credits payment_id payments ≡ 0
  unfolding credits select exists
  none-credits payment_id [] h = refl
  none-credits payment_id (x ∷ xs) h = ground (arith, none-credits payment_id xs)

  alone-credits :
      (other : String) (pm : Payment) (payments : List Payment)
      → credits other payments ≡ 0
      → credits other (pm ∷ payments) ≤ 1
  unfolding credits select
  alone-credits other pm payments h = ground arith

  other_portal :
      (payment_id other : String) (pm : Payment)
      → pm.portal_payment ≡ some payment_id
      → (payment_id == other) ≡ false
      → is_confirmed_for other pm ≡ false
  unfolding is_confirmed_for
  other_portal payment_id other pm portal differs =
      ap (λ o. same_option o (some other) && pm.status == "confirmed") portal
      ∙ ap (λ b. b && pm.status == "confirmed") differs

  unchanged :
      (other : String) (pm : Payment) (payments : List Payment)
      → is_confirmed_for other pm ≡ false
      → credits other (pm ∷ payments) ≡ credits other payments
  unfolding credits select
  unchanged other pm payments h = ground arith

  added-credits :
      (payment_id other : String) (pm : Payment) (payments : List Payment)
      → pm.portal_payment ≡ some payment_id
      → exists (is_confirmed_for payment_id) payments ≡ false
      → credits other payments ≤ 1
      → credits other (pm ∷ payments) ≤ 1
  added-credits payment_id other pm payments portal fresh h =
      elim (Bool-cases (payment_id == other)) [
        | inl same ↦ alone-credits other pm payments (
            none-credits other payments (
              subst (λ id. exists (is_confirmed_for id) payments ≡ false)
                (==→eq payment_id other same) fresh))
        | inr differs ↦
            subst (λ n. n ≤ 1)
              (sym (unchanged other pm payments (other_portal payment_id other pm portal differs)))
              h
      ]

  CreditsOnce-IsOnce :
      (payment_id : String) (amount : ℕ) (before after : Db)
      → CreditsOnce payment_id amount before after
      → IsOnce before
      → IsOnce after
  CreditsOnce-IsOnce payment_id amount before after (inl kept) once = record {
    at_most_one = λ other. subst (λ b. credits other b.0 ≤ 1) (sym kept) (once.at_most_one other);
  }
  CreditsOnce-IsOnce payment_id amount before after (inr (pm, c)) once = record {
    at_most_one = λ other.
        subst (λ ps. credits other ps ≤ 1) (sym c.added)
          (added-credits payment_id other pm before.payments c.portal_is c.is_first
            (once.at_most_one other));
  }

  start_session-IsOnce :
      (ok : ℕ → Bool) (now : ℕ) (session_id row_id payment_id phone : String)
      (vals : Table String String) (state : redis.Cache × Db)
      → ((id : String) → (get_plan_from_db (ok 0) state.1 id).price_ugx < 2 ^ 51)
      → IsOnce state.1
      → IsOnce (start_session lib redis ok now session_id row_id payment_id phone vals state).1
  start_session-IsOnce ok now session_id row_id payment_id phone [] (cache, db) prices once = once
  start_session-IsOnce ok now session_id row_id payment_id phone (entry ∷ rest) (cache, db) prices
        once =
      let vals = entry ∷ rest in
      let pl = get_plan_from_db (ok 0) db (field lib redis vals "plan_id") in
      CreditsOnce-IsOnce payment_id pl.price_ugx db
        (grant_paid_session lib redis ok now session_id row_id payment_id phone vals pl db)
        (grant_paid_session_cases ok now session_id row_id payment_id phone vals pl db
          (prices (field lib redis vals "plan_id")))
        once

  -- Whatever Redis holds and whichever statements reach the database, the job of a successful
  -- webhook keeps every portal payment credited at most once (plan prices below 2^51).
  pub create_session_after_payment-IsOnce :
      (ok : ℕ → Bool) (now : ℕ) (session_id row_id payment_id phone : String)
      (state : redis.Cache × Db)
      → ((id : String) → (get_plan_from_db (ok 0) state.1 id).price_ugx < 2 ^ 51)
      → IsOnce state.1
      → IsOnce
          (create_session_after_payment lib redis ok now session_id row_id payment_id phone state).1
  unfolding create_session_after_payment
  create_session_after_payment-IsOnce ok now session_id row_id payment_id phone state =
      start_session-IsOnce ok now session_id row_id payment_id phone
        (redis.hget_all now (payment_pending payment_id) state.0) state

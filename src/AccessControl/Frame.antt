-- ===== src/AccessControl/Frame.antt =====
-- The statements of a grant on other tables leave radcheck and radreply as they are.
use myfipay.Base.{
  ℕ, ◌≡◌, refl, ◌∙◌, String, Option, none, some, Bool, not, ◌&&◌, ◌||◌, if◌then◌else◌, if-cases,
  ◌==◌, string_eq, nat_eq,
}
use myfipay.Base.Int.{pos, pos_part}
use myfipay.Money.{agent_commission, agent_commission_rate}
use myfipay.Sql.{exists}
use myfipay.Db.{Db, Session, Payment, Referral}
use myfipay.Cache.{Redis}
use myfipay.Sessions.{
  insert_session_at, insert_payment, insert_payment_at, create_agent_commission, credit,
  referral_of, location_of, is_confirmed_for, same_option,
}
use myfipay.Webhook.{Library, credit_payment}
use myfipay.Operator.{insert_cash}
use myfipay.AccessControl.{after}

-- Two databases with the same RADIUS rows.
pub record SameRadius (a b : Db) : Type 0 where
  pub check : b.radcheck ≡ a.radcheck
  pub reply : b.radreply ≡ a.radreply

pub same : (db : Db) → SameRadius db db
same db = record { check = refl; reply = refl }

trans : {a b c : Db} → SameRadius a b → SameRadius b c → SameRadius a c
trans h g = record { check = g.check ∙ h.check; reply = g.reply ∙ h.reply }

pub insert_session_at-SameRadius :
    (location : Option String) (row : String → Session) (db : Db)
    → SameRadius db (insert_session_at location row db)
insert_session_at-SameRadius none row db = same db
insert_session_at-SameRadius (some l) row db =
    if-cases (λ after. SameRadius db after) (exists (λ s. s.id == (row l).id) db.sessions)
      (λ _. same db) (λ _. record { check = refl; reply = refl })

pub insert_cash-SameRadius :
    (location : Option String) (row : String → Payment) (db : Db)
    → SameRadius db (insert_cash location row db)
insert_cash-SameRadius none row db = same db
insert_cash-SameRadius (some l) row db =
    if-cases (λ after. SameRadius db after) (exists (λ pm. pm.id == (row l).id) db.payments)
      (λ _. same db) (λ _. record { check = refl; reply = refl })

insert_payment_at-SameRadius :
    (location : Option String) (payment_id : String) (row : String → Payment) (db : Db)
    → SameRadius db (insert_payment_at location payment_id row db).1
insert_payment_at-SameRadius none payment_id row db = same db
insert_payment_at-SameRadius (some l) payment_id row db =
    if-cases (λ (written : Option Payment × Db). SameRadius db written.1)
      (exists (is_confirmed_for payment_id) db.payments
        || exists (λ pm. same_option pm.zengapay_ref (row l).zengapay_ref) db.payments)
      (λ _. same db) (λ _. record { check = refl; reply = refl })

module _ (lib : Library) (redis : Redis) where
  credit-SameRadius :
      (reached : Bool) (ar : Option Referral) (payment_id : String) (amount : ℕ) (db : Db)
      → SameRadius db (credit lib.unspecified reached ar payment_id amount db)
  credit-SameRadius reached none payment_id amount db = same db
  credit-SameRadius reached (some ar) payment_id amount db =
      let share = pos_part (agent_commission lib.unspecified (pos amount) agent_commission_rate) in
      if-cases (λ after. SameRadius db after) (share == 0) (λ _. same db)
        (λ _.
          if-cases (λ after. SameRadius db after)
            (reached && not (exists (λ c. c.payment_id == payment_id) db.commissions))
            (λ _. record { check = refl; reply = refl }) (λ _. same db))

  credit_payment-SameRadius :
      (ok : ℕ → Bool) (slug : String) (amount : ℕ) (result : Option Payment × Db) (db : Db)
      → SameRadius db result.1
      → SameRadius db (credit_payment lib redis ok slug amount result)
  unfolding create_agent_commission
  credit_payment-SameRadius ok slug amount (none, after) db h = h
  credit_payment-SameRadius ok slug amount (some pm, after) db h =
      trans h (
        credit-SameRadius (ok 1) (if ok 0 then referral_of after slug else none) pm.id amount after)

  pub pay-SameRadius :
      (ok : ℕ → Bool) (slug payment_id : String) (amount : ℕ) (reached : Bool)
      (row : String → Payment) (db : Db)
      → SameRadius db
          (credit_payment lib redis ok slug amount (insert_payment reached slug payment_id row db))
  unfolding insert_payment
  pay-SameRadius ok slug payment_id amount reached row db =
      credit_payment-SameRadius ok slug amount (insert_payment reached slug payment_id row db) db (
        insert_payment_at-SameRadius (if reached then location_of db slug else none) payment_id row
          db)

-- ===== src/Sessions/Credit.antt =====
-- What the job of a payment writes to payments and commissions.
use myfipay.Base.{
  ℕ, ◌*◌, ◌/◌, ◌<◌, ◌≡◌, refl, ap, ◌⊎◌, inl, inr, String, List, ◌∷◌, Option, none, some, Bool, true,
  false, ◌||◌, ◌&&◌, not, select, length, if◌then◌else◌, ◌==◌, string_eq, ◌^◌,
}
use myfipay.Base.Int.{ℤ, pos, pos_part}
use myfipay.Float64.{Float64}
use myfipay.Sql.{exists}
use myfipay.Db.{Db, Payment, Commission, Referral}
use myfipay.Money.{agent_commission, agent_commission_rate}
use myfipay.Money.Exact.{agent_commission_exact}
use myfipay.Sessions.{
  location_of, is_confirmed_for, insert_payment, insert_payment_at, same_option, credit,
  referral_of, create_agent_commission,
}

-- The two tables that hold money.
abbrev pub books : Db → List Payment × List Commission
books db = (db.payments, db.commissions)

-- The payments that are credited to a portal payment.
unfoldable pub credits : String → List Payment → ℕ
unfolding select is_confirmed_for
credits payment_id payments = length (select (is_confirmed_for payment_id) payments)

abbrev pub Inserted : String → (String → Payment) → Db → Option Payment × Db → Type 0
Inserted payment_id row db (written, after) =
    ((written ≡ none) × (books after ≡ books db))
    ⊎ ((location : String) × (written ≡ some (row location))
        × (books after ≡ (row location ∷ db.payments, db.commissions))
        × (exists (is_confirmed_for payment_id) db.payments ≡ false)
        × (exists (λ pm. same_option pm.zengapay_ref (row location).zengapay_ref) db.payments
            ≡ false))

Inserted-if :
    (l payment_id : String) (row : String → Payment) (db : Db) (credited known : Bool)
    → exists (is_confirmed_for payment_id) db.payments ≡ credited
    → exists (λ pm. same_option pm.zengapay_ref (row l).zengapay_ref) db.payments ≡ known
    → Inserted payment_id row db (
        if credited || known
        then (none, db)
        else (some (row l), record db { payments = row l ∷ db.payments }))
Inserted-if l payment_id row db true known h g = inl (refl, refl)
Inserted-if l payment_id row db false true h g = inl (refl, refl)
Inserted-if l payment_id row db false false h g = inr (l, refl, refl, h, g)

insert_payment_at_cases :
    (location : Option String) (payment_id : String) (row : String → Payment) (db : Db)
    → Inserted payment_id row db (insert_payment_at location payment_id row db)
insert_payment_at_cases none payment_id row db = inl (refl, refl)
insert_payment_at_cases (some l) payment_id row db = Inserted-if l payment_id row db _ _ refl refl

pub insert_payment_cases :
    (reached : Bool) (slug payment_id : String) (row : String → Payment) (db : Db)
    → Inserted payment_id row db (insert_payment reached slug payment_id row db)
unfolding insert_payment
insert_payment_cases reached slug payment_id row db =
    insert_payment_at_cases (if reached then location_of db slug else none) payment_id row db

-- The commission of a payment: none, or 3 percent of it for that payment.
abbrev pub CommissionOf : String → ℕ → Db → Db → Type 0
CommissionOf payment_id amount before after =
    (after.payments ≡ before.payments)
    × ((after.commissions ≡ before.commissions)
        ⊎ ((c : Commission) × (after.commissions ≡ c ∷ before.commissions)
            × (c.payment_id ≡ payment_id)
            × (c.amount_ugx ≡ 3 * amount / 100)
            × (c.settled ≡ false)))

CommissionOf-if :
    (payment_id : String) (amount : ℕ) (db after : Db) (skip : Bool)
    → CommissionOf payment_id amount db after
    → CommissionOf payment_id amount db (if skip then db else after)
CommissionOf-if payment_id amount db after true h = (refl, inl refl)
CommissionOf-if payment_id amount db after false h = h

CommissionOf-added :
    (write : Bool) (row : Commission) (amount : ℕ) (db : Db)
    → row.amount_ugx ≡ 3 * amount / 100
    → row.settled ≡ false
    → CommissionOf row.payment_id amount db
        (if write then record db { commissions = row ∷ db.commissions } else db)
CommissionOf-added true row amount db h g = (refl, inr (row, refl, refl, h, g))
CommissionOf-added false row amount db h g = (refl, inl refl)

module _ (unspecified : Float64 → ℤ) where
  credit_cases :
      (reached : Bool) (referral : Option Referral) (payment_id : String) (amount : ℕ) (db : Db)
      → amount < 2 ^ 51
      → CommissionOf payment_id amount db (credit unspecified reached referral payment_id amount db)
  credit_cases reached none payment_id amount db h = (refl, inl refl)
  credit_cases reached (some ar) payment_id amount db h = CommissionOf-if payment_id amount db _ _ (
      CommissionOf-added (reached && not (exists (λ c. c.payment_id == payment_id) db.commissions))
        (record {
          agent_id = ar.agent_id;
          operator_id = ar.operator_id;
          payment_id = payment_id;
          amount_ugx = pos_part (agent_commission unspecified (pos amount) agent_commission_rate);
          settled = false;
        })
        amount db (ap pos_part (agent_commission_exact unspecified amount h).0) refl)

  pub create_agent_commission_cases :
      (ok : ℕ → Bool) (slug payment_id : String) (amount : ℕ) (db : Db)
      → amount < 2 ^ 51
      → CommissionOf payment_id amount db
          (create_agent_commission unspecified ok slug payment_id amount db)
  unfolding create_agent_commission
  create_agent_commission_cases ok slug payment_id amount db h =
      credit_cases (ok 1) (if ok 0 then referral_of db slug else none) payment_id amount db h

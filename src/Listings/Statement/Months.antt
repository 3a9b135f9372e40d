-- ===== src/Listings/Statement/Months.antt =====
-- Each payment of the balance is in one of the months of a statement.
use myfipay.Base.{
  ℕ, ◌≤◌, ◌≡◌, refl, ap, sym, ◌∙◌, String, List, [], ◌∷◌, ◌++◌, map, Option, none, some, Bool, true,
  false, ◌&&◌, arith, sum_by, length, if◌then◌else◌, ◌==◌, string_eq,
}
use myfipay.Sql.{exists}
use myfipay.Sql.Keys.{is_key, AllRows}
use myfipay.Sql.Rows.{weight, sum_by-select}
use myfipay.Sql.Joins.{present}
use myfipay.Db.{Db, Payment}
use myfipay.Sessions.{same_option}
use myfipay.Payout.{gross_mobile_money, is_platform_held}
use myfipay.Operator.{owns}
use myfipay.Listings.Statement.{
  MonthFigures, month_at, sale_month, payout_month, statement_months, is_mobile_in, month_figures,
  latest_months,
}
use myfipay.Sql.Sums.{
  swap_sums, once, exists-distinct, distinct-is_key, exists-append, AllRows-imp, AllRows-present,
  sum_by-rows, sum_by-map, length-sum, take-all, length-map, zeros,
}

abbrev pub is_some {ℓ} : {A : Type ℓ} → Option A → Bool
is_some none = false
is_some (some a) = true

-- What a payment adds to the months, by its own month.
share :
    (ms : List String) (o : Option String) (kept : Bool) (n : ℕ)
    → is_key (λ m. m) ms ≡ true
    → ((k : String) → o ≡ some k → exists (λ m. m == k) ms ≡ true)
    → sum_by (λ m. if same_option o (some m) && kept then n else 0) ms
      ≡ (if is_some o && kept then n else 0)
share ms none kept n key h = zeros ms
share ms (some k) kept n key h = once ms k kept n key (h k refl)

module _ (month_of : ℕ → String) (confirmed_at : Payment → Option ℕ) (db : Db)
    (tenant : String) where
  -- Every payment of the balance has the time of its confirmation.
  abbrev pub AllDated : Type 0
  AllDated =
      AllRows (λ pm. is_platform_held db tenant pm ≡ true → is_some (confirmed_at pm) ≡ true)
        db.payments

  kept_share :
      (n : ℕ) (confirmed mobile own : Bool) (at : Option ℕ)
      → (confirmed && mobile && own ≡ true → is_some at ≡ true)
      → (if is_some (if confirmed && own then month_at month_of at else none) && mobile
          then n
          else 0)
        ≡ (if confirmed && mobile && own then n else 0)
  kept_share n true true true none h = let dated = h refl in cc
  kept_share n true true true (some at) h = refl
  kept_share n true true false at h = refl
  kept_share n true false true none h = refl
  kept_share n true false true (some at) h = refl
  kept_share n true false false at h = refl
  kept_share n false mobile own at h = refl

  abbrev months : List String
  months = statement_months month_of confirmed_at db tenant

  -- The months are different, and that of each payment is among them.
  months-is_key : is_key (λ m. m) months ≡ true
  unfolding statement_months
  months-is_key = distinct-is_key (
      present (map (sale_month month_of confirmed_at db tenant) db.payments)
      ++ present (map (payout_month month_of confirmed_at tenant) db.payouts))

  months_cover :
      AllRows
        (λ pm.
          (k : String)
          → sale_month month_of confirmed_at db tenant pm ≡ some k
          → exists (λ m. m == k) months ≡ true)
        db.payments
  unfolding statement_months
  months_cover =
      AllRows-imp
        (λ pm listed k e.
          exists-distinct k _
          ∙ exists-append k _ (present (map (payout_month month_of confirmed_at tenant) db.payouts))
              (listed k e))
        db.payments (AllRows-present (sale_month month_of confirmed_at db tenant) db.payments)

  pay_share :
      (pm : Payment)
      → (is_platform_held db tenant pm ≡ true → is_some (confirmed_at pm) ≡ true)
      → ((k : String)
          → sale_month month_of confirmed_at db tenant pm ≡ some k
          → exists (λ m. m == k) months ≡ true)
      → sum_by
          (λ m. weight (is_mobile_in month_of confirmed_at db tenant m) (λ pm. pm.amount_ugx) pm)
          months
        ≡ weight (is_platform_held db tenant) (λ pm. pm.amount_ugx) pm
  unfolding sale_month is_platform_held owns
  pay_share pm dated listed =
      share months (sale_month month_of confirmed_at db tenant pm) (pm.method == "mobile_money")
        pm.amount_ugx months-is_key listed
      ∙ kept_share pm.amount_ugx (pm.status == "confirmed") (pm.method == "mobile_money")
          (owns db tenant pm.location_id) (confirmed_at pm) dated

  both :
      {P Q R : Payment → Type 0} (f : (pm : Payment) → P pm → Q pm → R pm) (rows : List Payment)
      → AllRows P rows
      → AllRows Q rows
      → AllRows R rows
  both f [] h g = tt
  both f (pm ∷ rest) (h, hs) (g, gs) = (f pm h g, both f rest hs gs)

  pub months_total :
      AllDated
      → sum_by (λ m. (month_figures month_of confirmed_at db tenant m).mobile_money) months
        ≡ gross_mobile_money db tenant
  unfolding month_figures gross_mobile_money
  months_total dated =
      ap (λ f. sum_by f months)
        (λ i m.
          sum_by-select (is_mobile_in month_of confirmed_at db tenant m) (λ pm. pm.amount_ugx)
            db.payments i)
      ∙ swap_sums
          (λ m. weight (is_mobile_in month_of confirmed_at db tenant m) (λ pm. pm.amount_ugx))
          months db.payments
      ∙ sum_by-rows
          (λ pm.
            sum_by
              (λ m.
                weight (is_mobile_in month_of confirmed_at db tenant m) (λ pm. pm.amount_ugx) pm)
              months)
          (weight (is_platform_held db tenant) (λ pm. pm.amount_ugx)) db.payments
          (both pay_share db.payments dated months_cover)
      ∙ sym (sum_by-select (is_platform_held db tenant) (λ pm. pm.amount_ugx) db.payments)

  -- Twelve months or fewer are all shown, in whatever order.
  pub latest_total :
      (newest : List MonthFigures → List MonthFigures)
      → ((f : MonthFigures → ℕ) (rows : List MonthFigures) → sum_by f (newest rows) ≡ sum_by f rows)
      → length months ≤ 12
      → AllDated
      → sum_by (λ m. m.mobile_money) (latest_months month_of confirmed_at newest db tenant)
        ≡ gross_mobile_money db tenant
  unfolding latest_months
  latest_total newest reorders few dated =
      let rows = map (month_figures month_of confirmed_at db tenant) months in
      ap (λ shown. sum_by (λ m. m.mobile_money) shown)
        (take-all 12 (newest rows) (
          omega (
            arith,
            length-sum (newest rows),
            length-sum rows,
            reorders (λ m. 1) rows,
            length-map (month_figures month_of confirmed_at db tenant) months,
          )))
      ∙ reorders (λ m. m.mobile_money) rows
      ∙ sum_by-map (λ m. m.mobile_money) (month_figures month_of confirmed_at db tenant) months
      ∙ months_total dated

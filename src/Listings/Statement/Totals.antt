-- ===== src/Listings/Statement/Totals.antt =====
-- The months of a statement add up to the revenue of the balance.
use myfipay.Base.{
  ℕ, ◌+◌, ◌*◌, ◌/◌, ◌≤◌, ◌<◌, ◌≡◌, refl, ap, sym, ◌∙◌, String, List, [], ◌∷◌, map, Option, Bool,
  true, arith, sum_by, length, length-take, string_eq,
}
use myfipay.Base.Int.{ℤ, pos, pos_part}
use myfipay.Db.{Db, Payment}
use myfipay.Payout.{tenant_balance, rate_setting, gross_mobile_money}
use myfipay.Float64.{Float64}
use myfipay.Money.{platform_commission, default_commission_rate, parse_commission_rate}
use myfipay.Money.Exact.{exact_limit, platform_commission_exact}
use myfipay.Http.{respond}
use myfipay.Middleware.{UserClaims}
use myfipay.Listings.Statement.{
  Statement, operator_statement, MonthFigures, MonthRow, statement_months, month_figures,
  latest_months, month_row,
}
use myfipay.Sql.Sums.{sum_by-map}
use myfipay.Listings.Statement.Months.{AllDated, latest_total}

-- What a statement says that its months add up to.
pub record AddsUp (st : Statement) : Type 0 where
  pub revenue :
      sum_by (λ m. pos_part m.mobile_money_ugx) st.months ≡ pos_part st.gross_mobile_money_ugx
  pub fees_within : sum_by (λ m. pos_part m.platform_fee_ugx) st.months ≤ pos_part st.commission_ugx
  pub fees_reach :
      pos_part st.commission_ugx ≤ sum_by (λ m. pos_part m.platform_fee_ugx) st.months + 12

module _ (month_of : ℕ → String) (confirmed_at : Payment → Option ℕ)
    (unspecified : Float64 → ℤ) where
  abbrev fee_row : MonthFigures → MonthRow
  fee_row m = month_row month_of confirmed_at unspecified default_commission_rate m

  -- The truncated fees of the rows, and the truncated fee of their sum.
  fees :
      (rows : List MonthFigures)
      → sum_by (λ m. m.mobile_money) rows < exact_limit
      → (sum_by (λ m. pos_part (fee_row m).platform_fee_ugx) rows
          ≤ 8 * sum_by (λ m. m.mobile_money) rows / 100)
        × (8 * sum_by (λ m. m.mobile_money) rows / 100
            ≤ sum_by (λ m. pos_part (fee_row m).platform_fee_ugx) rows + length rows)
  unfolding sum_by month_row
  fees [] h = (omega arith, omega arith)
  fees (m ∷ rows) h =
      let (low, high) = fees rows (omega (arith, h)) in
      let exact =
        ap pos_part (platform_commission_exact unspecified m.mobile_money (omega (arith, h))) in
      (omega (arith, low, exact), omega (arith, high, exact))

  -- The rows of a statement at the default rate add up.
  rows-AddsUp :
      (rows : List MonthFigures) (gross : ℕ) (st : Statement)
      → st.months ≡ map fee_row rows
      → st.gross_mobile_money_ugx ≡ pos gross
      → st.commission_ugx ≡ platform_commission unspecified (pos gross) default_commission_rate
      → sum_by (λ m. m.mobile_money) rows ≡ gross
      → length rows ≤ 12
      → gross < exact_limit
      → AddsUp st
  unfolding month_row
  rows-AddsUp rows gross st months at_gross commission total few small =
      let (low, high) = fees rows (omega (arith, total, small)) in
      let fee_sum =
        ap (sum_by (λ m. pos_part m.platform_fee_ugx)) months
        ∙ sum_by-map (λ m. pos_part m.platform_fee_ugx) fee_row rows in
      let share = ap pos_part (commission ∙ platform_commission_exact unspecified gross small) in
      record {
        revenue =
            ap (sum_by (λ m. pos_part m.mobile_money_ugx)) months
            ∙ sum_by-map (λ m. pos_part m.mobile_money_ugx) fee_row rows
            ∙ total
            ∙ sym (ap pos_part at_gross);
        fees_within = omega (arith, low, share, fee_sum, total);
        fees_reach = omega (arith, high, share, fee_sum, total, few);
      }

  rate_in_force :
      (parse_float : String → Option Float64) (text : String)
      → text ≡ ""
      → parse_commission_rate parse_float text default_commission_rate ≡ default_commission_rate
  unfolding parse_commission_rate
  rate_in_force parse_float text e =
      ap (λ t. parse_commission_rate parse_float t default_commission_rate) e

  -- The statement where every query goes through.
  answered :
      (parse_float : String → Option Float64) (newest : List MonthFigures → List MonthFigures)
      (claims : UserClaims) (db : Db)
      → (st : Statement) × (operator_statement month_of confirmed_at unspecified parse_float
            (λ i. true)
            newest
            claims
            db
          ≡ respond 200 st)
  unfolding operator_statement tenant_balance
  answered parse_float newest claims db = (_, refl)

  -- When its statements go through, the commission rate is the default, the revenue is below 2^51, at
  -- most twelve months have sales or payouts, and every payment of the revenue is dated, an operator is
  -- answered a statement whose months add up: their revenue is the gross revenue of the balance, and their
  -- fees are at most its commission, and at most 12 UGX less. An ORDER BY keeps the sum of any column.
  pub operator_statement-AddsUp :
      (parse_float : String → Option Float64) (ok : ℕ → Bool)
      (newest : List MonthFigures → List MonthFigures) (claims : UserClaims) (db : Db)
      → ((i : ℕ) → ok i ≡ true)
      → ((f : MonthFigures → ℕ) (rows : List MonthFigures) → sum_by f (newest rows) ≡ sum_by f rows)
      → rate_setting db claims.tenant_id ≡ ""
      → gross_mobile_money db claims.tenant_id < exact_limit
      → length (statement_months month_of confirmed_at db claims.tenant_id) ≤ 12
      → AllDated month_of confirmed_at db claims.tenant_id
      → (st : Statement) × (operator_statement month_of confirmed_at unspecified parse_float ok
            newest claims db
          ≡ respond 200 st)
        × AddsUp st
  unfolding operator_statement tenant_balance latest_months answered
  operator_statement-AddsUp parse_float ok newest claims db all reorders rate small few dated =
      let tenant = claims.tenant_id in
      let gross = gross_mobile_money db tenant in
      let rows = latest_months month_of confirmed_at newest db tenant in
      let default = rate_in_force parse_float (rate_setting db tenant) rate in
      let statement = answered parse_float newest claims db in
      let at = λ (f : ℕ → Bool).
        operator_statement month_of confirmed_at unspecified parse_float f newest claims db in
      (
        statement.0,
        ap at (λ i n. all n i) ∙ statement.1,
        rows-AddsUp rows gross statement.0
            (ap (λ r. map (month_row month_of confirmed_at unspecified r) rows) default) refl
            (ap (λ r. platform_commission unspecified (pos gross) r) default)
            (latest_total month_of confirmed_at db tenant newest reorders few dated)
            (omega (
              arith,
              length-take 12 (
                  newest (
                    map (month_figures month_of confirmed_at db tenant)
                      (statement_months month_of confirmed_at db tenant))),
            ))
            small,
      )

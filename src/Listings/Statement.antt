-- ===== src/Listings/Statement.antt =====
-- The earnings of an operator, month by month (api/internal/handlers/payout.go: OperatorStatement).
-- `month_of` is to_char(..., 'YYYY-MM'); `confirmed_at` is the column of a payment.
pub mod Months
pub mod Totals
use myfipay.Base.{
  ℕ, String, List, [], ◌∷◌, ◌++◌, map, Option, none, some, Bool, ◌&&◌, not, select, sum_by, length,
  take, if◌then◌else◌, ◌==◌, string_eq,
}
use myfipay.Base.Int.{ℤ, pos, ◌-ℤ◌}
use myfipay.Float64.{Float64}
use myfipay.Http.{Reply, respond, respond_error}
use myfipay.Sql.{exists}
use myfipay.Sql.Joins.{present, distinct}
use myfipay.Db.{Db, Payment, Payout, PayoutStatus, paid, status_eq}
use myfipay.Middleware.{UserClaims}
use myfipay.Money.{platform_commission, agent_commission_rate}
use myfipay.Sessions.{same_option}
use myfipay.Payout.{Balance, tenant_balance}
use myfipay.Operator.{owns}
use myfipay.Listings.Sales.{figure}

-- A row of the query: pay FULL OUTER JOIN po.
pub record MonthFigures : Type 0 where
  pub month : String
  pub mobile_money : ℕ
  pub cash : ℕ
  pub payments : ℕ
  pub payouts_paid : ℕ

pub record MonthRow : Type 0 where
  pub month : String
  pub mobile_money_ugx : ℤ
  pub platform_fee_ugx : ℤ
  pub net_earned_ugx : ℤ
  pub cash_ugx : ℕ
  pub payments : ℕ
  pub payouts_paid_ugx : ℕ

pub record Statement : Type 0 where
  pub fee_rate : Float64
  pub agent_rate : Float64
  pub gross_mobile_money_ugx : ℤ
  pub commission_ugx : ℤ
  pub available_ugx : ℤ
  pub paid_out_ugx : ℕ
  pub months : List MonthRow

-- SELECT COALESCE(SUM(amount_ugx), 0) FROM payouts WHERE tenant_id = $1 AND status = 'paid'
unfoldable pub paid_out : Db → String → ℕ
unfolding select sum_by
paid_out db tenant =
    sum_by (λ po. po.amount_ugx)
      (select (λ po. po.tenant_id == tenant && po.status == paid) db.payouts)

abbrev pub month_at : (ℕ → String) → Option ℕ → Option String
month_at month_of none = none
month_at month_of (some at) = some (month_of at)

module _ (month_of : ℕ → String) (confirmed_at : Payment → Option ℕ) where
  -- The month of a payment that the query counts: confirmed, at a location of the tenant, and dated.
  unfoldable pub sale_month : Db → String → Payment → Option String
  unfolding owns
  sale_month db tenant pm =
      if pm.status == "confirmed" && owns db tenant pm.location_id
      then month_at month_of (confirmed_at pm)
      else none

  unfoldable pub payout_month : String → Payout → Option String
  payout_month tenant po =
      if po.tenant_id == tenant && po.status == paid then month_at month_of po.paid_at else none

  -- The months of either side, each once.
  unfoldable pub statement_months : Db → String → List String
  unfolding sale_month payout_month present distinct
  statement_months db tenant = distinct (
      present (map (sale_month db tenant) db.payments)
      ++ present (map (payout_month tenant) db.payouts))

  abbrev pub is_mobile_in : Db → String → String → Payment → Bool
  is_mobile_in db tenant month pm =
      same_option (sale_month db tenant pm) (some month) && pm.method == "mobile_money"

  unfoldable pub month_figures : Db → String → String → MonthFigures
  unfolding sale_month payout_month select sum_by
  month_figures db tenant month =
      let sales = select (λ pm. same_option (sale_month db tenant pm) (some month)) db.payments in
      let cash = select (λ (pm : Payment). not (pm.method == "mobile_money")) sales in
      let payouts = select (λ po. same_option (payout_month tenant po) (some month)) db.payouts in
      record {
        month = month;
        mobile_money =
            sum_by (λ pm. pm.amount_ugx) (select (is_mobile_in db tenant month) db.payments);
        cash = sum_by (λ pm. pm.amount_ugx) cash;
        payments = length sales;
        payouts_paid = sum_by (λ po. po.amount_ugx) payouts;
      }

  -- At most twelve months, the latest first.
  unfoldable pub latest_months :
      (List MonthFigures → List MonthFigures) → Db → String → List MonthFigures
  unfolding statement_months month_figures
  latest_months newest db tenant =
      take 12 (newest (map (month_figures db tenant) (statement_months db tenant)))

  module _ (unspecified : Float64 → ℤ) where
    -- The fee and the rest, which the loop over the rows adds.
    unfoldable pub month_row : Float64 → MonthFigures → MonthRow
    unfolding platform_commission ◌-ℤ◌
    month_row rate m =
        let fee = platform_commission unspecified (pos m.mobile_money) rate in
        record {
          month = m.month;
          mobile_money_ugx = pos m.mobile_money;
          platform_fee_ugx = fee;
          net_earned_ugx = pos m.mobile_money -ℤ fee;
          cash_ugx = m.cash;
          payments = m.payments;
          payouts_paid_ugx = m.payouts_paid;
        }

    unfoldable pub operator_statement :
        (String → Option Float64)
        → (ℕ → Bool)
        → (List MonthFigures → List MonthFigures)
        → UserClaims
        → Db
        → Reply Statement
    unfolding tenant_balance paid_out latest_months month_row
    operator_statement parse_float ok newest claims db =
        let balance = tenant_balance unspecified parse_float ok db claims.tenant_id in
        if ok 4
        then respond 200 (record {
          fee_rate = balance.rate;
          agent_rate = agent_commission_rate;
          gross_mobile_money_ugx = balance.gross;
          commission_ugx = balance.commission;
          available_ugx = balance.available;
          paid_out_ugx = figure (ok 3) (paid_out db claims.tenant_id);
          months = map (month_row balance.rate) (latest_months newest db claims.tenant_id);
        })
        else respond_error 500 "DB_ERROR" "query failed"

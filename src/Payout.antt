-- ===== src/Payout.antt =====
-- api/internal/handlers/payout.go: an operator's balance, withdrawal requests, and the admin's
-- queue. A handler takes the database, the decoded body where it reads one (`none`: not decoded),
-- and `ok`, which says which of its statements reach the database; it gives the answer and the
-- database afterwards. An id is the uuid drawn for the call.
pub mod Requests
pub mod Covered
pub mod Claims
pub mod Lifecycle
pub mod History
pub mod Safety
pub mod Races
mod Tests
use myfipay.Base.{
  ℕ, ◌<◌, ◌≤◌, ◌⊎◌, inl, inr, String, List, [], ◌∷◌, ◌++◌, Option, none, some, Bool, true, false,
  ◌&&◌, ◌||◌, not, leb, select, sum_by, if◌then◌else◌, ◌==◌, string_eq, nat_eq,
}
use myfipay.Base.Int.{ℤ, pos, negsuc, ltb_ℤ, pos_part}
use myfipay.Float64.{Float64}
use myfipay.Sql.{update_where, exists, first, scan}
use myfipay.Http.{Reply, respond, respond_error}
use myfipay.Text.{trim_space}
use myfipay.Db.{
  Db, Tenant, Location, Payment, Payout, PayoutStatus, pending, approved, paid, rejected, status_eq,
}
use myfipay.Money.{
  platform_commission, operator_available, parse_commission_rate, default_commission_rate,
  min_payout_ugx,
}

-- NULLIF(s, '')
abbrev pub nullif : String → Option String
nullif s = if s == "" then none else some s

-- An INTEGER column with CHECK (amount_ugx > 0).
abbrev pub fits_amount : ℕ → Bool
fits_amount n = leb 1 n && leb n 0x7fff_ffff

-- The rows that JOIN locations ... WHERE tenant, confirmed and mobile money keeps.
unfoldable pub is_platform_held : Db → String → Payment → Bool
is_platform_held db tenant_id pm =
    pm.status == "confirmed"
    && pm.method == "mobile_money"
    && exists (λ l. l.id == pm.location_id && l.tenant_id == tenant_id) db.locations

unfoldable pub gross_mobile_money : Db → String → ℕ
unfolding is_platform_held exists select sum_by
gross_mobile_money db tenant_id =
    sum_by (λ pm. pm.amount_ugx) (select (is_platform_held db tenant_id) db.payments)

-- status IN ('pending', 'approved', 'paid')
unfoldable pub ties_balance : PayoutStatus → Bool
ties_balance rejected = false
ties_balance pending = true
ties_balance approved = true
ties_balance paid = true

unfoldable pub claimed : Db → String → ℕ
unfolding select sum_by ties_balance
claimed db tenant_id =
    sum_by (λ po. po.amount_ugx)
      (select (λ po. po.tenant_id == tenant_id && ties_balance po.status) db.payouts)

-- COALESCE(settings->>'commission_rate', '') of the tenant's row; no row is an error of Scan.
abbrev tenant_setting : Option Tenant → String
tenant_setting none = ""
tenant_setting (some t) = t.commission_rate

unfoldable pub rate_setting : Db → String → String
unfolding first
rate_setting db tenant_id = tenant_setting (first (λ t. t.id == tenant_id) db.tenants)

pub record Balance : Type 0 where
  pub gross : ℤ
  pub commission : ℤ
  pub withdrawn : ℤ
  pub available : ℤ
  pub rate : Float64

pub record PayoutForm : Type 0 where
  pub amount_ugx : ℤ
  pub momo_phone : String
  pub momo_name : String
  pub note : String

-- What RequestOperatorPayout answers: the new id and the amount.
abbrev pub Created : Type 0
Created = String × ℤ

-- The row of the INSERT.
abbrev new_payout : String → String → String → PayoutForm → Payout
new_payout tenant_id user_id id req = record {
  id = id;
  tenant_id = tenant_id;
  requested_by = user_id;
  amount_ugx = pos_part req.amount_ugx;
  momo_phone = trim_space req.momo_phone;
  momo_name = nullif req.momo_name;
  note = nullif req.note;
  status = pending;
  reference = none;
  rejection_reason = none;
  reviewed_by = none;
  reviewed_at = none;
  paid_at = none;
}

-- The INSERT, which fails when it does not reach the database or breaks the column's limits.
unfoldable pub insert_payout : Bool → Db → Payout → Reply Created × Db
insert_payout reached db po =
    if reached && fits_amount po.amount_ugx
    then (respond 201 (po.id, pos po.amount_ugx), record db { payouts = po ∷ db.payouts })
    else (respond_error 500 "DB_ERROR" "could not create payout request", db)

abbrev finish_request : Bool → Db → Reply Created ⊎ Payout → Reply Created × Db
finish_request reached db (inl answer) = (answer, db)
finish_request reached db (inr po) = insert_payout reached db po

module _ (unspecified : Float64 → ℤ) (parse_float : String → Option Float64) where
  -- Each of the three reads that fails leaves its variable at the zero value.
  unfoldable pub tenant_balance : (ℕ → Bool) → Db → String → Balance
  tenant_balance ok db tenant_id =
      let rate =
        parse_commission_rate parse_float (scan (ok 0) (rate_setting db tenant_id) "")
          default_commission_rate in
      let gross = scan (ok 1) (pos (gross_mobile_money db tenant_id)) (pos 0) in
      let withdrawn = scan (ok 2) (pos (claimed db tenant_id)) (pos 0) in
      record {
        gross = gross;
        commission = platform_commission unspecified gross rate;
        withdrawn = withdrawn;
        available = operator_available unspecified gross rate withdrawn;
        rate = rate;
      }

  -- The checks of a request, up to the INSERT: an answer, or the row to insert.
  unfoldable pub check_request :
      (ℕ → Bool) → Db → String → String → String → Option PayoutForm → Reply Created ⊎ Payout
  check_request ok db tenant_id user_id id none =
      inl (respond_error 400 "VALIDATION_ERROR" "invalid request body")
  check_request ok db tenant_id user_id id (some req) =
      if trim_space req.momo_phone == ""
      then inl (respond_error 422 "VALIDATION_ERROR" "momo_phone is required")
      else if ltb_ℤ req.amount_ugx min_payout_ugx
      then inl (respond_error 422 "AMOUNT_TOO_LOW" "minimum withdrawal is UGX 5,000")
      else if ltb_ℤ (tenant_balance ok db tenant_id).available req.amount_ugx
      then inl
          (respond_error 422 "INSUFFICIENT_BALANCE" "requested amount exceeds available balance")
      else inr (new_payout tenant_id user_id id req)

  unfoldable pub request_operator_payout :
      (ℕ → Bool) → Db → String → String → String → Option PayoutForm → Reply Created × Db
  request_operator_payout ok db tenant_id user_id id req =
      finish_request (ok 3) db (check_request ok db tenant_id user_id id req)

-- The answer to a guarded UPDATE: an error, nothing affected, or done.
abbrev answer_update : Bool → ℕ → String → String → Reply String
answer_update reached affected missing done =
    if not reached
    then respond_error 500 "DB_ERROR" "update failed"
    else if affected == 0
    then respond_error 404 "NOT_FOUND" missing
    else respond 200 done

-- An UPDATE of payouts ... WHERE id = $1 AND status ...
update_payouts :
    Bool → Db → (Payout → Bool) → (Payout → Payout) → String → String → Reply String × Db
unfolding update_where
update_payouts reached db guard change missing done =
    let (rows, affected) = update_where guard change db.payouts in
    (
      answer_update reached affected missing done,
      if reached then record db { payouts = rows } else db,
    )

unfoldable pub approve_payout : Bool → Db → String → String → ℕ → Reply String × Db
unfolding update_payouts
approve_payout reached db id user_id now =
    update_payouts reached db (λ po. po.id == id && po.status == pending)
      (λ po. record po { status = approved; reviewed_by = some user_id; reviewed_at = some now })
      "pending payout not found" "approved"

unfoldable pub reject_payout : Bool → Db → String → String → String → ℕ → Reply String × Db
unfolding update_payouts
reject_payout reached db id reason user_id now =
    update_payouts reached db (λ po. po.id == id && (po.status == pending || po.status == approved))
      (λ po. record po {
        status = rejected;
        rejection_reason = nullif reason;
        reviewed_by = some user_id;
        reviewed_at = some now;
      })
      "payout not found or already settled" "rejected"

unfoldable pub mark_operator_payout_paid : Bool → Db → String → String → ℕ → Reply String × Db
unfolding update_payouts
mark_operator_payout_paid reached db id reference now =
    update_payouts reached db (λ po. po.id == id && po.status == approved)
      (λ po. record po { status = paid; reference = nullif reference; paid_at = some now })
      "approved payout not found" "paid"

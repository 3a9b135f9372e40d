-- ===== src/Listings/Payouts.antt =====
-- What operators and agents are shown of their payouts, and the admin of all payouts
-- (api/internal/handlers/payout.go, agent.go, admin.go). A time that the clock of the database fills is
-- a parameter.
use myfipay.Base.{
  ℕ, String, List, map, Option, Bool, ◌&&◌, ◌||◌, coalesce, select, take, ◌==◌, string_eq,
}
use myfipay.Base.Int.{ℤ}
use myfipay.Float64.{Float64}
use myfipay.Http.{Reply, respond}
use myfipay.Sql.Joins.{join}
use myfipay.Db.{
  Db, Tenant, User, Payout, PayoutRequest, PayoutStatus, pending, approved, paid, rejected,
  status_eq,
}
use myfipay.Middleware.{UserClaims}
use myfipay.Money.{min_payout_ugx}
use myfipay.Payout.{Balance, tenant_balance}
use myfipay.Listings.{listing}

-- The text of a status, as the column has it.
abbrev pub status_text : PayoutStatus → String
status_text pending = "pending"
status_text approved = "approved"
status_text paid = "paid"
status_text rejected = "rejected"

-- The balance of tenantBalance, with the smallest payout.
unfoldable pub get_payout_balance :
    (Float64 → ℤ) → (String → Option Float64) → (ℕ → Bool) → UserClaims → Db → Reply (Balance × ℤ)
unfolding tenant_balance
get_payout_balance unspecified parse_float ok claims db =
    respond 200 (tenant_balance unspecified parse_float ok db claims.tenant_id, min_payout_ugx)

pub record PayoutRow : Type 0 where
  pub id : String
  pub tenant_id : String
  pub tenant_name : String
  pub amount_ugx : ℕ
  pub momo_phone : String
  pub momo_name : String
  pub status : String
  pub reference : String
  pub note : String
  pub rejection_reason : String
  pub requested_at : ℕ
  pub paid_at : Option ℕ

-- An operator is shown the reference, the admin the tenant.
abbrev pub payout_row : (String → ℕ) → String → String → String → Payout → PayoutRow
payout_row requested_at tenant_id tenant_name reference po = record {
  id = po.id;
  tenant_id = tenant_id;
  tenant_name = tenant_name;
  amount_ugx = po.amount_ugx;
  momo_phone = po.momo_phone;
  momo_name = coalesce po.momo_name "";
  status = status_text po.status;
  reference = reference;
  note = coalesce po.note "";
  rejection_reason = coalesce po.rejection_reason "";
  requested_at = requested_at po.id;
  paid_at = po.paid_at;
}

-- FROM payouts WHERE tenant_id = $1, at most 200
unfoldable pub list_payouts :
    Bool
    → (String → ℕ)
    → (List PayoutRow → List PayoutRow)
    → UserClaims
    → Db
    → Reply (List PayoutRow)
unfolding select
list_payouts reached requested_at newest claims db = listing reached "query failed" (
    take 200 (
      newest (
        map (λ po. payout_row requested_at "" "" (coalesce po.reference "") po)
          (select (λ po. po.tenant_id == claims.tenant_id) db.payouts))))

-- payouts po JOIN tenants t ..., of one status or of all, at most 300
unfoldable pub list_payout_queue :
    Bool → (String → ℕ) → (List PayoutRow → List PayoutRow) → String → Db → Reply (List PayoutRow)
unfolding join select
list_payout_queue reached requested_at newest status db = listing reached "query failed" (
    take 300 (
      newest (
        map (λ (pt : Payout × Tenant). payout_row requested_at pt.0.tenant_id pt.1.name "" pt.0)
          (select (λ (pt : Payout × Tenant). status == "" || status_text pt.0.status == status)
            (join (λ (po : Payout) t. po.tenant_id == t.id) db.payouts db.tenants)))))

pub record RequestRow : Type 0 where
  pub id : String
  pub agent_name : String
  pub agent_email : String
  pub amount_ugx : ℕ
  pub method : String
  pub phone : String
  pub status : String
  pub notes : String
  pub admin_notes : String
  pub requested_at : ℕ
  pub processed_at : Option ℕ

-- An agent is not shown whose request it is, nor the notes of the admin.
abbrev pub request_row : (String → ℕ) → String → String → String → PayoutRequest → RequestRow
request_row requested_at agent_name agent_email admin_notes pr = record {
  id = pr.id;
  agent_name = agent_name;
  agent_email = agent_email;
  amount_ugx = pr.amount_ugx;
  method = pr.method;
  phone = pr.phone;
  status = status_text pr.status;
  notes = pr.notes;
  admin_notes = admin_notes;
  requested_at = requested_at pr.id;
  processed_at = pr.processed_at;
}

unfoldable pub list_payout_requests :
    Bool
    → (String → ℕ)
    → (List RequestRow → List RequestRow)
    → UserClaims
    → Db
    → Reply (List RequestRow)
unfolding select
list_payout_requests reached requested_at newest claims db = listing reached "query failed" (
    newest (
      map (request_row requested_at "" "" "")
        (select (λ pr. pr.agent_id == claims.tenant_id) db.payout_requests)))

-- payout_requests pr JOIN tenants t ... JOIN users u ON ... u.role = 'agent', at most 200
unfoldable pub list_all_payout_requests :
    Bool
    → (String → ℕ)
    → (List RequestRow → List RequestRow)
    → String
    → Db
    → Reply (List RequestRow)
unfolding join select
list_all_payout_requests reached requested_at newest status db =
    let named =
      join (λ (pr : PayoutRequest) t. pr.agent_id == t.id) db.payout_requests db.tenants in
    let rows =
      join (λ (pt : PayoutRequest × Tenant) u. u.tenant_id == pt.1.id && u.role == "agent") named
        db.users in
    listing reached "query failed" (
      take 200 (
        newest (
          map
            (λ (ptu : (PayoutRequest × Tenant) × User).
              request_row requested_at ptu.0.1.name ptu.1.email ptu.0.0.admin_notes ptu.0.0)
            (select
              (λ (ptu : (PayoutRequest × Tenant) × User).
                status == "" || status_text ptu.0.0.status == status)
              rows))))

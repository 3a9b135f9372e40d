-- ===== src/Listings/Agents.antt =====
-- What an agent is shown of its balance, operators and commissions (api/internal/handlers/agent.go).
use myfipay.Base.{
  ℕ, String, List, map, Option, none, some, Bool, not, ◌&&◌, select, sum_by, length, take, nat_beq,
  if◌then◌else◌, ◌==◌, string_eq,
}
use Prim.Native.String.{◌++◌ as concat}
use myfipay.Base.Int.{ℤ}
use myfipay.Float64.{Float64}
use myfipay.Http.{Reply, respond}
use myfipay.Sql.{first}
use myfipay.Sql.Joins.{join}
use myfipay.Db.{Db, Tenant, Referral, Commission, pending, status_eq}
use myfipay.Middleware.{UserClaims}
use myfipay.AgentPayouts.{earned, agent_balance}
use myfipay.Listings.{listing}
use myfipay.Listings.Sales.{figure}

pub record AgentStats : Type 0 where
  pub operator_count : ℕ
  pub total_earned_ugx : ℕ
  pub pending_commission : ℕ
  pub available_balance : ℤ
  pub pending_payouts : ℕ

-- Statements 1 and 3 are the sums that the balance is computed from.
unfoldable pub agent_dashboard : (Float64 → ℤ) → (ℕ → Bool) → UserClaims → Db → Reply AgentStats
unfolding select sum_by earned agent_balance
agent_dashboard unspecified ok claims db =
    let agent = claims.tenant_id in
    let waiting = select (λ c. c.agent_id == agent && not c.settled) db.commissions in
    let sums = λ (i : ℕ). if nat_beq i 0 then ok 1 else ok 3 in
    respond 200 (record {
      operator_count = figure (ok 0) (length (select (λ ar. ar.agent_id == agent) db.referrals));
      total_earned_ugx = figure (ok 1) (earned db agent);
      pending_commission = figure (ok 2) (sum_by (λ c. c.amount_ugx) waiting);
      available_balance = agent_balance unspecified sums db agent;
      pending_payouts =
          figure (ok 4) (
            length
              (select (λ pr. pr.agent_id == agent && pr.status == pending) db.payout_requests));
    })

abbrev slug_of : Option Tenant → String
slug_of none = ""
slug_of (some t) = t.slug

-- The code and the address to sign up at.
unfoldable pub agent_invite_link : Bool → UserClaims → Db → Reply (String × String)
unfolding first
agent_invite_link reached claims db =
    let slug =
      slug_of (if reached then first (λ t. t.id == claims.tenant_id) db.tenants else none) in
    respond 200 (slug, concat "https://myfipay.com/signup?agent=" slug)

pub record OperatorRow : Type 0 where
  pub id : String
  pub name : String
  pub status : String
  pub joined_at : ℕ
  pub total_commission_ugx : ℕ

-- What the agent earned from one operator; a LEFT JOIN without a match sums to 0.
unfoldable pub earned_from : Db → String → String → ℕ
unfolding select sum_by
earned_from db agent operator =
    sum_by (λ c. c.amount_ugx)
      (select (λ c. c.operator_id == operator && c.agent_id == agent) db.commissions)

-- agent_referrals ar JOIN tenants t ON ar.operator_id = t.id LEFT JOIN commissions c ...
unfoldable pub agent_operators :
    Bool
    → (Referral → ℕ)
    → (List OperatorRow → List OperatorRow)
    → UserClaims
    → Db
    → Reply (List OperatorRow)
unfolding join select earned_from
agent_operators reached joined_at newest claims db = listing reached "query failed" (
    newest (
      map
        (λ (at : Referral × Tenant). record {
          id = at.1.id;
          name = at.1.name;
          status = at.1.status;
          joined_at = joined_at at.0;
          total_commission_ugx = earned_from db claims.tenant_id at.1.id;
        })
        (select (λ (at : Referral × Tenant). at.0.agent_id == claims.tenant_id)
          (join (λ (ar : Referral) t. ar.operator_id == t.id) db.referrals db.tenants))))

pub record CommissionRow : Type 0 where
  pub id : String
  pub operator_name : String
  pub amount_ugx : ℕ
  pub rate_pct : Float64
  pub status : String
  pub created_at : ℕ

-- commissions c JOIN tenants t ON c.operator_id = t.id, at most 200; the columns id, rate_pct and
-- created_at are a parameter.
unfoldable pub agent_commissions :
    Bool
    → (Commission → String × Float64 × ℕ)
    → (List CommissionRow → List CommissionRow)
    → UserClaims
    → Db
    → Reply (List CommissionRow)
unfolding join select
agent_commissions reached column newest claims db = listing reached "query failed" (
    take 200 (
      newest (
        map
          (λ (ct : Commission × Tenant). record {
            id = (column ct.0).0;
            operator_name = ct.1.name;
            amount_ugx = ct.0.amount_ugx;
            rate_pct = (column ct.0).1;
            status = if ct.0.settled then "settled" else "pending";
            created_at = (column ct.0).2;
          })
          (select (λ (ct : Commission × Tenant). ct.0.agent_id == claims.tenant_id)
            (join (λ (c : Commission) t. c.operator_id == t.id) db.commissions db.tenants)))))

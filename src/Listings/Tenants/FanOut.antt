-- ===== src/Listings/Tenants/FanOut.antt =====
-- A sum over two tables that are both joined to a row counts the second once for each row of the first.
use myfipay.Base.{ℕ, ◌*◌, ◌≡◌, ap, ◌∙◌, String, List, Option, select, ◌==◌, string_eq}
use myfipay.Sql.Joins.{
  outer, product, or_zero, at_least_one, sum_by-product, length-outer, sum_by-outer,
}
use myfipay.Db.{Db, Tenant, User, Referral}
use myfipay.AgentPayouts.{earned}
use myfipay.Base.{sum_by}
use myfipay.Listings.Tenants.{price_of, sales_of, tenant_row, agent_row, tenant_revenue}

abbrev pub users_of : Db → Tenant → List User
users_of db t = select (λ u. u.tenant_id == t.id) db.users

abbrev pub referrals_of : Db → Tenant → List Referral
referrals_of db t = select (λ ar. ar.agent_id == t.id) db.referrals

-- The group sums up the second table as often as the first has rows, but at least once.
grouped {ℓ κ} :
    {A : Type ℓ} {B : Type κ} (f : Option B → ℕ) (xs : List A) (ys : List (Option B))
    → sum_by (λ (xy : Option A × Option B). f xy.1) (product (outer xs) ys)
      ≡ at_least_one xs * sum_by f ys
grouped f xs ys = sum_by-product f (outer xs) ys ∙ ap (λ n. n * sum_by f ys) (length-outer xs)

-- The list of tenants shows as total revenue the revenue that the platform's figures show for the tenant,
-- times the number of its users, and the list of agents shows as total commission what the agent earned,
-- times the number of its referrals, where these are two or more.
pub totals_fan_out :
    (created_at : String → ℕ) (greatest : List String → String) (db : Db) (t : Tenant) (u : User)
    → ((tenant_row created_at greatest db t).total_revenue
        ≡ at_least_one (users_of db t) * (tenant_revenue db t).revenue)
      × ((agent_row created_at db (t, u)).total_commission_ugx
          ≡ at_least_one (referrals_of db t) * earned db t.id)
unfolding tenant_row tenant_revenue agent_row earned
totals_fan_out created_at greatest db t u = (
  grouped (or_zero price_of) (users_of db t) (outer (sales_of db t.id)),
  grouped (or_zero (λ c. c.amount_ugx)) (referrals_of db t)
        (outer (select (λ c. c.agent_id == t.id) db.commissions))
      ∙ ap (λ n. at_least_one (referrals_of db t) * n)
          (sum_by-outer (λ c. c.amount_ugx) (select (λ c. c.agent_id == t.id) db.commissions)),
)

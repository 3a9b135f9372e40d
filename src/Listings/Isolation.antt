-- ===== src/Listings/Isolation.antt =====
-- An operator's lists of locations and plans show its own catalog only.
use myfipay.Base.{
  ℕ, ◌≡◌, ◌≢◌, refl, ap, sym, ◌∙◌, String, List, [], ◌∷◌, map, Bool, false, ◌&&◌, select, ◌==◌,
  string_eq, ==→eq, ==-refl, arith,
}
use myfipay.Sql.{exists}
use myfipay.Sql.Joins.{join, select-join, join-select}
use myfipay.Db.{Db, Location, Plan}
use myfipay.Middleware.{UserClaims}
use myfipay.Operator.{owns}
use myfipay.Operator.Catalog.Isolation.{
  OneOwner, catalog, Operation, perform_all, perform_all-isolated,
}
use myfipay.Listings.{
  listing, LocationRow, location_row, list_operator_locations, PlanRow, plan_row, plans_at,
  list_operator_plans,
}

-- A plan at a location that is not the tenant's meets none of the tenant's locations.
not_owned :
    (tenant id : String) (locations : List Location)
    → exists (λ l. l.id == id && l.tenant_id == tenant) locations ≡ false
    → select (λ l. id == l.id) (select (λ l. l.tenant_id == tenant) locations) ≡ []
unfolding select exists
not_owned tenant id [] h = refl
not_owned tenant id (l ∷ rest) h =
    ground (arith, not_owned tenant id rest, ==→eq id l.id, ==-refl id)

-- The rows of the list of plans, from the catalog of the tenant.
abbrev shown_plans : List Location × List Plan → List (Plan × Location)
shown_plans (locations, plans) = join (λ p l. p.location_id == l.id) plans locations

shown-catalog :
    (db : Db) (tenant : String)
    → select (λ (pl : Plan × Location). pl.1.tenant_id == tenant) (plans_at db)
      ≡ shown_plans (catalog db tenant)
unfolding plans_at catalog owns
shown-catalog db tenant =
    select-join (λ (p : Plan) l. p.location_id == l.id) (λ l. l.tenant_id == tenant) db.plans
      db.locations
    ∙ sym (
        join-select (λ (p : Plan) l. p.location_id == l.id) (λ p. owns db tenant p.location_id)
          db.plans (select (λ l. l.tenant_id == tenant) db.locations)
          (λ p h. not_owned tenant p.location_id db.locations h))

-- Whatever sequence of catalog operations an operator runs, every other operator is answered the same
-- lists of locations and of plans before and after, when each location has one owner.
pub listings-isolated :
    (claims viewer : UserClaims) (ops : List Operation) (db : Db) (reached : Bool)
    (created_at : String → ℕ) (newest : List LocationRow → List LocationRow)
    (sorted : List PlanRow → List PlanRow)
    → claims.tenant_id ≢ viewer.tenant_id
    → OneOwner db
    → (list_operator_locations reached created_at newest viewer (perform_all claims ops db)
        ≡ list_operator_locations reached created_at newest viewer db)
      × (list_operator_plans reached sorted viewer (perform_all claims ops db)
          ≡ list_operator_plans reached sorted viewer db)
unfolding list_operator_locations list_operator_plans catalog
listings-isolated claims viewer ops db reached created_at newest sorted ne one =
    let after = perform_all claims ops db in
    let same = (perform_all-isolated claims viewer.tenant_id ops db ne one).0 in
    (
      ap
          (λ (c : List Location × List Plan).
            listing reached "query failed" (newest (map (location_row created_at) c.0)))
          same,
      ap (λ rows. listing reached "query failed" (sorted (map plan_row rows)))
          (shown-catalog after viewer.tenant_id
            ∙ ap shown_plans same
            ∙ sym (shown-catalog db viewer.tenant_id)),
    )

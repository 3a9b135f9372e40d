-- ===== src/Operator/Catalog/Isolation.antt =====
-- What an operator does to the catalog leaves the catalogs of the others alone.
use myfipay.Base.{
  ℕ, ◌≡◌, ◌≢◌, refl, ap, sym, subst, ◌∙◌, inl, inr, String, List, [], ◌∷◌, Option, none, some, Bool,
  true, false, not, ◌&&◌, ◌||◌, select, if◌then◌else◌, if-cases, Bool-cases, ◌==◌, string_eq,
  nat_eq, ==→eq, ne→==, arith,
}
use Prim.Native.String.{◌++◌ as concat}
use myfipay.Http.{Reply, respond, respond_error}
use myfipay.Sql.{exists}
use myfipay.Sql.Rows.{select-update_where, exists-update_where, select-ext}
use myfipay.Db.{Db, Branding, Location, Plan}
use myfipay.Middleware.{UserClaims}
use myfipay.Operator.{owns}
use myfipay.Operator.Catalog.{
  LocationForm, PlanForm, create_location, update_location_branding, create_plan, update_plan,
  delete_plan, insert_location, new_location, new_plan, change_plan, revised, affects, brand_rows,
  plan_rows, is_bad_color,
}

-- A location has one owner, as its id is the primary key.
abbrev pub OneOwner : Db → Type 0
OneOwner db =
    (location a b : String) → owns db a location ≡ true → owns db b location ≡ true → a ≡ b

-- The catalog of a tenant: its locations, and the plans at its locations.
unfoldable pub catalog : Db → String → List Location × List Plan
unfolding select owns
catalog db tenant = (
  select (λ l. l.tenant_id == tenant) db.locations,
  select (λ p. owns db tenant p.location_id) db.plans,
)

-- An operation of an operator, with whether its statements go through.
pub data Operation : Type 0 where
  create_location' : Bool → String → Option LocationForm → Operation
  update_branding' : Bool → String → Option Branding → Operation
  create_plan' : (ℕ → Bool) → String → Option PlanForm → Operation
  update_plan' : Bool → String → Option PlanForm → Operation
  delete_plan' : Bool → String → Operation

abbrev pub perform : UserClaims → Operation → Db → Db
perform claims (create_location' reached id form) db = (create_location reached claims id form db).1
perform claims (update_branding' reached id form) db =
    (update_location_branding reached claims id form db).1
perform claims (create_plan' ok id form) db = (create_plan ok claims id form db).1
perform claims (update_plan' reached id form) db = (update_plan reached claims id form db).1
perform claims (delete_plan' reached id) db = (delete_plan reached claims id db).1

abbrev pub perform_all : UserClaims → List Operation → Db → Db
perform_all claims [] db = db
perform_all claims (op ∷ ops) db = perform_all claims ops (perform claims op db)

-- The catalog of another tenant is as before, and locations still have one owner.
abbrev Leaves : String → Db → Db → Type 0
Leaves other db after = (catalog after other ≡ catalog db other) × OneOwner after

-- The other tenant owns what it did, and its locations and plans are the same.
same-Leaves :
    (other : String) (db after : Db)
    → OneOwner after
    → ((location : String) → owns after other location ≡ owns db other location)
    → select (λ l. l.tenant_id == other) after.locations
      ≡ select (λ l. l.tenant_id == other) db.locations
    → select (λ p. owns db other p.location_id) after.plans
      ≡ select (λ p. owns db other p.location_id) db.plans
    → Leaves other db after
unfolding catalog
same-Leaves other db after one own locations plans = (
  ap (λ ls. (ls, select (λ p. owns after other p.location_id) after.plans)) locations
      ∙ ap (λ ps. (select (λ l. l.tenant_id == other) db.locations, ps))
          (select-ext (λ p. owns after other p.location_id) (λ p. owns db other p.location_id)
              (λ p. own p.location_id) after.plans
            ∙ plans),
  one,
)

kept-OneOwner :
    (db after : Db)
    → ((tenant location : String) → owns after tenant location ≡ owns db tenant location)
    → OneOwner db
    → OneOwner after
kept-OneOwner db after own one location a b x y =
    one location a b (sym (own a location) ∙ x) (sym (own b location) ∙ y)

missed :
    {A : Type 0} (q : A → Bool) (x : A) (xs : List A)
    → q x ≡ false
    → select q (x ∷ xs) ≡ select q xs
unfolding select
missed q x xs h = rw h refl

not_either : (a b c : Bool) → (if a || b then true else c) ≡ false → (a ≡ false) × (c ≡ false)
not_either a b c h = ground arith

neither : (a b c : Bool) → a ≡ false → c ≡ false → (if a && b then true else c) ≡ false
neither a b c h g = ground arith

first_only : (a b c : Bool) → c ≡ false → (if a && b then true else c) ≡ true → b ≡ true
first_only a b c h g = ground arith

rest_only : (a b c : Bool) → a ≡ false → (if a && b then true else c) ≡ true → c ≡ true
rest_only a b c h g = ground arith

skip : (a b c : Bool) → b ≡ false → (if a && b then true else c) ≡ c
skip a b c h = ground arith

-- An id that is free is owned by nobody.
fresh-unowned :
    (id slug tenant : String) (rows : List Location)
    → exists (λ l. l.id == id || l.portal_slug == slug) rows ≡ false
    → exists (λ l. l.id == id && l.tenant_id == tenant) rows ≡ false
unfolding exists
fresh-unowned id slug tenant [] h = refl
fresh-unowned id slug tenant (l ∷ rows) h =
    let (a, c) = not_either (l.id == id) (l.portal_slug == slug) _ h in
    neither (l.id == id) (l.tenant_id == tenant) _ a (fresh-unowned id slug tenant rows c)

pub added-OneOwner :
    (db : Db) (l : Location)
    → exists (λ o. o.id == l.id || o.portal_slug == l.portal_slug) db.locations ≡ false
    → OneOwner db
    → OneOwner (record db { locations = l ∷ db.locations })
unfolding owns exists
added-OneOwner db l fresh one location a b x y = elim (Bool-cases (l.id == location)) [
  | inl same ↦
      let nobody : (t : String) → owns db t location ≡ false = λ t.
        subst (λ i. owns db t i ≡ false) (==→eq l.id location same)
          (fresh-unowned l.id l.portal_slug t db.locations fresh) in
      sym (==→eq l.tenant_id a (first_only (l.id == location) (l.tenant_id == a) _ (nobody a) x))
      ∙ ==→eq l.tenant_id b (first_only (l.id == location) (l.tenant_id == b) _ (nobody b) y)
  | inr another ↦
      one location a b (rest_only (l.id == location) (l.tenant_id == a) _ another x)
        (rest_only (l.id == location) (l.tenant_id == b) _ another y)
]

given : (a b : Bool) → not (a && b) ≡ false → b ≡ true
given a b h = ground arith

free : (a b : Bool) → a && not b ≡ true → b ≡ false
free a b h = ground arith

both-right : (a b : Bool) → a && b ≡ true → b ≡ true
both-right a b h = ground arith

module _ (claims : UserClaims) (other : String) (ne : claims.tenant_id ≢ other) where
  stranger : (tenant : String) → (tenant == claims.tenant_id) ≡ true → (tenant == other) ≡ false
  stranger tenant h = ne→== tenant other (λ e. ne (sym (==→eq tenant claims.tenant_id h) ∙ e))

  hits :
      (b : Bool) (tenant : String)
      → b && tenant == claims.tenant_id ≡ true
      → (tenant == other) ≡ false
  hits b tenant h = stranger tenant (both-right b (tenant == claims.tenant_id) h)

  not-theirs :
      (db : Db) (location : String)
      → OneOwner db
      → owns db claims.tenant_id location ≡ true
      → owns db other location ≡ false
  not-theirs db location one mine = elim (Bool-cases (owns db other location)) [
    | inl theirs ↦ absurd (ne (one location claims.tenant_id other mine theirs))
    | inr fine ↦ fine
  ]

  added-other :
      (db : Db) (l : Location) (location : String)
      → (l.tenant_id == other) ≡ false
      → owns (record db { locations = l ∷ db.locations }) other location ≡ owns db other location
  unfolding owns exists
  added-other db l location h = skip (l.id == location) (l.tenant_id == other) _ h

  branding-Leaves :
      (reached : Bool) (id : String) (form : Option Branding) (db : Db)
      → OneOwner db
      → Leaves other db (update_location_branding reached claims id form db).1
  unfolding update_location_branding owns
  branding-Leaves reached id none db one = (refl, one)
  branding-Leaves reached id (some req) db one =
      let P : Reply String × Db → Type 0 = λ r. Leaves other db r.1 in
      let mine : Location → Bool = λ l. l.id == id && l.tenant_id == claims.tenant_id in
      let brand : Location → Location = λ l. record l { branding = some req } in
      let same : (tenant location : String)
          → owns (record db { locations = (brand_rows claims id req db.locations).0 }) tenant
              location
            ≡ owns db tenant location =
        λ tenant location.
          exists-update_where mine (λ l. l.id == location && l.tenant_id == tenant) brand
            (λ l. refl) db.locations in
      if-cases P (is_bad_color req.primary_color) (λ _. (refl, one))
        (λ _.
          if-cases P (affects reached (brand_rows claims id req db.locations).1)
            (λ _.
              same-Leaves other db
                (record db { locations = (brand_rows claims id req db.locations).0 })
                (kept-OneOwner db
                  (record db { locations = (brand_rows claims id req db.locations).0 }) same one)
                (same other)
                (select-update_where mine (λ l. l.tenant_id == other) brand
                  (λ l h. (hits (l.id == id) l.tenant_id h, hits (l.id == id) l.tenant_id h))
                  db.locations)
                refl)
            (λ _. (refl, one)))

  change_plan-Leaves :
      (reached : Bool) (id done : String) (change : Plan → Plan) (db : Db)
      → ((p : Plan) → (change p).location_id ≡ p.location_id)
      → OneOwner db
      → Leaves other db (change_plan reached claims id change done db).1
  unfolding owns
  change_plan-Leaves reached id done change db same one =
      if-cases (λ (r : Reply String × Db). Leaves other db r.1)
        (affects reached (plan_rows db claims id change).1)
        (λ _.
          same-Leaves other db (record db { plans = (plan_rows db claims id change).0 }) one
            (λ location. refl) refl
            (select-update_where (λ p. p.id == id && owns db claims.tenant_id p.location_id)
              (λ p. owns db other p.location_id) change
              (λ p h.
                let mine = both-right (p.id == id) (owns db claims.tenant_id p.location_id) h in
                (
                  not-theirs db p.location_id one mine,
                  ap (owns db other) (same p) ∙ not-theirs db p.location_id one mine,
                ))
              db.plans))
        (λ _. (refl, one))

  create_plan-Leaves :
      (ok : ℕ → Bool) (id : String) (form : Option PlanForm) (db : Db)
      → OneOwner db
      → Leaves other db (create_plan ok claims id form db).1
  unfolding create_plan owns
  create_plan-Leaves ok id none db one = (refl, one)
  create_plan-Leaves ok id (some req) db one =
      let P : Reply String × Db → Type 0 = λ r. Leaves other db r.1 in
      if-cases P (req.name == "" || req.price_ugx == 0 || req.duration_mins == 0) (λ _. (refl, one))
        (λ _.
          if-cases P (not (ok 0 && owns db claims.tenant_id req.location_id)) (λ _. (refl, one))
            (λ mine.
              if-cases (Leaves other db) (ok 1)
                (λ _.
                  if-cases (Leaves other db) (exists (λ p. p.id == id) db.plans) (λ _. (refl, one))
                    (λ _.
                      same-Leaves other db (record db { plans = new_plan id req ∷ db.plans }) one
                        (λ location. refl) refl
                        (missed (λ p. owns db other p.location_id) (new_plan id req) db.plans
                          (not-theirs db req.location_id one
                            (given (ok 0) (owns db claims.tenant_id req.location_id) mine)))))
                (λ _. (refl, one))))

  create_location-Leaves :
      (reached : Bool) (id : String) (form : Option LocationForm) (db : Db)
      → OneOwner db
      → Leaves other db (create_location reached claims id form db).1
  unfolding create_location insert_location
  create_location-Leaves reached id none db one = (refl, one)
  create_location-Leaves reached id (some req) db one =
      let P : Reply (String × String) × Db → Type 0 = λ r. Leaves other db r.1 in
      let l = new_location claims.tenant_id id req in
      if-cases P (req.name == "" || req.portal_slug == "") (λ _. (refl, one))
        (λ _.
          if-cases
            (λ (o : Option Db). P (elim o [
              | none ↦ (respond_error 409 "CONFLICT" "portal_slug may already be taken", db)
              | some after ↦ (
                respond 201 (id, concat (concat "https://myfipay.com/portal/" req.portal_slug) "/"),
                after,
              )
            ]))
            (reached
              && not (exists (λ o. o.id == id || o.portal_slug == req.portal_slug) db.locations))
            (λ added.
              same-Leaves other db (record db { locations = l ∷ db.locations })
                (added-OneOwner db l (free reached _ added) one)
                (λ location. added-other db l location (ne→== claims.tenant_id other ne))
                (missed (λ x. x.tenant_id == other) l db.locations
                  (ne→== claims.tenant_id other ne))
                refl)
            (λ _. (refl, one)))

  perform-Leaves : (op : Operation) (db : Db) → OneOwner db → Leaves other db (perform claims op db)
  unfolding update_plan delete_plan
  perform-Leaves (create_location' reached id form) db one =
      create_location-Leaves reached id form db one
  perform-Leaves (update_branding' reached id form) db one = branding-Leaves reached id form db one
  perform-Leaves (create_plan' ok id form) db one = create_plan-Leaves ok id form db one
  perform-Leaves (update_plan' reached id none) db one = (refl, one)
  perform-Leaves (update_plan' reached id (some req)) db one =
      change_plan-Leaves reached id "plan updated" (revised req) db (λ p. refl) one
  perform-Leaves (delete_plan' reached id) db one =
      change_plan-Leaves reached id "plan deactivated" (λ p. record p { active = false }) db
        (λ p. refl) one

-- Whatever an operator does to locations and plans, with any forms and any ids, and whichever
-- statements fail, the locations of every other tenant and the plans at them stay as they are, where
-- every location has one owner to begin with; and every location still has one owner afterwards.
pub perform_all-isolated :
    (claims : UserClaims) (other : String) (ops : List Operation) (db : Db)
    → claims.tenant_id ≢ other
    → OneOwner db
    → (catalog (perform_all claims ops db) other ≡ catalog db other)
      × OneOwner (perform_all claims ops db)
perform_all-isolated claims other [] db ne one = (refl, one)
perform_all-isolated claims other (op ∷ ops) db ne one =
    let (same, one') = perform-Leaves claims other ne op db one in
    let (rest, one'') = perform_all-isolated claims other ops (perform claims op db) ne one' in
    (rest ∙ same, one'')

-- ===== src/AgentPayouts/Laws.antt =====
-- The request of an agent, branch by branch, and what a review does to the reserved balance.
use myfipay.Base.{
  if◌then◌else◌, ◌<◌, ◌≤◌, ◌∷◌, false, ℕ, ◌+◌, ◌≡◌, refl, ap, ◌∙◌, ◌⊎◌, inl, inr, String, Option,
  none, some, Bool, true, false, ◌&&◌, arith, select, sum_by, ◌==◌, string_eq, nat_eq, Bool-cases,
}
use myfipay.Base.Int.{ℤ, pos, pos_part, ltb_ℤ}
use myfipay.Float64.{Float64}
use myfipay.Sql.Rows.{weight, sum_by-select, sum_by-update_where-eq, sum_by-update_where-drop}
use myfipay.Http.{respond}
use myfipay.Db.{Db, PayoutRequest, pending, approved, status_eq, same_status_iff}
use myfipay.Money.{min_payout_ugx}
use myfipay.Payout.{fits_amount, ties_balance}
use myfipay.AgentPayouts.{
  AgentPayoutForm, reserved, is_reserved, new_request, insert_request, agent_balance,
  request_payout, mark_payout_paid, reject_payout_request,
}

-- What the checks of a request let through.
pub record IsAllowed (available : ℤ) (req : AgentPayoutForm) : Type 0 where
  pub least : ltb_ℤ req.amount_ugx min_payout_ugx ≡ false
  pub phone_some : (req.phone == "") ≡ false
  pub most : ltb_ℤ available req.amount_ugx ≡ false

-- The row of a request: it waits, for the amount and the phone of the form.
pub record IsRequested (agent_id id : String) (req : AgentPayoutForm) (pr : PayoutRequest)
    : Type 0 where
  pub identified : pr.id ≡ id
  pub of_agent : pr.agent_id ≡ agent_id
  pub asks : pos pr.amount_ugx ≡ req.amount_ugx
  pub at_phone : pr.phone ≡ req.phone
  pub by_method : pr.method ≡ (if req.method == "" then "mtn_momo" else req.method)
  pub waits : pr.status ≡ pending
  pub not_processed : pr.processed_at ≡ none

-- The row was added in front of the others, unless the INSERT failed or the amount was beyond its
-- column.
abbrev pub Adds : Bool → String → String → AgentPayoutForm → Db → Db → Type 0
Adds reached agent_id id req db after =
    ((reached ≡ true)
      × (pos_part req.amount_ugx ≤ 0x7fff_ffff)
      × ((pr : PayoutRequest) × IsRequested agent_id id req pr
          × (after ≡ record db { payout_requests = pr ∷ db.payout_requests })))
    ⊎ (((reached ≡ false) ⊎ (0x7fff_ffff < pos_part req.amount_ugx)) × (after ≡ db))

positive : (a : ℤ) → ltb_ℤ a min_payout_ugx ≡ false → (pos (pos_part a) ≡ a) × (5000 ≤ pos_part a)
positive a h = ground arith

in_column :
    (reached : Bool) (n : ℕ)
    → 5000 ≤ n
    → ((reached ≡ true) × (n ≤ 0x7fff_ffff) × (reached && fits_amount n ≡ true))
      ⊎ (((reached ≡ false) ⊎ (0x7fff_ffff < n)) × (reached && fits_amount n ≡ false))
in_column reached n least = ground arith

insert_request-Adds :
    (reached : Bool) (agent_id id : String) (req : AgentPayoutForm) (db : Db)
    → ltb_ℤ req.amount_ugx min_payout_ugx ≡ false
    → Adds reached agent_id id req db (insert_request reached (new_request agent_id id req) db)
unfolding insert_request
insert_request-Adds reached agent_id id req db least =
    elim (in_column reached (pos_part req.amount_ugx) (positive req.amount_ugx least).1) [
      | inl (up, fits, added) ↦ inl (
        up,
        fits,
        (
          new_request agent_id id req,
          record {
            identified = refl;
            of_agent = refl;
            asks = (positive req.amount_ugx least).0;
            at_phone = refl;
            by_method = refl;
            waits = refl;
            not_processed = refl;
          },
          rw added refl,
        ),
      )
      | inr (why, dropped) ↦ inr (why, rw dropped refl)
    ]

-- A request is refused with an error and changes nothing; or its form was decoded and passes the
-- checks, and it is answered 201: when the INSERT reaches the database and the amount fits its column,
-- exactly one row is added, pending, of the agent, with the amount and the phone of the form, and
-- otherwise nothing is.
pub request_payout_cases :
    (unspecified : Float64 → ℤ) (decimal : ℤ → String) (ok : ℕ → Bool) (db : Db)
    (agent_id id : String) (form : Option AgentPayoutForm)
    → let (reply, after) = request_payout unspecified decimal ok db agent_id id form in
      ((reply.success ≡ false) × (after ≡ db))
      ⊎ ((req : AgentPayoutForm) × (form ≡ some req)
          × IsAllowed (agent_balance unspecified ok db agent_id) req
          × (reply ≡ respond 201 id)
          × Adds (ok 2) agent_id id req db after)
unfolding request_payout
request_payout_cases unspecified decimal ok db agent_id id none = inl (refl, refl)
request_payout_cases unspecified decimal ok db agent_id id (some req) =
    elim (Bool-cases (ltb_ℤ req.amount_ugx min_payout_ugx)) [
      | inl low ↦ inl (rw low refl, rw low refl)
      | inr least ↦ elim (Bool-cases (req.phone == "")) [
        | inl blank ↦ inl (rw (least, blank) refl, rw (least, blank) refl)
        | inr phone ↦
            elim (Bool-cases (ltb_ℤ (agent_balance unspecified ok db agent_id) req.amount_ugx)) [
              | inl short ↦ inl (rw (least, phone, short) refl, rw (least, phone, short) refl)
              | inr covered ↦ inr (
                req,
                refl,
                record { least = least; phone_some = phone; most = covered },
                rw (least, phone, covered) refl,
                rw (least, phone, covered) (insert_request-Adds (ok 2) agent_id id req db least),
              )
            ]
      ]
    ]

-- The part of a row that counts for an agent.
abbrev pub share : String → PayoutRequest → ℕ
share agent_id = weight (is_reserved agent_id) (λ pr. pr.amount_ugx)

reserved-eq :
    (db : Db) (agent_id : String)
    → reserved db agent_id ≡ sum_by (share agent_id) db.payout_requests
unfolding reserved
reserved-eq db agent_id = sum_by-select _ _ db.payout_requests

-- The pending request with this id.
abbrev pub is_pending : String → PayoutRequest → Bool
is_pending id pr = pr.id == id && pr.status == pending

-- A rejection with a reason that reaches the database frees, for every agent, exactly the amounts of
-- the pending requests with that id.
reject_payout_request-reserved :
    (db : Db) (id notes : String) (now : ℕ) (agent_id : String)
    → (notes == "") ≡ false
    → reserved (reject_payout_request true db id (some notes) now).1 agent_id
        + sum_by (share agent_id) (select (is_pending id) db.payout_requests)
      ≡ reserved db agent_id
unfolding reject_payout_request is_reserved ties_balance
reject_payout_request-reserved db id notes now agent_id given =
    rw (given, reserved-eq db agent_id)
      (ap (λ n. n + sum_by (share agent_id) (select (is_pending id) db.payout_requests))
          (reserved-eq _ agent_id)
        ∙ sum_by-update_where-drop (is_pending id) _ (share agent_id) (λ x hit. ground arith)
            db.payout_requests)

-- Marking a request as paid leaves the reserved amounts of every agent as they are.
mark_payout_paid-reserved :
    (reached : Bool) (db : Db) (id notes : String) (now : ℕ) (agent_id : String)
    → reserved (mark_payout_paid reached db id notes now).1 agent_id ≡ reserved db agent_id
unfolding mark_payout_paid is_reserved ties_balance
mark_payout_paid-reserved false db id notes now agent_id = refl
mark_payout_paid-reserved true db id notes now agent_id = rw (reserved-eq db agent_id) (
    reserved-eq _ agent_id
    ∙ sum_by-update_where-eq _ _ (share agent_id)
        (λ x hit. ground (arith, same_status_iff x.status approved)) db.payout_requests)

-- ===== src/AgentPayouts.antt =====
-- The payouts of referring agents: the request (api/internal/handlers/agent.go) and the admin's
-- reviews (api/internal/handlers/admin.go). `none` is a body that is not decoded.
pub mod Laws
mod Tests
use Prim.Native.String.{◌++◌ as concat}
use myfipay.Base.{
  ℕ, ◌+◌, ◌⊎◌, inl, inr, String, List, [], ◌∷◌, Option, none, some, Bool, true, false, ◌&&◌, ◌||◌,
  not, select, sum_by, if◌then◌else◌, ◌==◌, string_eq, nat_eq,
}
use myfipay.Base.Int.{ℤ, pos, ltb_ℤ, pos_part}
use myfipay.Float64.{Float64, of_int, to_int}
use myfipay.Sql.{update_where, exists}
use myfipay.Http.{Reply, respond, respond_error}
use myfipay.Db.{
  Db, Commission, PayoutRequest, PayoutStatus, pending, approved, paid, rejected, status_eq,
}
use myfipay.Money.{agent_available, min_payout_ugx}
use myfipay.Payout.{ties_balance, fits_amount}

pub record AgentPayoutForm : Type 0 where
  pub amount_ugx : ℤ
  pub method : String
  pub phone : String
  pub notes : String

unfoldable pub earned : Db → String → ℕ
unfolding select sum_by
earned db agent_id =
    sum_by (λ c. c.amount_ugx) (select (λ c. c.agent_id == agent_id) db.commissions)

-- A request whose amount counts against the agent's balance.
unfoldable pub is_reserved : String → PayoutRequest → Bool
unfolding ties_balance
is_reserved agent_id pr = pr.agent_id == agent_id && ties_balance pr.status

unfoldable pub reserved : Db → String → ℕ
unfolding select sum_by is_reserved
reserved db agent_id =
    sum_by (λ pr. pr.amount_ugx) (select (is_reserved agent_id) db.payout_requests)

abbrev pub new_request : String → String → AgentPayoutForm → PayoutRequest
new_request agent_id id req = record {
  id = id;
  agent_id = agent_id;
  amount_ugx = pos_part req.amount_ugx;
  method = if req.method == "" then "mtn_momo" else req.method;
  phone = req.phone;
  status = pending;
  notes = req.notes;
  admin_notes = "";
  processed_at = none;
}

-- The INSERT, whose error is not looked at.
unfoldable pub insert_request : Bool → PayoutRequest → Db → Db
insert_request reached pr db =
    if reached && fits_amount pr.amount_ugx
    then record db { payout_requests = pr ∷ db.payout_requests }
    else db

module _ (unspecified : Float64 → ℤ) where
  -- The sums are scanned as float64 and converted to int; one that is not read is 0.
  unfoldable pub agent_balance : (ℕ → Bool) → Db → String → ℤ
  unfolding agent_available to_int of_int earned reserved
  agent_balance ok db agent_id =
      agent_available (to_int unspecified (of_int (pos (if ok 0 then earned db agent_id else 0))))
        (to_int unspecified (of_int (pos (if ok 1 then reserved db agent_id else 0))))

  -- The answer carries the new id; the message shows the balance in decimal digits.
  unfoldable pub request_payout :
      (ℤ → String) → (ℕ → Bool) → Db → String → String → Option AgentPayoutForm → Reply String × Db
  unfolding insert_request agent_balance
  request_payout decimal ok db agent_id id none =
      (respond_error 400 "INVALID_BODY" "invalid request body", db)
  request_payout decimal ok db agent_id id (some req) =
      if ltb_ℤ req.amount_ugx min_payout_ugx
      then (respond_error 422 "VALIDATION_ERROR" "minimum payout is 5000 UGX", db)
      else if req.phone == ""
      then (respond_error 422 "VALIDATION_ERROR" "phone is required", db)
      else if ltb_ℤ (agent_balance ok db agent_id) req.amount_ugx
      then (
        respond_error 422 "INSUFFICIENT_BALANCE" (
            concat (concat "available balance is " (decimal (agent_balance ok db agent_id)))
              " UGX"),
        db,
      )
      else (respond 201 id, insert_request (ok 2) (new_request agent_id id req) db)

abbrev review_answer : Bool → ℕ → String → String → Reply String
review_answer reached affected missing done =
    if not reached || affected == 0 then respond_error 404 "NOT_FOUND" missing else respond 200 done

abbrev pub review_requests : Bool → Db → (PayoutRequest → Bool) → PayoutStatus → String → ℕ → Db × ℕ
review_requests reached db guard status notes now =
    let (rows, affected) =
      update_where guard
        (λ pr. record pr { status = status; admin_notes = notes; processed_at = some now })
        db.payout_requests in
    (if reached then record db { payout_requests = rows } else db, affected)

-- The commissions of the agent of this request.
unfoldable pub settle_commissions : Bool → String → Db → Db
unfolding update_where exists
settle_commissions reached id db =
    if reached
    then record db {
      commissions =
          (update_where
            (λ c.
              exists (λ pr. pr.id == id && pr.agent_id == c.agent_id) db.payout_requests
              && not c.settled)
            (λ c. record c { settled = true }) db.commissions).0;
    }
    else db

unfoldable pub approve_payout_request : (ℕ → Bool) → Db → String → String → ℕ → Reply String × Db
unfolding update_where settle_commissions
approve_payout_request ok db id notes now =
    let (after, affected) =
      review_requests (ok 0) db (λ pr. pr.id == id && pr.status == pending) approved notes now in
    (
      review_answer (ok 0) affected "pending payout request not found" "payout approved",
      if not (ok 0) || affected == 0 then after else settle_commissions (ok 1) id after,
    )

unfoldable pub mark_payout_paid : Bool → Db → String → String → ℕ → Reply String × Db
unfolding update_where
mark_payout_paid reached db id notes now =
    let (after, affected) =
      review_requests reached db (λ pr. pr.id == id && pr.status == approved) paid notes now in
    (
      review_answer reached affected "approved payout request not found" "payout marked as paid",
      after,
    )

unfoldable pub reject_payout_request : Bool → Db → String → Option String → ℕ → Reply String × Db
unfolding update_where
reject_payout_request reached db id none now =
    (respond_error 400 "VALIDATION_ERROR" "admin_notes (reason) is required", db)
reject_payout_request reached db id (some notes) now =
    let (after, affected) =
      review_requests reached db (λ pr. pr.id == id && pr.status == pending) rejected notes now in
    if notes == ""
    then (respond_error 400 "VALIDATION_ERROR" "admin_notes (reason) is required", db)
    else (
      review_answer reached affected "pending payout request not found" "payout rejected",
      after,
    )

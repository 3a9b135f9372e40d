-- ===== src/Operator/Batches.antt =====
-- Batches of vouchers (CreateVoucherBatch of api/internal/handlers/operator.go). `draw i j` is the byte
-- of the uuid that is drawn for the j-th character of the i-th code.
use myfipay.Base.{
  ℕ, zero, suc, ◌+◌, String, List, [], ◌∷◌, Option, none, some, Bool, not, ◌&&◌, ◌||◌, ltb,
  if◌then◌else◌, ◌==◌, string_eq, nat_eq,
}
use Prim.Native.String.{◌++◌ as concat}
use myfipay.Text.{random_text}
use myfipay.Http.{Reply, respond, respond_error}
use myfipay.Sql.{exists}
use myfipay.Db.{Db, Voucher, VoucherBatch}
use myfipay.Middleware.{UserClaims}
use myfipay.Sessions.{exec}
use myfipay.Operator.{owns}

pub record BatchForm : Type 0 where
  pub location_id : String
  pub plan_id : String
  pub quantity : ℕ
  pub note : String

abbrev pub charset : String
charset = "ABCDEFGHJKLMNPQRSTUVWXYZ23456789"

unfoldable pub voucher_codes : (ℕ → ℕ → ℕ) → ℕ → ℕ → List String
unfolding random_text
voucher_codes draw i zero = []
voucher_codes draw i (suc n) =
    let rest = voucher_codes draw (suc i) n in
    concat "MFB-" (random_text charset (draw i) 0 8) ∷ rest

-- The INSERT of a voucher: its code is UNIQUE, and its id is drawn from the code's place.
abbrev pub insert_voucher : Voucher → Db → Db
insert_voucher v db =
    if exists (λ other. other.code == v.code) db.vouchers
    then db
    else record db { vouchers = v ∷ db.vouchers }

abbrev pub new_voucher : String → BatchForm → String → String → Voucher
new_voucher batch_id req id code' = record {
  id = id;
  batch_id = some batch_id;
  location_id = req.location_id;
  plan_id = req.plan_id;
  code = code';
  status = "unused";
  used_by_phone = none;
  expires_at = none;
}

-- The loop of the INSERTs; an error of one is ignored.
unfoldable pub insert_vouchers :
    (ℕ → Bool) → (ℕ → String) → String → BatchForm → ℕ → List String → Db → Db
unfolding exists
insert_vouchers ok ids batch_id req i [] db = db
insert_vouchers ok ids batch_id req i (c ∷ codes) db =
    insert_vouchers ok ids batch_id req (suc i) codes
      (exec (ok i) (insert_voucher (new_voucher batch_id req (ids i) c)) db)

abbrev pub new_batch : String → BatchForm → VoucherBatch
new_batch batch_id req = record {
  id = batch_id;
  location_id = req.location_id;
  plan_id = req.plan_id;
  quantity = req.quantity;
  note = req.note;
}

-- SELECT EXISTS(SELECT 1 FROM plans WHERE id = $1 AND location_id = $2 AND active = TRUE)
abbrev pub sells : Db → BatchForm → Bool
sells db req =
    exists (λ p. p.id == req.plan_id && p.location_id == req.location_id && p.active) db.plans

-- The answer has the id of the batch, the quantity and the codes.
unfoldable pub create_voucher_batch :
    (ℕ → Bool)
    → (ℕ → ℕ → ℕ)
    → (ℕ → String)
    → UserClaims
    → String
    → Option BatchForm
    → Db
    → Reply (String × ℕ × List String) × Db
unfolding owns exists voucher_codes insert_vouchers
create_voucher_batch ok draw ids claims batch_id none db =
    (respond_error 400 "INVALID_BODY" "invalid request body", db)
create_voucher_batch ok draw ids claims batch_id (some req) db =
    let codes = voucher_codes draw 0 req.quantity in
    let booked = record db { voucher_batches = new_batch batch_id req ∷ db.voucher_batches } in
    if req.location_id == "" || req.plan_id == "" || ltb req.quantity 1 || ltb 500 req.quantity
    then (
      respond_error 422 "VALIDATION_ERROR" "location_id, plan_id, quantity (1-500) are required",
      db,
    )
    else if not (ok 0 && owns db claims.tenant_id req.location_id)
    then (respond_error 404 "NOT_FOUND" "location not found", db)
    else if not (ok 1 && sells db req)
    then (respond_error 404 "NOT_FOUND" "plan not found", db)
    else if not (ok 2) || exists (λ b. b.id == batch_id) db.voucher_batches
    then (respond_error 500 "DB_ERROR" "could not create batch", db)
    else (
      respond 201 (batch_id, req.quantity, codes),
      insert_vouchers (λ i. ok (3 + i)) ids batch_id req 0 codes booked,
    )

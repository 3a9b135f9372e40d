-- ===== src/Payout/Lifecycle.antt =====
-- The life of a payout: pending, approved, then paid or rejected. The admin's three handlers make
-- only these moves, and change nothing but the review's own columns.
use myfipay.Base.{
  ℕ, ◌≡◌, refl, ◌⊎◌, inl, inr, String, Bool, true, false, arith, ◌==◌, string_eq, nat_eq,
  Bool-cases,
}
use myfipay.Db.{
  Db, Payout, PayoutStatus, pending, approved, paid, rejected, status_eq, same_status_iff,
}
use myfipay.Sql.Rows.{Rows, Rows-refl, update_where-Rows}
use myfipay.Payout.{approve_payout, reject_payout, mark_operator_payout_paid}

-- The moves of the queue.
pub data Moves : PayoutStatus → PayoutStatus → Type 0 where
  approves : Moves pending approved
  rejects_pending : Moves pending rejected
  rejects_approved : Moves approved rejected
  pays : Moves approved paid

-- What no handler changes in a row.
pub record SameClaim (x y : Payout) : Type 0 where
  pub id_same : y.id ≡ x.id
  pub tenant_same : y.tenant_id ≡ x.tenant_id
  pub user_same : y.requested_by ≡ x.requested_by
  pub amount_same : y.amount_ugx ≡ x.amount_ugx
  pub phone_same : y.momo_phone ≡ x.momo_phone

-- A row is left alone, or makes one move and keeps its claim.
abbrev pub StepsTo : Payout → Payout → Type 0
StepsTo x y = (y ≡ x) ⊎ (SameClaim x y × Moves x.status y.status)

moves :
    (x y : Payout) (s : PayoutStatus)
    → x.status ≡ s
    → SameClaim x y
    → Moves s y.status
    → StepsTo x y
moves x y s e same m = inr (same, rw e m)

-- Approving makes only the move from pending to approved.
pub approve_payout-StepsTo :
    (reached : Bool) (db : Db) (id user : String) (now : ℕ)
    → Rows StepsTo db.payouts (approve_payout reached db id user now).1.payouts
unfolding approve_payout
approve_payout-StepsTo true db id user now =
    update_where-Rows _ _ (λ x hit. moves x _ pending (ground arith) (ground arith) approves)
      (λ x. inl refl) db.payouts
approve_payout-StepsTo false db id user now = Rows-refl (λ x. inl refl) db.payouts

pub reject_payout-StepsTo :
    (reached : Bool) (db : Db) (id reason user : String) (now : ℕ)
    → Rows StepsTo db.payouts (reject_payout reached db id reason user now).1.payouts
unfolding reject_payout
reject_payout-StepsTo true db id reason user now =
    update_where-Rows _ _
      (λ x hit. elim (Bool-cases (x.status == pending)) [
        | inl new ↦ moves x _ pending ((same_status_iff _ _).0 new) (ground arith) rejects_pending
        | inr old ↦
            moves x _ approved (ground (arith, same_status_iff x.status approved)) (ground arith)
              rejects_approved
      ])
      (λ x. inl refl) db.payouts
reject_payout-StepsTo false db id reason user now = Rows-refl (λ x. inl refl) db.payouts

pub mark_operator_payout_paid-StepsTo :
    (reached : Bool) (db : Db) (id reference : String) (now : ℕ)
    → Rows StepsTo db.payouts (mark_operator_payout_paid reached db id reference now).1.payouts
unfolding mark_operator_payout_paid
mark_operator_payout_paid-StepsTo true db id reference now =
    update_where-Rows _ _ (λ x hit. moves x _ approved (ground arith) (ground arith) pays)
      (λ x. inl refl) db.payouts
mark_operator_payout_paid-StepsTo false db id reference now = Rows-refl (λ x. inl refl) db.payouts

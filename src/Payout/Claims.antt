-- ===== src/Payout/Claims.antt =====
-- What the admin's reviews do to the claims on a tenant's balance.
use myfipay.Base.{
  ℕ, ◌+◌, ◌≤◌, ◌≡◌, refl, ap, ◌∙◌, String, Bool, true, false, ◌&&◌, ◌||◌, arith, select, sum_by,
  ◌==◌, string_eq,
}
use myfipay.Db.{Db, Payout, pending, approved, status_eq, same_status_iff}
use myfipay.Sql.Rows.{sum_by-update_where-eq, sum_by-update_where-drop}
use myfipay.Payout.{claimed, ties_balance, approve_payout, reject_payout, mark_operator_payout_paid}
use myfipay.Payout.Covered.{claim, claimed-eq}

-- Approving a payout leaves the claims of every tenant as they are.
pub approve_payout-claimed :
    (reached : Bool) (db : Db) (id user : String) (now : ℕ) (t : String)
    → claimed (approve_payout reached db id user now).1 t ≡ claimed db t
unfolding approve_payout ties_balance
approve_payout-claimed false db id user now t = refl
approve_payout-claimed true db id user now t = rw (claimed-eq db t) (
    claimed-eq _ t
    ∙ sum_by-update_where-eq _ _ (claim t)
        (λ x hit. ground (arith, same_status_iff x.status pending)) db.payouts)

-- So does marking it paid.
pub mark_operator_payout_paid-claimed :
    (reached : Bool) (db : Db) (id reference : String) (now : ℕ) (t : String)
    → claimed (mark_operator_payout_paid reached db id reference now).1 t ≡ claimed db t
unfolding mark_operator_payout_paid ties_balance
mark_operator_payout_paid-claimed false db id reference now t = refl
mark_operator_payout_paid-claimed true db id reference now t = rw (claimed-eq db t) (
    claimed-eq _ t
    ∙ sum_by-update_where-eq _ _ (claim t)
        (λ x hit. ground (arith, same_status_iff x.status approved)) db.payouts)

-- The payouts that a rejection by this id affects.
unfoldable pub is_rejectable : String → Payout → Bool
is_rejectable id po = po.id == id && (po.status == pending || po.status == approved)

-- A rejection that reaches the database frees, for every tenant, exactly the claims of the pending
-- and approved payouts with that id.
pub reject_payout-claimed :
    (db : Db) (id reason user : String) (now : ℕ) (t : String)
    → claimed (reject_payout true db id reason user now).1 t
        + sum_by (claim t) (select (is_rejectable id) db.payouts)
      ≡ claimed db t
unfolding reject_payout ties_balance is_rejectable
reject_payout-claimed db id reason user now t = rw (claimed-eq db t) (
    ap (λ n. n + sum_by (claim t) (select (is_rejectable id) db.payouts)) (claimed-eq _ t)
    ∙ sum_by-update_where-drop (is_rejectable id) _ (claim t) (λ x hit. ground arith) db.payouts)

pub reject_payout-claimed-le :
    (reached : Bool) (db : Db) (id reason user : String) (now : ℕ) (t : String)
    → claimed (reject_payout reached db id reason user now).1 t ≤ claimed db t
reject_payout-claimed-le true db id reason user now t =
    omega (arith, reject_payout-claimed db id reason user now t)
reject_payout-claimed-le false db id reason user now t = unfold reject_payout in omega arith

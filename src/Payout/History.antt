-- ===== src/Payout/History.antt =====
-- The operator payout routes of api/internal/server/server.go as one state machine: requests by
-- operators and reviews by the admin, in any order.
use myfipay.Base.{
  ℕ, ◌≡◌, refl, sym, subst, ◌∙◌, ◌⊎◌, inl, inr, ◌≢◌, String, List, [], ◌∷◌, Option, Bool, arith,
}
use myfipay.Base.Int.{ℤ}
use myfipay.Float64.{Float64}
use myfipay.Db.{Db, Payout, PayoutStatus, pending, approved, paid, rejected}
use myfipay.Sql.Rows.{Rows, done, row, Rows-refl, Rows-trans}
use myfipay.Payout.{
  PayoutForm, request_operator_payout, approve_payout, reject_payout, mark_operator_payout_paid,
}
use myfipay.Payout.Lifecycle.{
  Moves, approves, rejects_pending, rejects_approved, pays, SameClaim, StepsTo,
  approve_payout-StepsTo, reject_payout-StepsTo, mark_operator_payout_paid-StepsTo,
}
use myfipay.Payout.Requests.{request_operator_payout_cases}

pub data Call : Type 0 where
  requests : (ℕ → Bool) → String → String → String → Option PayoutForm → Call
  approves_payout : Bool → String → String → ℕ → Call
  rejects_payout : Bool → String → String → String → ℕ → Call
  marks_paid : Bool → String → String → ℕ → Call

-- The states that a status can lead to.
abbrev pub Reaches : PayoutStatus → PayoutStatus → Type 0
Reaches pending s = Unit
Reaches approved s = s ≢ pending
Reaches paid s = s ≡ paid
Reaches rejected s = s ≡ rejected

abbrev pub Settled : PayoutStatus → Type 0
Settled s = (s ≡ paid) ⊎ (s ≡ rejected)

-- What any number of calls does to a row.
pub record RunsTo (x y : Payout) : Type 0 where
  pub same : SameClaim x y
  pub reaches : Reaches x.status y.status
  pub final : Settled x.status → y ≡ x

Reaches-refl : (s : PayoutStatus) → Reaches s s
Reaches-refl pending = tt
Reaches-refl approved = λ e. cc
Reaches-refl paid = refl
Reaches-refl rejected = refl

Reaches-trans : (a b c : PayoutStatus) → Reaches a b → Reaches b c → Reaches a c
Reaches-trans pending b c h k = tt
Reaches-trans approved pending c h k = absurd (h refl)
Reaches-trans approved approved c h k = k
Reaches-trans approved paid c h k = λ e. cc
Reaches-trans approved rejected c h k = λ e. cc
Reaches-trans paid b c h k = subst (λ s. Reaches s c) h k
Reaches-trans rejected b c h k = subst (λ s. Reaches s c) h k

Moves-Reaches : {a b : PayoutStatus} → Moves a b → Reaches a b
Moves-Reaches approves = tt
Moves-Reaches rejects_pending = tt
Moves-Reaches rejects_approved = λ e. cc
Moves-Reaches pays = λ e. cc

Moves-open : {a b : PayoutStatus} → Moves a b → ¬ Settled a
Moves-open approves h = ground arith
Moves-open rejects_pending h = ground arith
Moves-open rejects_approved h = ground arith
Moves-open pays h = ground arith

RunsTo-refl : (x : Payout) → RunsTo x x
RunsTo-refl x = record { same = ground arith; reaches = Reaches-refl x.status; final = λ _. refl }

RunsTo-trans : (x y z : Payout) → RunsTo x y → RunsTo y z → RunsTo x z
RunsTo-trans x y z h k = record {
  same = ground arith;
  reaches = Reaches-trans _ _ _ h.reaches k.reaches;
  final = λ s. k.final (subst (λ (v : Payout). Settled v.status) (sym (h.final s)) s) ∙ h.final s;
}

StepsTo-RunsTo : (x y : Payout) → StepsTo x y → RunsTo x y
StepsTo-RunsTo x y (inl e) = subst (λ v. RunsTo x v) (sym e) (RunsTo-refl x)
StepsTo-RunsTo x y (inr (same, m)) = record {
  same = same;
  reaches = Moves-Reaches m;
  final = λ s. absurd (Moves-open m s);
}

Rows-RunsTo : {xs ys : List Payout} → Rows StepsTo xs ys → Rows RunsTo xs ys
Rows-RunsTo done = done
Rows-RunsTo (row r rs) = row (StepsTo-RunsTo _ _ r) (Rows-RunsTo rs)

-- New rows stand in front of those that were there before.
pub data Grows : List Payout → List Payout → Type 0 where
  old : {xs ys : List Payout} → Rows RunsTo xs ys → Grows xs ys
  new : {xs ys : List Payout} (y : Payout) → Grows xs ys → Grows xs (y ∷ ys)

Grows-Rows : {xs ys zs : List Payout} → Grows xs ys → Rows RunsTo ys zs → Grows xs zs
Grows-Rows (old rs) ss = old (Rows-trans RunsTo-trans rs ss)
Grows-Rows (new y g) (row {y = z} s ss) = new z (Grows-Rows g ss)

Grows-trans : {xs ys zs : List Payout} → Grows xs ys → Grows ys zs → Grows xs zs
Grows-trans g (old ss) = Grows-Rows g ss
Grows-trans g (new z h) = new z (Grows-trans g h)

Grows-refl : (xs : List Payout) → Grows xs xs
Grows-refl xs = old (Rows-refl RunsTo-refl xs)

module _ (unspecified : Float64 → ℤ) (parse_float : String → Option Float64) where
  unfoldable pub step : Db → Call → Db
  step db (requests ok tenant_id user_id id form) =
      (request_operator_payout unspecified parse_float ok db tenant_id user_id id form).1
  step db (approves_payout reached id user_id now) = (approve_payout reached db id user_id now).1
  step db (rejects_payout reached id reason user_id now) =
      (reject_payout reached db id reason user_id now).1
  step db (marks_paid reached id reference now) =
      (mark_operator_payout_paid reached db id reference now).1

  unfoldable pub run : Db → List Call → Db
  unfolding step
  run db [] = db
  run db (c ∷ cs) = run (step db c) cs

  step-Grows : (db : Db) (c : Call) → Grows db.payouts (step db c).payouts
  unfolding step
  step-Grows db (requests ok t user id form) =
      elim (request_operator_payout_cases unspecified parse_float ok db t user id form) [
        | inl (_, same) ↦ rw same (Grows-refl db.payouts)
        | inr (f, _, _, _, more) ↦ rw more (new _ (Grows-refl db.payouts))
      ]
  step-Grows db (approves_payout reached id user now) =
      old (Rows-RunsTo (approve_payout-StepsTo reached db id user now))
  step-Grows db (rejects_payout reached id reason user now) =
      old (Rows-RunsTo (reject_payout-StepsTo reached db id reason user now))
  step-Grows db (marks_paid reached id reference now) =
      old (Rows-RunsTo (mark_operator_payout_paid-StepsTo reached db id reference now))

  -- Whatever calls are made, in whatever order: no payout is ever removed, its tenant and amount
  -- stay, its status only goes forward, and once it is paid or rejected its row never changes.
  pub run-Grows : (db : Db) (cs : List Call) → Grows db.payouts (run db cs).payouts
  unfolding run
  run-Grows db [] = Grows-refl db.payouts
  run-Grows db (c ∷ cs) = Grows-trans (step-Grows db c) (run-Grows (step db c) cs)

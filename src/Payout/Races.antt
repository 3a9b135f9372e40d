-- ===== src/Payout/Races.antt =====
-- Where the balance is not protected: a request reads the balance and inserts its row in separate
-- statements, with no transaction, and a read that fails counts as zero.
use mathlib.Core.Path.{ap₂}
use myfipay.Base.{
  ℕ, ◌≤◌, ◌<◌, ◌+◌, ◌≡◌, sym, ap, subst, ◌∙◌, ◌⊎◌, String, [], ◌∷◌, Option, some, Bool, true, false,
  arith, sum_by, string_eq, ==-refl,
}
use myfipay.Base.Int.{ℤ, pos, pos_part}
use myfipay.Float64.{Float64}
use myfipay.Http.{Reply, respond}
use myfipay.Db.{Db}
use myfipay.Payout.{
  Created, PayoutForm, check_request, finish_request, new_payout, claimed, tenant_balance,
  ties_balance, gross_mobile_money, rate_setting, is_platform_held,
}
use myfipay.Payout.Requests.{IsAdmitted, accepted, check_request_passes}
use myfipay.Payout.Covered.{claimed-eq, IsCovered, IsSound, AllRead, rate_of, available-eq}
use myfipay.Money.{platform_commission}
use myfipay.Money.Bounds.{operator_available_splits}

overdrawn :
    (g w c rest left a a' : ℕ) {fee : ℤ}
    → fee ≡ pos c
    → pos rest ≡ pos left
    → (c + w + rest ≡ g) ⊎ ((g < c + w) × (rest ≡ 0))
    → pos_part fee + w ≤ g
    → left < a + a'
    → g < pos_part fee + (a' + (a + w))
overdrawn g w c rest left a a' e f splits covered more = ground arith

module _ (unspecified : Float64 → ℤ) (parse_float : String → Option Float64) where
  -- Two requests of one tenant whose checks both run before either row is inserted.
  unfoldable pub overlapping :
      (ℕ → Bool)
      → Db
      → String
      → String
      → String
      → String
      → PayoutForm
      → PayoutForm
      → Reply Created × Reply Created × Db
  overlapping ok db t user id id' req req' =
      let first = check_request unspecified parse_float ok db t user id (some req) in
      let second = check_request unspecified parse_float ok db t user id' (some req') in
      let (reply, between) = finish_request (ok 3) db first in
      let (reply', after) = finish_request (ok 3) between second in (reply, reply', after)

  inserted-claimed :
      (db : Db) (t user id : String) (req : PayoutForm)
      → claimed (record db { payouts = new_payout t user id req ∷ db.payouts }) t
        ≡ pos_part req.amount_ugx + claimed db t
  unfolding sum_by ties_balance
  inserted-claimed db t user id req =
      claimed-eq (record db { payouts = new_payout t user id req ∷ db.payouts }) t
      ∙ rw (==-refl t) (ap (λ n. pos_part req.amount_ugx + n) (sym (claimed-eq db t)))

  -- Both are answered 201, and both rows stand in the database afterwards.
  overlapping-eq :
      (ok : ℕ → Bool) (db : Db) (t user id id' : String) (req req' : PayoutForm)
      → ok 3 ≡ true
      → IsAdmitted (tenant_balance unspecified parse_float ok db t).available req
      → IsAdmitted (tenant_balance unspecified parse_float ok db t).available req'
      → pos_part req.amount_ugx ≤ 0x7fff_ffff
      → pos_part req'.amount_ugx ≤ 0x7fff_ffff
      → overlapping ok db t user id id' req req' ≡ (
        respond 201 (id, req.amount_ugx),
        respond 201 (id', req'.amount_ugx),
        record db { payouts = new_payout t user id' req' ∷ new_payout t user id req ∷ db.payouts },
      )
  unfolding overlapping
  overlapping-eq ok db t user id id' req req' reached a a' fits fits' =
      ap₂
        (λ x y. (
          (finish_request (ok 3) db x).0,
          (finish_request (ok 3) (finish_request (ok 3) db x).1 y).0,
          (finish_request (ok 3) (finish_request (ok 3) db x).1 y).1,
        ))
        (check_request_passes unspecified parse_float ok db t user id req a)
        (check_request_passes unspecified parse_float ok db t user id' req' a')
      ∙ rw (
        accepted (ok 3) db t user id req reached a.amount_pos a.least fits,
        accepted (ok 3) (record db { payouts = new_payout t user id req ∷ db.payouts }) t user id'
            req' reached a'.amount_pos a'.least fits',
      )

  -- Two overlapping requests that are each within the available balance, with amounts that fit the
  -- column, are both answered 201 when the statements go through, also when their sum exceeds the
  -- balance: then the platform's cut and the payouts of the tenant together exceed the revenue.
  pub overlapping_overdraws :
      (ok : ℕ → Bool) (db : Db) (t user id id' : String) (req req' : PayoutForm) (left : ℕ)
      → ok 3 ≡ true
      → AllRead ok
      → IsSound unspecified parse_float db t
      → IsCovered unspecified parse_float db t
      → (tenant_balance unspecified parse_float ok db t).available ≡ pos left
      → IsAdmitted (pos left) req
      → IsAdmitted (pos left) req'
      → left < pos_part req.amount_ugx + pos_part req'.amount_ugx
      → pos_part req.amount_ugx ≤ 0x7fff_ffff
      → pos_part req'.amount_ugx ≤ 0x7fff_ffff
      → let (reply, reply', after) = overlapping ok db t user id id' req req' in
        (reply ≡ respond 201 (id, req.amount_ugx))
        × (reply' ≡ respond 201 (id', req'.amount_ugx))
        × (gross_mobile_money after t
            < pos_part (
                platform_commission unspecified
                  (pos (gross_mobile_money after t))
                  (rate_of unspecified parse_float after t))
              + claimed after t)
  unfolding gross_mobile_money rate_setting is_platform_held
  overlapping_overdraws ok db t user id id' req req' left reached r s covered e a a' more fits
        fits' =
      let (c, rest, fee, same, splits) =
        operator_available_splits unspecified (gross_mobile_money db t) (claimed db t)
          (rate_of unspecified parse_float db t) s.gross_ok s.claimed_ok s.rate_ok in
      let both =
        overlapping-eq ok db t user id id' req req' reached (rw e a) (rw e a') fits fits' in
      (
        ap (λ o. o.0) both,
        ap (λ o. o.1) both,
        subst
            (λ d.
              gross_mobile_money d t
              < pos_part (
                  platform_commission unspecified (pos (gross_mobile_money d t))
                    (rate_of unspecified parse_float d t))
                + claimed d t)
            (sym (ap (λ o. o.2) both))
            (subst
              (λ n.
                gross_mobile_money db t
                < pos_part (
                    platform_commission unspecified (pos (gross_mobile_money db t))
                      (rate_of unspecified parse_float db t))
                  + n)
              (sym (
                inserted-claimed (record db { payouts = new_payout t user id req ∷ db.payouts }) t
                  user id' req'
                ∙ ap (λ n. pos_part req'.amount_ugx + n) (inserted-claimed db t user id req)))
              (overdrawn (gross_mobile_money db t) (claimed db t) c rest left
                (pos_part req.amount_ugx) (pos_part req'.amount_ugx) fee
                (sym same ∙ sym (available-eq unspecified parse_float ok db t r) ∙ e) splits covered
                more)),
      )

  -- When the reads of the rate and of the revenue go through and that of the claims does not, the
  -- balance is what it would be, with all reads going through, if nothing had ever been withdrawn.
  pub unread_claims_ignored :
      (ok : ℕ → Bool) (db : Db) (t : String)
      → ok 0 ≡ true
      → ok 1 ≡ true
      → ok 2 ≡ false
      → (tenant_balance unspecified parse_float ok db t).available
        ≡ (tenant_balance unspecified parse_float
            (λ _. true)
            (record db { payouts = [] })
            t).available
  unfolding tenant_balance gross_mobile_money rate_setting is_platform_held claimed
  unread_claims_ignored ok db t rate gross unread = rw (rate, gross, unread)

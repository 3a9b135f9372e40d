-- ===== src/AccessControl/Vouchers.antt =====
-- The codes of a batch, from the operator that draws them to the user that goes online.
use myfipay.Base.{◌+◌, ℕ, ◌≡◌, String, ◌∷◌, string_eq}
use myfipay.Http.{Reply, respond}
use myfipay.Db.{Db}
use myfipay.Cache.{Redis}
use myfipay.Sessions.{PlanRecord, duration_secs}
use myfipay.Sessions.Access.{Granted}
use myfipay.Webhook.{Library}
use myfipay.Checkout.{Redeemed}
use myfipay.Operator.Batches.{BatchForm, voucher_codes, new_batch}
use myfipay.AccessControl.OnSale.{put_all}

module _ (lib : Library) (to_upper : String → String) (redis : Redis) where
  abbrev created : (ℕ → ℕ → ℕ) → (ℕ → String) → String → BatchForm → Db → Db
  created draw ids batch_id req db = record db {
    voucher_batches = new_batch batch_id req ∷ db.voucher_batches;
    vouchers = put_all ids batch_id req 0 (voucher_codes draw 0 req.quantity) db.vouchers;
  }

  -- The answer to a redemption, and the rows that it leaves: the phone has the plan from now on.
  pub record GoesOnline (now : ℕ) (session_id phone : String) (pl : PlanRecord)
      (result : Reply Redeemed × redis.Cache × Db) : Type 0 where
    pub answered :
        result.0
        ≡ respond 201 (record {
          session_id = session_id;
          plan_name = pl.name;
          duration_mins = pl.duration_mins;
          expires_at = now + duration_secs pl;
        })
    pub granted : Granted lib.decimal phone (duration_secs pl) pl result.2

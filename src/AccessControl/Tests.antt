-- ===== src/AccessControl/Tests.antt =====
-- The permits over a few operations, a tick that cuts off a session that still runs, and a batch of one
-- code.
use myfipay.Base.{
  ℕ, ◌≡◌, refl, String, List, [], ◌∷◌, none, some, true, ◌&&◌, ◌==◌, string_eq, nat_eq, select, ltb,
}
use myfipay.Base.Int.{pos}
use myfipay.Sql.{exists, delete_where, update_where}
use myfipay.Db.{Db}
use myfipay.Db.Sample.{no_rows}
use myfipay.Cache.Memory.{memory, Store}
use myfipay.Middleware.{UserClaims}
use myfipay.Sessions.Access.{rows_of}
use myfipay.Webhook.{Library}
use myfipay.Operator.{GrantForm}
use myfipay.Reaper.{is_overdue}
use myfipay.Checkout.{VoucherForm}
use myfipay.Operator.{owns}
use myfipay.Operator.Batches.{BatchForm, create_voucher_batch}
use myfipay.AccessControl.{Permits, Op, grant, extend, reap, step, run, run_events}
use myfipay.AccessControl.Rows.{Stands}
use myfipay.AccessControl.Refinement.{run_refines, reap_cuts_off}

abbrev upper : String → String
upper s = s

abbrev lib : Library
lib = record {
  hmac_sha256_hex = λ key body. "";
  hex_decode = λ s. none;
  to_lower = λ s. s;
  decode_webhook = λ s. none;
  decimal = λ n. "";
  rfc3339 = λ t. "";
  unspecified = λ f. pos 0;
}

abbrev ann : UserClaims
ann = record { user_id = "u1"; tenant_id = "t1"; email = "a@b.c"; role = "operator"; name = "Ann" }

abbrev phone : String
phone = "256700000001"

abbrev shop : Db
shop = record no_rows {
  locations =
      record {
        id = "l1";
        tenant_id = "t1";
        name = "";
        address = "";
        portal_slug = "demo";
        branding = none;
        status = "active";
      }
      ∷ [];
  plans =
      record {
        id = "p1";
        location_id = "l1";
        name = "Hour";
        price_ugx = 500;
        duration_mins = 60;
        speed_down_kbps = none;
        speed_up_kbps = none;
        active = true;
      }
      ∷ [];
}

abbrev cash : GrantForm
cash = record { phone = phone; plan_id = "p1"; mac = ""; note = "" }

-- A session for cash, an hour more, and a tick after its end.
abbrev day : List (Op lib upper memory)
day = grant ann 100 "s1" "r1" (some cash) ∷ extend ann 200 "s1" (some "p1") ∷ reap 9000 ∷ []

abbrev empty : Store
empty = λ k. none

abbrev nobody : Permits
nobody = λ user. none

none_yet : Stands lib upper memory nobody shop
unfolding rows_of select
none_yet = λ user. record { checks = refl; replies = refl }

run_refines_example :
    Stands lib upper memory
      (run_events lib upper memory day (empty, shop) nobody)
      (run lib upper memory day (empty, shop)).1
run_refines_example = run_refines lib upper memory day (empty, shop) nobody none_yet

-- The user is online in between, and not at the end.
online :
    rows_of phone
      (step lib upper memory (grant ann 100 "s1" "r1" (some cash)) (empty, shop)).1.radcheck
    ≡ record { username = phone; attribute = "Auth-Type"; op = ":="; value = "Accept" } ∷ []
unfolding step rows_of select delete_where exists
online = refl

offline : rows_of phone (run lib upper memory day (empty, shop)).1.radcheck ≡ []
unfolding step rows_of select delete_where exists
offline = refl

-- A second hour is bought before the first ends: at 4000 the first session is overdue, and the second
-- runs until 6600.
abbrev two_hours : List (Op lib upper memory)
two_hours = grant ann 100 "s1" "r1" (some cash) ∷ grant ann 3000 "s2" "r2" (some cash) ∷ []

abbrev bought : Store × Db
bought = run lib upper memory two_hours (empty, shop)

overdue : exists (λ s. phone == s.username && is_overdue 4000 s) bought.1.sessions ≡ true
unfolding step exists is_overdue
overdue = refl

still_running :
    exists
      (λ s. phone == s.username && ltb 4000 s.expires_at && s.status == "active")
      (step lib upper memory (reap 4000) bought).1.sessions
    ≡ true
unfolding step exists select is_overdue delete_where update_where
still_running = refl

reap_cuts_off_example :
    (rows_of phone (step lib upper memory (reap 4000) (bought.0, bought.1)).1.radcheck ≡ [])
    × (rows_of phone (step lib upper memory (reap 4000) (bought.0, bought.1)).1.radreply ≡ [])
reap_cuts_off_example =
    reap_cuts_off lib upper memory 4000 phone bought.0 bought.1
      (run_events lib upper memory two_hours (empty, shop) nobody)
      (run_refines lib upper memory two_hours (empty, shop) nobody none_yet) overdue

-- A batch of one code, and the form of the user that types it in.
abbrev batch : BatchForm
batch = record { location_id = "l1"; plan_id = "p1"; quantity = 1; note = "" }

abbrev draws : ℕ → ℕ → ℕ
draws i j = 0

abbrev ids : ℕ → String
ids i = "v1"

abbrev typed : VoucherForm
typed = record { code' = "MFB-AAAAAAAA"; phone = phone; mac = "" }

abbrev batched : Db
batched = (create_voucher_batch (λ i. true) draws ids ann "b1" (some batch) shop).1

answered : (create_voucher_batch (λ i. true) draws ids ann "b1" (some batch) shop).0.success ≡ true
unfolding create_voucher_batch owns exists
answered = refl

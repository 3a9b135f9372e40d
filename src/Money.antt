-- ===== src/Money.antt =====
-- api/internal/handlers/money.go: the money functions, with the two published rates of
-- handlers/payout.go and handlers/agent.go. Amounts are `int`s, rates are `float64`s.
pub mod Exact
pub mod Bounds
pub mod Rates
pub mod Events
mod Tests
use myfipay.Base.{
  ℕ, String, List, Option, none, some, Bool, true, false, ◌||◌, ◌&&◌, ◌-◌, map, leb, codes,
  codes_beq, if◌then◌else◌, ◌==◌, string_eq,
}
use myfipay.Base.Int.{ℤ, pos, ltb_ℤ, ◌-ℤ◌}
use myfipay.Float64.{Float64, finite, of_int, mul, to_int, lt_zero, ge_one}

-- The doubles next to 0.08 and 0.03.
abbrev pub default_commission_rate : Float64
default_commission_rate = finite false 0x14_7ae1_47ae_147b 56

abbrev pub agent_commission_rate : Float64
agent_commission_rate = finite false 0x1e_b851_eb85_1eb8 58

abbrev pub min_payout_ugx : ℤ
min_payout_ugx = pos 5000

module _ (unspecified : Float64 → ℤ) where
  -- int(float64(grossUGX) * rate)
  unfoldable pub platform_commission : ℤ → Float64 → ℤ
  unfolding to_int mul of_int
  platform_commission gross_ugx rate = to_int unspecified (mul (of_int gross_ugx) rate)

  unfoldable pub operator_available : ℤ → Float64 → ℤ → ℤ
  operator_available gross_ugx rate withdrawn_ugx =
      let available = gross_ugx -ℤ platform_commission gross_ugx rate -ℤ withdrawn_ugx in
      if ltb_ℤ available (pos 0) then pos 0 else available

  unfoldable pub agent_commission : ℤ → Float64 → ℤ
  unfolding to_int mul of_int
  agent_commission amount_ugx rate =
      let c = to_int unspecified (mul (of_int amount_ugx) rate) in
      if ltb_ℤ c (pos 1) then pos 0 else c

unfoldable pub agent_available : ℤ → ℤ → ℤ
agent_available earned_ugx reserved_ugx =
    let available = earned_ugx -ℤ reserved_ugx in
    if ltb_ℤ available (pos 0) then pos 0 else available

-- err != nil || parsed < 0 || parsed >= 1
keep_rate : Option Float64 → Float64 → Float64
unfolding lt_zero ge_one
keep_rate none fallback = fallback
keep_rate (some parsed) fallback = if lt_zero parsed || ge_one parsed then fallback else parsed

-- `parse_float` is strconv.ParseFloat at 64 bits: no value for an error.
module _ (parse_float : String → Option Float64) where
  unfoldable pub parse_commission_rate : String → Float64 → Float64
  unfolding keep_rate
  parse_commission_rate s fallback =
      if s == "" then fallback else keep_rate (parse_float s) fallback

-- strings.ToUpper on ASCII text.
unfoldable pub to_upper : List ℕ → List ℕ
to_upper = map (λ c. if leb b'a' c && leb c b'z' then c - 32 else c)

-- What the webhook does with the pending payment: "success", "failed" or "".
pub data Outcome : Type 0 where
  success failed ignored : Outcome

-- The two cases of the switch, on the texts in upper case.
unfoldable pub is_success : List ℕ → List ℕ → Bool
is_success status event =
    codes_beq status (codes "SUCCEEDED")
    || (codes_beq status (codes "SUCCESSFUL")
        || (codes_beq status (codes "COMPLETED") || codes_beq event (codes "COLLECTION.SUCCESS")))

unfoldable pub is_failure : List ℕ → List ℕ → Bool
is_failure status event =
    codes_beq status (codes "FAILED")
    || (codes_beq status (codes "FAILURE") || codes_beq event (codes "COLLECTION.FAILED"))

unfoldable pub classify_zengapay_event : List ℕ → List ℕ → Outcome
classify_zengapay_event transaction_status event =
    let status_upper = to_upper transaction_status in
    let event_upper = to_upper event in
    if is_success status_upper event_upper
    then success
    else if is_failure status_upper event_upper
    then failed
    else ignored

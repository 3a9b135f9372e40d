-- ===== src/Money/Tests.antt =====
-- The cases of handlers/money_test.go, and the theorems of this component at concrete inputs.
use myfipay.Base.{
  ℕ, ◌≡◌, refl, ◌⊎◌, ◌<◌, ◌+◌, ◌↔◌, String, Option, none, some, false, arith, codes, codes_beq,
  if◌then◌else◌, ◌==◌, string_eq,
}
use myfipay.Base.Int.{ℤ, pos, negsuc, ◌-ℤ◌, wrap, ◌≤ℤ◌}
use myfipay.Float64.{Float64, finite, infinite, nan}
use myfipay.Money.{
  platform_commission, operator_available, agent_commission, parse_commission_rate,
  default_commission_rate, agent_commission_rate, success, failed, ignored, classify_zengapay_event,
  to_upper, is_success, is_failure,
}
use myfipay.Money.Exact.{platform_commission_exact, agent_commission_exact, agent_commission-le}
use myfipay.Money.Bounds.{operator_available_splits}
use myfipay.Money.Rates.{InRange, parse_commission_rate_cases, parse_commission_rate_nan}
use myfipay.Money.Events.{SignalsSuccess, SignalsFailure, classify_zengapay_event_cases}

-- What amd64 gives for int(x) out of range.
abbrev lowest : Float64 → ℤ
lowest _ = negsuc 0x7fff_ffff_ffff_ffff

truncates : platform_commission lowest (pos 1_999) default_commission_rate ≡ pos 159
unfolding platform_commission
truncates = refl

large_month : platform_commission lowest (pos 50_000_000) default_commission_rate ≡ pos 4_000_000
unfolding platform_commission
large_month = refl

partial_withdrawal :
    operator_available lowest (pos 100_000) default_commission_rate (pos 50_000) ≡ pos 42_000
unfolding operator_available platform_commission ◌-ℤ◌ wrap
partial_withdrawal = refl

over_withdrawn :
    operator_available lowest (pos 100_000) default_commission_rate (pos 95_000) ≡ pos 0
unfolding operator_available platform_commission ◌-ℤ◌ wrap
over_withdrawn = refl

agent_of_plan : agent_commission lowest (pos 2_000) agent_commission_rate ≡ pos 60
unfolding agent_commission
agent_of_plan = refl

agent_of_sub_unit : agent_commission lowest (pos 33) agent_commission_rate ≡ pos 0
unfolding agent_commission
agent_of_sub_unit = refl

failed_event : classify_zengapay_event (codes "") (codes "Collection.Failed") ≡ failed
unfolding classify_zengapay_event is_success is_failure to_upper codes_beq
failed_event = refl

-- A few of the texts that strconv.ParseFloat reads.
abbrev some_floats : String → Option Float64
some_floats s =
    if s == "0.05"
    then some (finite false 0x1c_cccc_cccc_cccd 59)
    else if s == "NaN"
    then some nan
    else if s == "Inf"
    then some (infinite false)
    else none

platform_commission_exact_example :
    platform_commission lowest (pos 1_999) default_commission_rate ≡ pos 159
platform_commission_exact_example = platform_commission_exact lowest 1_999 (omega arith)

agent_commission_exact_example :
    (agent_commission lowest (pos 2_000) agent_commission_rate ≡ pos 60)
    × (agent_commission lowest (pos 2_000) agent_commission_rate ≡ pos 0 ↔ 2_000 < 34)
agent_commission_exact_example = agent_commission_exact lowest 2_000 (omega arith)

agent_commission-le_example :
    agent_commission lowest (pos 2_000) agent_commission_rate
    ≤ℤ platform_commission lowest (pos 2_000) default_commission_rate
agent_commission-le_example = agent_commission-le lowest 2_000 (omega arith)

operator_available_splits_example :
    (c a : ℕ) × (platform_commission lowest (pos 100_000) default_commission_rate ≡ pos c)
    × (operator_available lowest (pos 100_000) default_commission_rate (pos 50_000) ≡ pos a)
    × ((c + 50_000 + a ≡ 100_000) ⊎ ((100_000 < c + 50_000) × (a ≡ 0)))
operator_available_splits_example =
    operator_available_splits lowest 100_000 50_000 default_commission_rate (omega arith)
      (omega arith) (refl, omega arith, omega arith)

parse_commission_rate_cases_example :
    (parse_commission_rate some_floats "1.5" default_commission_rate ≡ default_commission_rate)
    ⊎ ((r : Float64) × (some_floats "1.5" ≡ some r)
        × (parse_commission_rate some_floats "1.5" default_commission_rate ≡ r)
        × (InRange r ⊎ (r ≡ nan)))
parse_commission_rate_cases_example =
    parse_commission_rate_cases some_floats "1.5" default_commission_rate

parse_commission_rate_nan_example :
    platform_commission lowest
      (pos 100_000)
      (parse_commission_rate some_floats "NaN" default_commission_rate)
    ≡ negsuc 0x7fff_ffff_ffff_ffff
parse_commission_rate_nan_example =
    parse_commission_rate_nan some_floats "NaN" default_commission_rate lowest (pos 100_000)
      (λ e. cc) refl

classify_zengapay_event_cases_example :
    let s = to_upper (codes "failed") in
    let e = to_upper (codes "Collection.Success") in
    let outcome = classify_zengapay_event (codes "failed") (codes "Collection.Success") in
    (SignalsSuccess s e × (outcome ≡ success))
    ⊎ ((¬ SignalsSuccess s e) × SignalsFailure s e × (outcome ≡ failed))
    ⊎ ((¬ SignalsSuccess s e) × (¬ SignalsFailure s e) × (outcome ≡ ignored))
classify_zengapay_event_cases_example =
    classify_zengapay_event_cases (codes "failed") (codes "Collection.Success")

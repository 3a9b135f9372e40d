-- ===== src/Money/Exact.antt =====
-- The published rates, 8 and 3 percent, give exact figures: the error of the binary rates and of
-- the one rounding never reaches a whole shilling.
use myfipay.Base.{ℕ, ◌*◌, ◌/◌, ◌^◌, ◌<◌, ◌≡◌, ◌↔◌, arith}
use myfipay.Base.Int.{ℤ, pos, ◌≤ℤ◌}
use myfipay.Float64.{Float64, fit}
use myfipay.Float64.Rounding.{fit_small, fit_near, fit-ge_pow, ulp_bounds, fit_reaches_pow}
use myfipay.Money.{
  platform_commission, agent_commission, default_commission_rate, agent_commission_rate,
}

-- Amounts below this bound, 2^51, are covered.
abbrev pub exact_limit : ℕ
exact_limit = 0x8_0000_0000_0000

eight_percent : (g : ℕ) → g < exact_limit → fit (g * 0x14_7ae1_47ae_147b) / 2 ^ 56 ≡ 8 * g / 100
eight_percent g h = omega (
  arith,
  fit_near (g * 0x14_7ae1_47ae_147b),
  ulp_bounds (g * 0x14_7ae1_47ae_147b),
  fit-ge_pow (g * 0x14_7ae1_47ae_147b) 56 (8 * g / 100) (omega arith) (omega arith),
)

three_percent : (g : ℕ) → g < exact_limit → fit (g * 0x1e_b851_eb85_1eb8) / 2 ^ 58 ≡ 3 * g / 100
three_percent g h = omega (
  arith,
  fit_near (g * 0x1e_b851_eb85_1eb8),
  ulp_bounds (g * 0x1e_b851_eb85_1eb8),
  fit_reaches_pow (g * 0x1e_b851_eb85_1eb8) 58 (3 * g / 100) (omega arith)
      (omega (arith, ulp_bounds (g * 0x1e_b851_eb85_1eb8))),
)

-- Where int(x) is not specified plays no part: the results are small.
module _ (unspecified : Float64 → ℤ) where
  -- At the default rate the platform takes exactly 8 percent of the gross, truncated: never a
  -- shilling more or less, for every amount below 2^51.
  pub platform_commission_exact :
      (g : ℕ)
      → g < exact_limit
      → platform_commission unspecified (pos g) default_commission_rate ≡ pos (8 * g / 100)
  unfolding platform_commission
  platform_commission_exact g h = rw (fit_small g (omega arith), eight_percent g h) (ground arith)

  -- At the published rate an agent earns exactly 3 percent of a payment, truncated, and so nothing
  -- from a payment of less than 34 UGX, for every amount below 2^51.
  pub agent_commission_exact :
      (g : ℕ)
      → g < exact_limit
      → (agent_commission unspecified (pos g) agent_commission_rate ≡ pos (3 * g / 100))
        × (agent_commission unspecified (pos g) agent_commission_rate ≡ pos 0 ↔ g < 34)
  unfolding agent_commission
  agent_commission_exact g h =
      rw (fit_small g (omega arith), three_percent g h)
        (ground arith, (λ e. ground arith, λ lt. ground arith))

  -- The agent's share of a payment never exceeds the platform's share of it at the default rate.
  pub agent_commission-le :
      (g : ℕ)
      → g < exact_limit
      → agent_commission unspecified (pos g) agent_commission_rate
        ≤ℤ platform_commission unspecified (pos g) default_commission_rate
  agent_commission-le g h =
      rw (platform_commission_exact g h, (agent_commission_exact g h).0) (omega arith)

-- ===== src/Money/Bounds.antt =====
-- What every admissible commission rate guarantees: the fee is a part of the gross, and the
-- available balance is what is left, never negative.
use native.Mathlib.Nat.{mul_comm, div-le_of_le-mul}
use myfipay.Base.{ℕ, ◌+◌, ◌-◌, ◌*◌, ◌/◌, ◌^◌, ◌≤◌, ◌<◌, ◌≡◌, ◌⊎◌, arith, false}
use myfipay.Base.Int.{ℤ, pos, int_max, pos-ℤ_pos, pos-ℤ_le, clamp-sub_ℕ}
use myfipay.Float64.{Float64, finite, infinite, nan, fit, significand}
use myfipay.Float64.Rounding.{fit_small, fit-le_pow}
use myfipay.Money.{platform_commission, operator_available, agent_available}

-- A rate in [0, 1) with a significand of 53 bits.
abbrev pub IsRate : Float64 → Type 0
IsRate (finite neg m s) = (neg ≡ false) × (m < 2 ^ s) × (m < significand)
IsRate (infinite neg) = ⊥
IsRate nan = ⊥

mul_mono_right : (g a b : ℕ) → a ≤ b → g * a ≤ g * b
mul_mono_right g a b h = grind arith

mul_lt_mono : (g h p : ℕ) → g < h → 0 < p → g * p < h * p
mul_lt_mono g h p lt some_p = grind arith

product-le : (g m s : ℕ) → g < significand → m < 2 ^ s → fit (g * m) ≤ g * 2 ^ s
product-le g m s hg hm =
    let below : g * m ≤ g * 2 ^ s = mul_mono_right g m (2 ^ s) (omega arith) in
    let room : g * 2 ^ s < significand * 2 ^ s =
      mul_lt_mono g significand (2 ^ s) hg (omega arith) in
    fit-le_pow (g * m) s g (omega arith) below

fee-le : (g m s : ℕ) → g < significand → m < 2 ^ s → fit (g * m) / 2 ^ s ≤ g
fee-le g m s hg hm =
    div-le_of_le-mul (2 ^ s) (omega (arith, product-le g m s hg hm, mul_comm g (2 ^ s)))

module _ (unspecified : Float64 → ℤ) where
  -- The platform's cut of a gross below 2^53 at an admissible rate is a part of the gross: at least
  -- 0 and at most all of it.
  pub platform_commission_bounds :
      (g : ℕ) (rate : Float64)
      → g < significand
      → IsRate rate
      → (c : ℕ) × (platform_commission unspecified (pos g) rate ≡ pos c) × (c ≤ g)
  unfolding platform_commission
  platform_commission_bounds g (finite neg m s) hg (plus, below, _) = (
    fit (g * m) / 2 ^ s,
    rw (plus, fit_small g hg) (ground (arith, fee-le g m s hg below)),
    fee-le g m s hg below,
  )
  platform_commission_bounds g (infinite neg) hg h = absurd h
  platform_commission_bounds g nan hg h = absurd h

  -- At an admissible rate the gross splits into the platform's cut, what was withdrawn and what is
  -- available; once more than that has been withdrawn, nothing is available. (Gross below 2^53,
  -- withdrawn an `int`.)
  pub operator_available_splits :
      (g w : ℕ) (rate : Float64)
      → g < significand
      → w ≤ int_max
      → IsRate rate
      → (c a : ℕ) × (platform_commission unspecified (pos g) rate ≡ pos c)
        × (operator_available unspecified (pos g) rate (pos w) ≡ pos a)
        × ((c + w + a ≡ g) ⊎ ((g < c + w) × (a ≡ 0)))
  unfolding operator_available
  operator_available_splits g w rate hg hw hr =
      let (c, e, le) = platform_commission_bounds g rate hg hr in
      (c, g - c - w, e, available c e le, ground arith)
    where
      available :
          (c : ℕ)
          → platform_commission unspecified (pos g) rate ≡ pos c
          → c ≤ g
          → operator_available unspecified (pos g) rate (pos w) ≡ pos (g - c - w)
      available c e le =
          rw (e, pos-ℤ_le g c (omega arith) le, pos-ℤ_pos (g - c) w (omega arith) hw)
            (clamp-sub_ℕ (g - c) w)

-- An agent's balance is what is left of the earnings, never negative.
agent_available_splits :
    (earned reserved : ℕ)
    → earned ≤ int_max
    → reserved ≤ int_max
    → agent_available (pos earned) (pos reserved) ≡ pos (earned - reserved)
unfolding agent_available
agent_available_splits earned reserved he hr =
    rw (pos-ℤ_pos earned reserved he hr) (clamp-sub_ℕ earned reserved)

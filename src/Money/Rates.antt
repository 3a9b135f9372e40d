-- ===== src/Money/Rates.antt =====
-- Which commission rates a tenant can be given (parseCommissionRate).
use myfipay.Base.{
  ◌^◌, ◌<◌, ◌≡◌, ◌≢◌, refl, ◌⊎◌, inl, inr, String, Option, some, true, false, arith, ◌==◌,
  string_eq, Bool-cases, Option-cases, ne→==,
}
use myfipay.Base.Int.{ℤ, pos, negsuc}
use myfipay.Float64.{Float64, finite, infinite, nan}
use myfipay.Money.{platform_commission, parse_commission_rate, keep_rate}

-- The finite values of at least 0 and less than 1; -0 is among them.
abbrev pub InRange : Float64 → Type 0
InRange (finite neg m s) = ((neg ≡ false) × (m < 2 ^ s)) ⊎ ((neg ≡ true) × (m ≡ 0))
InRange (infinite neg) = ⊥
InRange nan = ⊥

keep_rate-cases :
    (r fallback : Float64)
    → (keep_rate (some r) fallback ≡ fallback)
      ⊎ ((keep_rate (some r) fallback ≡ r) × (InRange r ⊎ (r ≡ nan)))
unfolding keep_rate
keep_rate-cases (finite neg m s) fallback = ground arith
keep_rate-cases (infinite neg) fallback = ground arith
keep_rate-cases nan fallback = inr (refl, inr refl)

keep_rate-InRange : (r fallback : Float64) → InRange r → keep_rate (some r) fallback ≡ r
unfolding keep_rate
keep_rate-InRange (finite neg m s) fallback h = ground arith
keep_rate-InRange (infinite neg) fallback h = absurd h
keep_rate-InRange nan fallback h = absurd h

fee_of_nan :
    (unspecified : Float64 → ℤ) (gross : ℤ)
    → platform_commission unspecified gross nan ≡ unspecified nan
unfolding platform_commission
fee_of_nan unspecified (pos n) = refl
fee_of_nan unspecified (negsuc n) = refl

module _ (parse_float : String → Option Float64) (s : String) (fallback : Float64) where
  -- The rate in force is the fallback, or the number that the text stands for, and then it is at
  -- least 0 and less than 1, or not a number.
  pub parse_commission_rate_cases :
      (parse_commission_rate parse_float s fallback ≡ fallback)
      ⊎ ((r : Float64) × (parse_float s ≡ some r)
          × (parse_commission_rate parse_float s fallback ≡ r)
          × (InRange r ⊎ (r ≡ nan)))
  unfolding parse_commission_rate
  parse_commission_rate_cases = elim (Bool-cases (s == "")) [
    | inl empty ↦ inl (rw empty)
    | inr text ↦ elim (Option-cases (parse_float s)) [
      | inl bad ↦ inl (rw (text, bad))
      | inr (r, e) ↦ kept text r e (keep_rate-cases r fallback)
    ]
  ]
    where
      kept :
          (s == "") ≡ false
          → (r : Float64) → parse_float s ≡ some r
          → (keep_rate (some r) fallback ≡ fallback)
            ⊎ ((keep_rate (some r) fallback ≡ r) × (InRange r ⊎ (r ≡ nan)))
          → (parse_commission_rate parse_float s fallback ≡ fallback)
            ⊎ ((r : Float64) × (parse_float s ≡ some r)
                × (parse_commission_rate parse_float s fallback ≡ r)
                × (InRange r ⊎ (r ≡ nan)))
      kept text r e (inl fell) = inl (rw (text, e) fell)
      kept text r e (inr (same, range)) = inr (r, e, rw (text, e) same, range)

  -- A text that stands for a number in the range is kept, and no other finite number is.
  parse_commission_rate_keeps :
      {r : Float64}
      → s ≢ ""
      → parse_float s ≡ some r
      → InRange r
      → parse_commission_rate parse_float s fallback ≡ r
  unfolding parse_commission_rate
  parse_commission_rate_keeps {r} text e h =
      rw (ne→== s "" text, e) (keep_rate-InRange r fallback h)

  -- A text that strconv.ParseFloat reads as NaN passes the range check, and the platform's cut of
  -- every gross is then whatever the conversion of NaN to an `int` gives.
  pub parse_commission_rate_nan :
      (unspecified : Float64 → ℤ) (gross : ℤ)
      → s ≢ ""
      → parse_float s ≡ some nan
      → platform_commission unspecified gross (parse_commission_rate parse_float s fallback)
        ≡ unspecified nan
  unfolding parse_commission_rate keep_rate
  parse_commission_rate_nan unspecified gross text e =
      rw (ne→== s "" text, e) (fee_of_nan unspecified gross)

-- ===== src/Float64.antt =====
-- The part of Go's `float64` that the money code uses (handlers/money.go): conversion from and to
-- `int`, multiplication, and the two comparisons. IEEE 754 binary64 with rounding to nearest, ties
-- to even. `finite neg m s` stands for (-1)^neg * m / 2^s. The exponent's range is left out: a
-- product that would leave it is either far below 1, and truncates to 0 as it does here, or far
-- above every `int`, where the conversion is not specified here either.
pub mod Rounding
use myfipay.Base.{
  ℕ, zero, suc, ◌+◌, ◌-◌, ◌*◌, ◌/◌, ◌%◌, ◌^◌, ◌≤◌, Bool, true, false, ltb, leb, ◌==◌, nat_eq,
  if◌then◌else◌,
}
use myfipay.Base.Int.{ℤ, pos, negsuc, int_max}

pub data Float64 : Type 0 where
  finite : Bool → ℕ → ℕ → Float64
  infinite : Bool → Float64
  nan : Float64

-- The first natural number that needs more than the 53 bits of a significand.
abbrev pub significand : ℕ
significand = 0x20_0000_0000_0000

-- The gap between neighbouring values at n, counted in units: a power of two.
unfoldable pub ulp : ℕ → ℕ → ℕ
ulp zero n = 1
ulp (suc fuel) n = let rest = 2 * ulp fuel (n / 2) in if ltb n significand then 1 else rest

-- q units of w and a remainder r, to the nearest, ties to even.
unfoldable pub nearest : ℕ → ℕ → ℕ → ℕ
nearest w q r =
    if ltb (r + r) w then q * w else if ltb w (r + r) then (q + 1) * w else (q + q % 2) * w

-- A natural number rounded to 53 significant bits.
unfoldable pub fit : ℕ → ℕ
unfolding nearest ulp
fit n = let w = ulp (suc n) n in nearest w (n / w) (n % w)

abbrev flip_sign : Bool → Bool → Bool
flip_sign true true = false
flip_sign true false = true
flip_sign false t = t

-- float64(n)
unfoldable pub of_int : ℤ → Float64
unfolding fit
of_int (pos n) = finite false (fit n) 0
of_int (negsuc n) = finite true (fit (suc n)) 0

-- x * y
unfoldable pub mul : Float64 → Float64 → Float64
unfolding fit
mul (finite s m e) (finite t n d) = finite (flip_sign s t) (fit (m * n)) (e + d)
mul (finite s m e) (infinite t) = if m == 0 then nan else infinite (flip_sign s t)
mul (infinite s) (finite t n d) = if n == 0 then nan else infinite (flip_sign s t)
mul (infinite s) (infinite t) = infinite (flip_sign s t)
mul nan y = nan
mul (finite s m e) nan = nan
mul (infinite s) nan = nan

-- x < 0
unfoldable pub lt_zero : Float64 → Bool
lt_zero (finite neg m s) = if m == 0 then false else neg
lt_zero (infinite neg) = neg
lt_zero nan = false

-- x >= 1
unfoldable pub ge_one : Float64 → Bool
ge_one (finite neg m s) = if neg then false else leb (2 ^ s) m
ge_one (infinite neg) = if neg then false else true
ge_one nan = false

-- int(x): towards zero. The language leaves the result open where the value does not fit, so it is
-- a parameter.
module _ (unspecified : Float64 → ℤ) where
  unfoldable pub to_int : Float64 → ℤ
  to_int (finite false m s) =
      if leb (m / 2 ^ s) int_max then pos (m / 2 ^ s) else unspecified (finite false m s)
  to_int (finite true m s) =
      if m / 2 ^ s == 0
      then pos 0
      else if leb (m / 2 ^ s) (int_max + 1)
      then negsuc (m / 2 ^ s - 1)
      else unspecified (finite true m s)
  to_int (infinite neg) = unspecified (infinite neg)
  to_int nan = unspecified nan

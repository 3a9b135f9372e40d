-- ===== src/Float64/Rounding.antt =====
-- How far rounding to 53 bits moves a natural number (Float64.antt), and which bounds it keeps.
use native.Mathlib.Nat.{div-add-mod', mul_assoc, mod-lt, pow-succ', add-zero}
use myfipay.Base.{
  lt→ltb, Bool-cases, ℕ, zero, suc, ◌+◌, ◌*◌, ◌/◌, ◌%◌, ◌^◌, ◌≤◌, ◌<◌, ◌≡◌, refl, sym, ap, subst,
  ◌∙◌, ◌⊎◌, inl, inr, arith, ltb, dec_lt,
}
use myfipay.Float64.{significand, ulp, nearest, fit}

ulp_pos : (f n : ℕ) → 0 < ulp f n
unfolding ulp
ulp_pos zero n = omega arith
ulp_pos (suc f) n = ground (arith, ulp_pos f (n / 2))

-- With fuel above n the unit is large enough for the number to have 53 bits.
lt-ulp : (f n : ℕ) → n < f → n < significand * ulp f n
unfolding ulp
lt-ulp zero n h = elim h [ ]
lt-ulp (suc f) n h = ground (arith, lt-ulp f (n / 2))

-- And it is one, or no larger than 52 bits require.
ulp-le : (f n : ℕ) → (ulp f n ≡ 1) ⊎ (0x10_0000_0000_0000 * ulp f n ≤ n)
unfolding ulp
ulp-le zero n = inl refl
ulp-le (suc f) n = ground (arith, ulp-le f (n / 2))

-- The unit of a number below 2^(53 + j) divides 2^j.
ulp-divides : (j f n : ℕ) → n < significand * 2 ^ j → (c : ℕ) × (c * ulp f n ≡ 2 ^ j)
unfolding ulp
ulp-divides zero zero n h = (1, refl)
ulp-divides zero (suc f) n h = (1, rw (lt→ltb n significand (omega arith)))
ulp-divides (suc j) zero n h = (2 ^ suc j, grind arith)
ulp-divides (suc j) (suc f) n h =
    let half = ulp-divides j f (n / 2) (omega (arith, pow-succ' 2 j)) in
    elim (Bool-cases (ltb n significand)) [
      | inl small ↦ (2 ^ suc j, rw small (grind arith))
      | inr large ↦ (half.0, rw large (grind (arith, pow-succ' 2 j, half.1)))
    ]

nearest_near :
    (w q r : ℕ)
    → r < w
    → (nearest w q r + nearest w q r ≤ q * w + r + (q * w + r) + w)
      × (q * w + r + (q * w + r) ≤ nearest w q r + nearest w q r + w)
unfolding nearest
nearest_near w q r h = ground arith

parity : (q : ℕ) → (q % 2 ≡ 0) ⊎ (q % 2 ≡ 1)
parity q = omega arith

mul_mono : (a b w : ℕ) → a ≤ b → a * w ≤ b * w
mul_mono a b w h = grind arith

units-le : (w c q r : ℕ) → r < w → c * w ≤ q * w + r → c ≤ q
units-le w c q r h le = elim (dec_lt q c) [
  | yes p ↦ absurd (omega (arith, mul_mono (q + 1) c w (omega arith)))
  | no p ↦ omega arith
]

units-ge : (w c q r : ℕ) → r < w → q * w + r ≤ c * w → (q ≤ c) × (0 < r → q + 1 ≤ c)
units-ge w c q r h le = elim (dec_lt q c) [
  | yes p ↦ (omega arith, λ _. omega arith)
  | no p ↦ elim (dec_lt c q) [
    | yes p' ↦ absurd (omega (arith, mul_mono (c + 1) q w (omega arith)))
    | no p' ↦ (omega arith, λ pos. absurd (omega (arith, mul_mono c q w (omega arith))))
  ]
]

-- Rounding goes down to the last unit, or up to the next one when something is left over.
nearest-cases :
    (w q r : ℕ) → r < w → (nearest w q r ≡ q * w) ⊎ ((nearest w q r ≡ (q + 1) * w) × (0 < r))
unfolding nearest
nearest-cases w q r h = elim (parity q) [
  | inl even ↦ rw even (ground (arith, add-zero q))
  | inr odd ↦ rw odd (ground arith)
]

-- Rounding keeps a bound that is a multiple of the unit.
nearest-ge : (w c q r : ℕ) → r < w → c * w ≤ q * w + r → c * w ≤ nearest w q r
nearest-ge w c q r h le =
    omega
      (arith, nearest-cases w q r h, mul_mono c q w (units-le w c q r h le), mul_mono c (q + 1) w)

nearest-le : (w c q r : ℕ) → r < w → q * w + r ≤ c * w → nearest w q r ≤ c * w
nearest-le w c q r h le = elim (nearest-cases w q r h) [
  | inl down ↦ rw down (mul_mono q c w (units-ge w c q r h le).0)
  | inr (up, some_rest) ↦ rw up (mul_mono (q + 1) c w ((units-ge w c q r h le).1 some_rest))
]

-- A natural number is its quotient and remainder by the unit.
split_unit : (n : ℕ) → let w = ulp (suc n) n in (n / w * w + n % w ≡ n) × (n % w < w)
split_unit n = (div-add-mod' n _, mod-lt n (ulp_pos (suc n) n))

-- Rounding moves a number by at most half a unit.
pub fit_near :
    (n : ℕ) → (fit n + fit n ≤ n + n + ulp (suc n) n) × (n + n ≤ fit n + fit n + ulp (suc n) n)
unfolding fit
fit_near n =
    omega
      (arith, split_unit n, nearest_near (ulp (suc n) n) (n / ulp (suc n) n) (n % ulp (suc n) n))

pub fit-ge : (n c : ℕ) → c * ulp (suc n) n ≤ n → c * ulp (suc n) n ≤ fit n
unfolding fit
fit-ge n c h = nearest-ge _ c _ _ (split_unit n).1 (rw (split_unit n).0 h)

pub fit-le : (n c : ℕ) → n ≤ c * ulp (suc n) n → fit n ≤ c * ulp (suc n) n
unfolding fit
fit-le n c h = nearest-le _ c _ _ (split_unit n).1 (rw (split_unit n).0 h)

-- A bound k * 2^j is kept by the rounding of every number below 2^(53 + j).
pub fit-ge_pow : (n j k : ℕ) → n < significand * 2 ^ j → k * 2 ^ j ≤ n → k * 2 ^ j ≤ fit n
fit-ge_pow n j k h le =
    let (c, e) = ulp-divides j (suc n) n h in
    let same : k * c * ulp (suc n) n ≡ k * 2 ^ j = mul_assoc k c _ ∙ ap (λ t. k * t) e in
    subst (λ t. t ≤ fit n) same (fit-ge n (k * c) (subst (λ t. t ≤ n) (sym same) le))

pub fit-le_pow : (n j k : ℕ) → n < significand * 2 ^ j → n ≤ k * 2 ^ j → fit n ≤ k * 2 ^ j
fit-le_pow n j k h le =
    let (c, e) = ulp-divides j (suc n) n h in
    let same : k * c * ulp (suc n) n ≡ k * 2 ^ j = mul_assoc k c _ ∙ ap (λ t. k * t) e in
    subst (λ t. fit n ≤ t) same (fit-le n (k * c) (subst (λ t. n ≤ t) (sym same) le))

-- Integers of at most 53 bits are exact.
pub fit_small : (n : ℕ) → n < significand → fit n ≡ n
fit_small n h = omega (
  arith,
  fit-ge_pow n 0 n (omega arith) (omega arith),
  fit-le_pow n 0 n (omega arith) (omega arith),
)

close-le :
    (n c d : ℕ)
    → c * ulp (suc n) n + c * ulp (suc n) n < n + n + ulp (suc n) n
    → n + n ≤ d * ulp (suc n) n + d * ulp (suc n) n + ulp (suc n) n
    → c ≤ d
close-le n c d h near = elim (dec_lt d c) [
  | yes p ↦ absurd (omega (arith, mul_mono (d + 1) c (ulp (suc n) n) (omega arith)))
  | no p ↦ omega arith
]

-- A multiple of the unit that is nearer than half a unit is reached.
pub fit_reaches :
    (n c : ℕ)
    → c * ulp (suc n) n + c * ulp (suc n) n < n + n + ulp (suc n) n
    → c * ulp (suc n) n ≤ fit n
unfolding fit
fit_reaches n c h = elim (nearest-cases _ (n / ulp (suc n) n) _ (split_unit n).1) [
  | inl down ↦
      rw down
        (mul_mono c (n / ulp (suc n) n) _ (close-le n c (n / ulp (suc n) n) h (rw (← down) near)))
  | inr (up, _) ↦ rw up (
      mul_mono c (n / ulp (suc n) n + 1) _
        (close-le n c (n / ulp (suc n) n + 1) h (rw (← up) near)))
]
  where
    near : n + n ≤ fit n + fit n + ulp (suc n) n
    near = (fit_near n).1

pub fit_reaches_pow :
    (n j k : ℕ)
    → n < significand * 2 ^ j
    → k * 2 ^ j + k * 2 ^ j < n + n + ulp (suc n) n
    → k * 2 ^ j ≤ fit n
fit_reaches_pow n j k h lt =
    let (c, e) = ulp-divides j (suc n) n h in
    let same : k * c * ulp (suc n) n ≡ k * 2 ^ j = mul_assoc k c _ ∙ ap (λ t. k * t) e in
    subst (λ t. t ≤ fit n) same
      (fit_reaches n (k * c) (subst (λ t. t + t < n + n + ulp (suc n) n) (sym same) lt))

-- Half a unit is at most one part in 2^53 of a number that does not fit exactly.
pub ulp_bounds :
    (n : ℕ)
    → (n < significand * ulp (suc n) n)
      × ((ulp (suc n) n ≡ 1) ⊎ (0x10_0000_0000_0000 * ulp (suc n) n ≤ n))
ulp_bounds n = (lt-ulp (suc n) n (omega arith), ulp-le (suc n) n)

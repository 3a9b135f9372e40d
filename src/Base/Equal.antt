-- ===== src/Base/Equal.antt =====
-- Equality as an interface: numbers and texts, and the program's enumerations.
use Prim.Native.Nat.{ℕ}
use Prim.Native.String.{String}
use text.Mathlib.Text.{◌==◌ as same_text}
use text.Mathlib.TextEquality.{eq_iff}
use mathlib.Core.Path.{◌≡◌, refl}
use mathlib.Core.Logic.{◌↔◌, ◌≢◌, inl, inr}
use mathlib.Core.Bool.{Bool, true, false}
use myfipay.Base.Tests.{nat_beq, nat_beq_iff, Bool-cases}

-- Go's `==` on a type of keys: a test that decides equality.
pub record HasEq {ℓ} (K : Type ℓ) : Type ℓ where
  pub equals : K → K → Bool
  pub equals_iff : (j k : K) → (equals j k ≡ true) ↔ (j ≡ k)

infix 50 ◌==◌
abbrev pub ◌==◌ {ℓ} : {K : Type ℓ} ⦃key : HasEq K⦄ → K → K → Bool
◌==◌ ⦃key⦄ = key.equals

module _ {ℓ} {K : Type ℓ} ⦃key : HasEq K⦄ where
  pub ==-refl : (k : K) → (k == k) ≡ true
  ==-refl k = (key.equals_iff k k).1 refl

  pub ==→eq : (j k : K) → (j == k) ≡ true → j ≡ k
  ==→eq j k h = (key.equals_iff j k).0 h

  pub ne→== : (j k : K) → j ≢ k → (j == k) ≡ false
  ne→== j k h = elim (Bool-cases (j == k)) [
    | inl same ↦ absurd (h (==→eq j k same))
    | inr other ↦ other
  ]

instance abbrev pub string_eq : HasEq String
string_eq = record { equals = same_text; equals_iff = eq_iff }

instance abbrev pub nat_eq : HasEq ℕ
nat_eq = record { equals = nat_beq; equals_iff = nat_beq_iff }

-- ===== src/Base/Int.antt =====
-- Go's `int`, a signed 64-bit word: an integer in [-2^63, 2^63), with wrap-around.
use Prim.Native.Nat.{ℕ, suc, ◌+◌, ◌-◌, ◌%◌, ◌≤◌, ◌<◌}
use native.Mathlib.Nat.{add-zero, zero-add}
use mathlib.Core.Path.{◌≡◌}
use mathlib.Core.Bool.{Bool}
use native.Mathlib.Omega.{arith}
use myfipay.Base.Tests.{ltb, leb, if◌then◌else◌}

-- `negsuc n` is -(n + 1).
pub data ℤ : Type 0 where
  pos : ℕ → ℤ
  negsuc : ℕ → ℤ

abbrev pub pos_part : ℤ → ℕ
pos_part (pos n) = n
pos_part (negsuc n) = 0

abbrev pub neg_part : ℤ → ℕ
neg_part (pos n) = 0
neg_part (negsuc n) = suc n

-- a - b, as an integer.
abbrev pub sub_ℕ : ℕ → ℕ → ℤ
sub_ℕ a b = if leb b a then pos (a - b) else negsuc (b - a - 1)

infix 50 ◌≤ℤ◌ ◌<ℤ◌
abbrev pub ◌≤ℤ◌ : ℤ → ℤ → Type 0
a ≤ℤ b = pos_part a + neg_part b ≤ pos_part b + neg_part a

abbrev pub ◌<ℤ◌ : ℤ → ℤ → Type 0
a <ℤ b = pos_part a + neg_part b < pos_part b + neg_part a

abbrev pub ltb_ℤ : ℤ → ℤ → Bool
ltb_ℤ a b = ltb (pos_part a + neg_part b) (pos_part b + neg_part a)

abbrev pub int_max : ℕ
int_max = 0x7fff_ffff_ffff_ffff

-- The values that an `int` can hold.
pub record IsInt (a : ℤ) : Type 0 where
  pub above : neg_part a ≤ int_max + 1
  pub below : pos_part a ≤ int_max

-- The word that stands for a - b: the value modulo 2^64, in [-2^63, 2^63).
unfoldable pub wrap : ℤ → ℤ
wrap a =
    let word =
      (pos_part a % 0x1_0000_0000_0000_0000
        + (0x1_0000_0000_0000_0000 - neg_part a % 0x1_0000_0000_0000_0000))
      % 0x1_0000_0000_0000_0000 in
    if leb word int_max then pos word else negsuc (0x1_0000_0000_0000_0000 - word - 1)

infixl 65 ◌-ℤ◌
unfoldable pub ◌-ℤ◌ : ℤ → ℤ → ℤ
a -ℤ b = wrap (sub_ℕ (pos_part a + neg_part b) (neg_part a + pos_part b))

pub wrap-IsInt : (a : ℤ) → IsInt a → wrap a ≡ a
unfolding wrap
wrap-IsInt (pos n) h = ground arith
wrap-IsInt (negsuc n) h = ground arith

-- The difference of two amounts fits, and is exact.
pub pos-ℤ_pos : (a b : ℕ) → a ≤ int_max → b ≤ int_max → pos a -ℤ pos b ≡ sub_ℕ a b
unfolding ◌-ℤ◌
pos-ℤ_pos a b ha hb = rw (add-zero a, zero-add b) (wrap-IsInt (sub_ℕ a b) (ground arith))

pub pos-ℤ_le : (a b : ℕ) → a ≤ int_max → b ≤ a → pos a -ℤ pos b ≡ pos (a - b)
pos-ℤ_le a b ha hb = rw (pos-ℤ_pos a b ha (omega arith)) (ground arith)

-- Below zero counts as zero.
pub clamp-sub_ℕ : (a b : ℕ) → (if ltb_ℤ (sub_ℕ a b) (pos 0) then pos 0 else sub_ℕ a b) ≡ pos (a - b)
clamp-sub_ℕ a b = ground arith

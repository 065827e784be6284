-- ===== src/Common/Int.antt =====
-- Signed integers over the native numbers, and the 64-bit reading of Go's int, int64 and
-- time.Duration.
use intercore.Common.Tests.{ltb, leb, ◌==◌, if◌then◌else◌}
use Prim.Native.Nat.{ℕ, suc, ◌+◌, ◌-◌, ◌%◌, ◌≤◌, ◌<◌}
use mathlib.Core.Path.{◌≡◌}
use mathlib.Core.Logic.{◌↔◌}
use mathlib.Core.Bool.{Bool}
use native.Mathlib.Omega.{arith}

-- `negsuc n` is -(n + 1).
pub data ℤ : Type 0 where
  pos : ℕ → ℤ
  negsuc : ℕ → ℤ

abbrev pub pos_part : ℤ → ℕ
pos_part (pos n) = n
pos_part (negsuc n) = 0

abbrev pub neg_part : ℤ → ℕ
neg_part (pos n) = 0
neg_part (negsuc n) = suc n

abbrev pub sub_ℕ : ℕ → ℕ → ℤ
sub_ℕ a b = if leb b a then pos (a - b) else negsuc (b - a - 1)

infixl 65 ◌+ℤ◌ ◌-ℤ◌
infix 50 ◌≤ℤ◌
unfoldable pub ◌+ℤ◌ : ℤ → ℤ → ℤ
a +ℤ b = sub_ℕ (pos_part a + pos_part b) (neg_part a + neg_part b)

unfoldable pub ◌-ℤ◌ : ℤ → ℤ → ℤ
a -ℤ b = sub_ℕ (pos_part a + neg_part b) (neg_part a + pos_part b)

abbrev pub ◌≤ℤ◌ : ℤ → ℤ → Type 0
a ≤ℤ b = pos_part a + neg_part b ≤ pos_part b + neg_part a

abbrev pub ltb_ℤ : ℤ → ℤ → Bool
ltb_ℤ a b = ltb (pos_part a + neg_part b) (pos_part b + neg_part a)

abbrev pub leb_ℤ : ℤ → ℤ → Bool
leb_ℤ a b = leb (pos_part a + neg_part b) (pos_part b + neg_part a)

abbrev pub eqb_ℤ : ℤ → ℤ → Bool
eqb_ℤ a b = (pos_part a + neg_part b) == (pos_part b + neg_part a)

abbrev pub two_63 : ℕ
two_63 = 9223372036854775808

abbrev pub two_64 : ℕ
two_64 = 18446744073709551616

-- The low 64 bits, and the signed number that they stand for.
abbrev pub to_bits : ℤ → ℕ
to_bits (pos n) = n % two_64
to_bits (negsuc n) = two_64 - 1 - n % two_64

abbrev pub from_bits : ℕ → ℤ
from_bits b = if ltb b two_63 then pos b else negsuc (two_64 - 1 - b)

-- int64 arithmetic keeps the low 64 bits of the exact result.
unfoldable pub wrap64 : ℤ → ℤ
wrap64 a = from_bits (to_bits a)

pub wrap64_pos : (n : ℕ) → n < two_63 → wrap64 (pos n) ≡ pos n
unfolding wrap64
wrap64_pos n h = ground arith

pub wrap64_bounds : (a : ℤ) → (negsuc (two_63 - 1) ≤ℤ wrap64 a) × (wrap64 a ≤ℤ pos (two_63 - 1))
unfolding wrap64
wrap64_bounds (pos n) = ground arith
wrap64_bounds (negsuc n) = ground arith

-- `time.Time.Sub` stops at the ends of the 64-bit range.
unfoldable pub clamp64 : ℤ → ℤ
clamp64 a =
    if ltb_ℤ (pos (two_63 - 1)) a
    then pos (two_63 - 1)
    else if ltb_ℤ a (negsuc (two_63 - 1))
    then negsuc (two_63 - 1)
    else a

pub -ℤ_parts :
    (a b : ℤ)
    → pos_part (a -ℤ b) + neg_part a + pos_part b ≡ neg_part (a -ℤ b) + pos_part a + neg_part b
unfolding ◌-ℤ◌
-ℤ_parts a b = ground arith

pub +ℤ_pos : (a b : ℕ) → pos a +ℤ pos b ≡ pos (a + b)
unfolding ◌+ℤ◌
+ℤ_pos a b = ground arith

-- A bound short of the upper end is met before the cut exactly when it is met after it.
pub clamp64_iff : (a : ℤ) (n : ℕ) → n < two_63 - 1 → (clamp64 a ≤ℤ pos n) ↔ (a ≤ℤ pos n)
unfolding clamp64
clamp64_iff (pos k) n h = ground arith
clamp64_iff (negsuc k) n h = ground arith

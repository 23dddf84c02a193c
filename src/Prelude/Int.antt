-- ===== src/Prelude/Int.antt =====
-- Signed C integers over the native numbers, under the library's names.
use cmake_template.Prelude.Tests.{ltb, leb, if◌then◌else◌}
use Prim.Native.Nat.{ℕ, suc, ◌+◌, ◌-◌}
use mathlib.Core.Bool.{Bool}

-- `negsuc n` is -(n + 1).
pub data ℤ : Type 0 where
  pos : ℕ → ℤ
  negsuc : ℕ → ℤ

abbrev pub pos_part : ℤ → ℕ
pos_part (pos n) = n
pos_part (negsuc n) = 0

abbrev pub neg_part : ℤ → ℕ
neg_part (pos n) = 0
neg_part (negsuc n) = suc n

-- a - b, as an integer.
abbrev pub sub_ℕ : ℕ → ℕ → ℤ
sub_ℕ a b = if leb b a then pos (a - b) else negsuc (b - a - 1)

abbrev pub ltb_ℤ : ℤ → ℤ → Bool
ltb_ℤ a b = ltb (pos_part a + neg_part b) (pos_part b + neg_part a)

-- The machine operations `x + 1` and `x - 1`, away from the ends of the range.
abbrev pub suc_ℤ : ℤ → ℤ
suc_ℤ a = sub_ℕ (pos_part a + 1) (neg_part a)

abbrev pub pred_ℤ : ℤ → ℤ
pred_ℤ a = sub_ℕ (pos_part a) (neg_part a + 1)

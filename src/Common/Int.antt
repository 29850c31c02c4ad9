-- ===== src/Common/Int.antt =====
-- Signed integers over the native numbers, for offsets that 32-bit arithmetic makes negative.
use Prim.Native.Nat.{ℕ, suc, ◌+◌, ◌-◌, ◌<◌}
use mathlib.Core.Bool.{Bool}
use teekit.Common.Tests.{ltb, leb, if◌then◌else◌}

-- `negsuc n` is -(n + 1).
pub data ℤ : Type 0 where
  pos : ℕ → ℤ
  negsuc : ℕ → ℤ

abbrev pub pos_part : ℤ → ℕ
pos_part (pos n) = n
pos_part (negsuc n) = 0

abbrev pub neg_part : ℤ → ℕ
neg_part (pos n) = 0
neg_part (negsuc n) = suc n

-- a - b, as an integer.
abbrev pub sub_ℕ : ℕ → ℕ → ℤ
sub_ℕ a b = if leb b a then pos (a - b) else negsuc (b - a - 1)

abbrev pub ltb_ℤ : ℤ → ℤ → Bool
ltb_ℤ a b = ltb (pos_part a + neg_part b) (pos_part b + neg_part a)

infix 50 ◌<ℤ◌
abbrev pub ◌<ℤ◌ : ℤ → ℤ → Type 0
a <ℤ b = pos_part a + neg_part b < pos_part b + neg_part a

-- The number that a 32-bit pattern stands for, as JavaScript's shifts and `|` read it.
unfoldable pub to_int32 : ℕ → ℤ
to_int32 u = sub_ℕ u (if ltb u 0x8000_0000 then 0 else 0x1_0000_0000)

-- n + z
unfoldable pub add_ℕ : ℕ → ℤ → ℤ
add_ℕ n z = sub_ℕ (n + pos_part z) (neg_part z)

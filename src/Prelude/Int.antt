-- ===== src/Prelude/Int.antt =====
-- Signed integers over the native numbers, under the library's names.
use Prim.Native.Nat.{ℕ, suc, ◌+◌, ◌-◌, ◌%◌, ◌/◌, ◌^◌}
use mathlib.Core.Bool.{Bool}
use idli_v.Prelude.Tests.{ltb, leb, if◌then◌else◌}

-- `negsuc n` is -(n + 1).
pub data ℤ : Type 0 where
  pos : ℕ → ℤ
  negsuc : ℕ → ℤ

abbrev pub pos_part : ℤ → ℕ
pos_part (pos n) = n
pos_part (negsuc n) = 0

abbrev pub neg_part : ℤ → ℕ
neg_part (pos n) = 0
neg_part (negsuc n) = suc n

-- a - b, as an integer.
abbrev pub sub_ℕ : ℕ → ℕ → ℤ
sub_ℕ a b = if leb b a then pos (a - b) else negsuc (b - a - 1)

infixl 65 ◌+ℤ◌
abbrev pub ◌+ℤ◌ : ℤ → ℤ → ℤ
a +ℤ b = sub_ℕ (pos_part a + pos_part b) (neg_part a + neg_part b)

abbrev pub ltb_ℤ : ℤ → ℤ → Bool
ltb_ℤ a b = ltb (pos_part a + neg_part b) (pos_part b + neg_part a)

-- `z & 0xffff` on integers of any size.
abbrev pub low16 : ℤ → ℕ
low16 (pos n) = n % 2 ^ 16
low16 (negsuc n) = 2 ^ 16 - 1 - n % 2 ^ 16

-- `(z >> 16) & 1`: bit 16 of an integer of any size.
abbrev pub bit16 : ℤ → ℕ
bit16 (pos n) = n / 2 ^ 16 % 2
bit16 (negsuc n) = 1 - n / 2 ^ 16 % 2

-- ===== src/Base/Int.antt =====
-- C++ signed integers. A value is an integer; `IsI32` and `IsI64` are the ranges of int (std::int32_t)
-- and of long (std::int64_t), and `to_bits`, `of_bits` are the two's complement pattern that
-- `std::memcpy` moves between a signed integer and the unsigned one of the same width.
use Prim.Native.Nat.{ℕ, suc, ◌+◌, ◌-◌, ◌^◌, ◌≤◌, ◌<◌}
use mathlib.Core.Path.{◌≡◌}
use mathlib.Core.Logic.{◌↔◌}
use mathlib.Core.Bool.{Bool, true, false}
use native.Mathlib.Omega.{arith}
use mcpd.Base.Tests.{ltb, leb, ◌==◌, if◌then◌else◌}

-- `negsuc n` is -(n + 1).
pub data ℤ : Type 0 where
  pos : ℕ → ℤ
  negsuc : ℕ → ℤ

abbrev pub pos_part : ℤ → ℕ
pos_part (pos n) = n
pos_part (negsuc n) = 0

abbrev pub neg_part : ℤ → ℕ
neg_part (pos n) = 0
neg_part (negsuc n) = suc n

-- a - b, as an integer.
abbrev pub sub_ℕ : ℕ → ℕ → ℤ
sub_ℕ a b = if leb b a then pos (a - b) else negsuc (b - a - 1)

infixl 65 ◌+ℤ◌ ◌-ℤ◌
infix 50 ◌≤ℤ◌
unfoldable pub ◌+ℤ◌ : ℤ → ℤ → ℤ
a +ℤ b = sub_ℕ (pos_part a + pos_part b) (neg_part a + neg_part b)

unfoldable pub ◌-ℤ◌ : ℤ → ℤ → ℤ
a -ℤ b = sub_ℕ (pos_part a + neg_part b) (neg_part a + pos_part b)

abbrev pub ◌≤ℤ◌ : ℤ → ℤ → Type 0
a ≤ℤ b = pos_part a + neg_part b ≤ pos_part b + neg_part a

abbrev pub ltb_ℤ : ℤ → ℤ → Bool
ltb_ℤ a b = ltb (pos_part a + neg_part b) (pos_part b + neg_part a)

abbrev pub eq_ℤ : ℤ → ℤ → Bool
eq_ℤ (pos a) (pos b) = a == b
eq_ℤ (pos a) (negsuc b) = false
eq_ℤ (negsuc a) (pos b) = false
eq_ℤ (negsuc a) (negsuc b) = a == b

pub eq_ℤ_iff : (a b : ℤ) → (eq_ℤ a b ≡ true) ↔ (a ≡ b)
eq_ℤ_iff a b = ground arith

-- std::numeric_limits<int> and std::numeric_limits<long>
abbrev pub int_min : ℤ
int_min = negsuc (2 ^ 31 - 1)

abbrev pub int_max : ℤ
int_max = pos (2 ^ 31 - 1)

abbrev pub long_min : ℤ
long_min = negsuc (2 ^ 63 - 1)

abbrev pub long_max : ℤ
long_max = pos (2 ^ 63 - 1)

abbrev pub IsI32 : ℤ → Type 0
IsI32 z = (pos_part z < 2 ^ 31) × (neg_part z ≤ 2 ^ 31)

abbrev pub IsI64 : ℤ → Type 0
IsI64 z = (pos_part z < 2 ^ 63) × (neg_part z ≤ 2 ^ 63)

-- The pattern of a value in a word of `m` values, and the value of a pattern.
unfoldable pub to_bits : ℕ → ℤ → ℕ
to_bits m (pos n) = n
to_bits m (negsuc n) = m - 1 - n

unfoldable pub of_bits : ℕ → ℕ → ℤ
of_bits m b = if ltb (b + b) m then pos b else negsuc (m - 1 - b)

pub of_bits-to_bits_32 : (z : ℤ) → IsI32 z → of_bits (2 ^ 32) (to_bits (2 ^ 32) z) ≡ z
unfolding of_bits to_bits
of_bits-to_bits_32 (pos n) h = ground arith
of_bits-to_bits_32 (negsuc n) h = ground arith

pub of_bits-to_bits_64 : (z : ℤ) → IsI64 z → of_bits (2 ^ 64) (to_bits (2 ^ 64) z) ≡ z
unfolding of_bits to_bits
of_bits-to_bits_64 (pos n) h = ground arith
of_bits-to_bits_64 (negsuc n) h = ground arith

pub to_bits-lt_32 : (z : ℤ) → IsI32 z → to_bits (2 ^ 32) z < 2 ^ 32
unfolding to_bits
to_bits-lt_32 (pos n) h = omega arith
to_bits-lt_32 (negsuc n) h = omega arith

pub to_bits-lt_64 : (z : ℤ) → IsI64 z → to_bits (2 ^ 64) z < 2 ^ 64
unfolding to_bits
to_bits-lt_64 (pos n) h = omega arith
to_bits-lt_64 (negsuc n) h = omega arith

pub of_bits-IsI32 : (b : ℕ) → b < 2 ^ 32 → IsI32 (of_bits (2 ^ 32) b)
unfolding of_bits
of_bits-IsI32 b h = ground arith

pub of_bits-IsI64 : (b : ℕ) → b < 2 ^ 64 → IsI64 (of_bits (2 ^ 64) b)
unfolding of_bits
of_bits-IsI64 b h = ground arith

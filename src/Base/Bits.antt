-- ===== src/Base/Bits.antt =====
-- Shifts and masks of C++ unsigned integers as arithmetic: what `|`, `&` and `^` do to disjoint
-- fields, to a mask of low ones, and to a word of ones.
use Prim.Native.Nat.{ℕ, zero, suc, ◌+◌, ◌-◌, ◌*◌, ◌/◌, ◌%◌, ◌^◌, ◌≤◌, ◌<◌, min, max}
use Prim.Native.Nat.{bit_and, bit_or, bit_xor, digits, bitwise, differ}
use Prim.Native.Nat.{bit_and-bitwise, bit_or-bitwise, bit_xor-bitwise}
use mathlib.Core.Path.{◌≡◌, refl, ap}
use mathlib.Core.Bool.{Bool, true, ◌&&◌}
use native.Mathlib.Omega.{arith}
use native.Mathlib.Nat.{pow-suc, one-le-pow}
use mcpd.Base.Tests.{◌==◌, ==_iff}

module _ (last : ℕ → ℕ) (op : ℕ → ℕ → ℕ) where
  -- Fuel beyond the number itself changes nothing.
  digits-fuel : (a n m b : ℕ) → a ≤ n → a ≤ m → digits last op n a b ≡ digits last op m a b
  digits-fuel a zero zero b p q = refl
  digits-fuel zero zero (suc m) b p q = refl
  digits-fuel zero (suc n) zero b p q = refl
  digits-fuel zero (suc n) (suc m) b p q = refl
  digits-fuel (suc a) zero (suc m) b p q = absurd (omega arith)
  digits-fuel (suc a) (suc n) zero b p q = absurd (omega arith)
  digits-fuel (suc a) (suc n) (suc m) b p q =
      rw (digits-fuel (suc a / 2) n m (b / 2) (omega arith) (omega arith))

  -- The lowest digit, and the same operation on the others.
  bitwise_step :
      (a b : ℕ)
      → bitwise last op (suc a) b ≡ bitwise last op (suc a / 2) (b / 2) * 2 + op (suc a % 2) (b % 2)
  bitwise_step a b =
      omega (arith, digits-fuel (suc a / 2) a (suc a / 2) (b / 2) (omega arith) (omega arith))

or_step : (a b : ℕ) → bit_or a b ≡ bit_or (a / 2) (b / 2) * 2 + max (a % 2) (b % 2)
or_step zero b = omega (arith, bit_or-bitwise 0 b, bit_or-bitwise 0 (b / 2))
or_step (suc a) b = omega (
  arith,
  bit_or-bitwise (suc a) b,
  bit_or-bitwise (suc a / 2) (b / 2),
  bitwise_step (λ y. y) max a b,
)

and_step : (a b : ℕ) → bit_and a b ≡ bit_and (a / 2) (b / 2) * 2 + min (a % 2) (b % 2)
and_step zero b = omega (arith, bit_and-bitwise 0 b, bit_and-bitwise 0 (b / 2))
and_step (suc a) b = omega (
  arith,
  bit_and-bitwise (suc a) b,
  bit_and-bitwise (suc a / 2) (b / 2),
  bitwise_step (λ y. 0) min a b,
)

xor_step : (a b : ℕ) → bit_xor a b ≡ bit_xor (a / 2) (b / 2) * 2 + differ (a % 2) (b % 2)
xor_step zero b = ground (arith, bit_xor-bitwise 0 b, bit_xor-bitwise 0 (b / 2))
xor_step (suc a) b = omega (
  arith,
  bit_xor-bitwise (suc a) b,
  bit_xor-bitwise (suc a / 2) (b / 2),
  bitwise_step (λ y. y) differ a b,
)

halve_shifted : (k b : ℕ) → b * 2 ^ suc k / 2 ≡ b * 2 ^ k
halve_shifted k b = omega (arith, ap (λ (t : ℕ). b * t) (pow-suc 2 k))

even_shifted : (k b : ℕ) → b * 2 ^ suc k % 2 ≡ 0
even_shifted k b = omega (arith, ap (λ (t : ℕ). b * t) (pow-suc 2 k))

-- `low | (b << k)` where `low` fits `k` bits.
pub or_shifted : (k low b : ℕ) → low < 2 ^ k → bit_or low (b * 2 ^ k) ≡ low + b * 2 ^ k
or_shifted zero zero b h = omega (arith, bit_or-bitwise 0 (b * 1))
or_shifted zero (suc l) b h = absurd (omega arith)
or_shifted (suc k) low b h = omega (
  arith,
  or_step low (b * 2 ^ suc k),
  ap (bit_or (low / 2)) (halve_shifted k b),
  even_shifted k b,
  halve_shifted k b,
  or_shifted k (low / 2) b (omega (arith, pow-suc 2 k)),
)

and-zero_upto : (n a : ℕ) → a ≤ n → bit_and a 0 ≡ 0
and-zero_upto n zero h = bit_and-bitwise 0 0
and-zero_upto zero (suc a) h = absurd (omega arith)
and-zero_upto (suc n) (suc a) h =
    omega (arith, and_step (suc a) 0, and-zero_upto n (suc a / 2) (omega arith))

differ-zero : (a : ℕ) → differ a 0 ≡ a
differ-zero zero = refl
differ-zero (suc a) = refl

pub and-zero : (a : ℕ) → bit_and a 0 ≡ 0
and-zero a = and-zero_upto a a (omega arith)

xor-zero_upto : (n a : ℕ) → a ≤ n → bit_xor a 0 ≡ a
xor-zero_upto n zero h = bit_xor-bitwise 0 0
xor-zero_upto zero (suc a) h = absurd (omega arith)
xor-zero_upto (suc n) (suc a) h =
    omega (
      arith,
      xor_step (suc a) 0,
      differ-zero (suc a % 2),
      xor-zero_upto n (suc a / 2) (omega arith),
    )

pub xor-zero : (a : ℕ) → bit_xor a 0 ≡ a
xor-zero a = xor-zero_upto a a (omega arith)

and_seven : (a : ℕ) → bit_and a 7 ≡ a % 8
and_seven a =
    omega
      (arith, and_step a 7, and_step (a / 2) 3, and_step (a / 2 / 2) 1, and-zero (a / 2 / 2 / 2))

-- `a & 0x7f`, whatever the width of `a`.
pub and_0x7f : (a : ℕ) → bit_and a 0x7f ≡ a % 128
and_0x7f a = omega (
  arith,
  and_step a 127,
  and_step (a / 2) 63,
  and_step (a / 2 / 2) 31,
  and_step (a / 2 / 2 / 2) 15,
  and_seven (a / 2 / 2 / 2 / 2),
)

differ_one : (a : ℕ) → a < 2 → differ a 1 ≡ 1 - a
differ_one zero h = refl
differ_one (suc zero) h = refl
differ_one (suc (suc a)) h = absurd (omega arith)

-- `a ^ ~0` in a word of `k` bits.
pub xor_ones : (k a : ℕ) → a < 2 ^ k → bit_xor a (2 ^ k - 1) ≡ 2 ^ k - 1 - a
xor_ones zero zero h = xor-zero 0
xor_ones zero (suc a) h = absurd (omega arith)
xor_ones (suc k) a h = omega (
  arith,
  pow-suc 2 k,
  one-le-pow k 2,
  xor_step a (2 ^ suc k - 1),
  ap (bit_xor (a / 2)) halves,
  ap (differ (a % 2)) odd,
  differ_one (a % 2),
  xor_ones k (a / 2) (omega (arith, pow-suc 2 k)),
)
  where
    halves : (2 ^ suc k - 1) / 2 ≡ 2 ^ k - 1
    halves = omega (arith, pow-suc 2 k, one-le-pow k 2)

    odd : (2 ^ suc k - 1) % 2 ≡ 1
    odd = omega (arith, pow-suc 2 k, one-le-pow k 2)

module _ (p : ℕ → Bool) where
  holds_below : ℕ → Bool
  holds_below zero = true
  holds_below (suc n) = p n && holds_below n

  holds_below_sound : (n x : ℕ) → holds_below n ≡ true → x < n → p x ≡ true
  unfolding holds_below
  holds_below_sound zero x h lt = absurd (omega arith)
  holds_below_sound (suc n) x h lt = ground (arith, holds_below_sound n x)

-- Facts about one byte, from a table of its values.
or_0x80_table : holds_below (λ b. bit_or b 0x80 == b + 128) 128 ≡ true
unfolding holds_below
or_0x80_table = refl

pub or_0x80 : (b : ℕ) → b < 128 → bit_or b 0x80 ≡ b + 128
or_0x80 b h = (==_iff _ _).0 (holds_below_sound _ 128 b or_0x80_table h)

and_0x80_table : holds_below (λ b. bit_and b 0x80 == b / 128 * 128) 256 ≡ true
unfolding holds_below
and_0x80_table = refl

pub and_0x80 : (b : ℕ) → b < 256 → bit_and b 0x80 ≡ b / 128 * 128
and_0x80 b h = (==_iff _ _).0 (holds_below_sound _ 256 b and_0x80_table h)

and_0x7e_table : holds_below (λ b. bit_and b 0x7e == b % 128 / 2 * 2) 256 ≡ true
unfolding holds_below
and_0x7e_table = refl

pub and_0x7e : (b : ℕ) → b < 256 → bit_and b 0x7e ≡ b % 128 / 2 * 2
and_0x7e b h = (==_iff _ _).0 (holds_below_sound _ 256 b and_0x7e_table h)

pub and_one : (a : ℕ) → bit_and a 1 ≡ a % 2
and_one a = omega (arith, and_step a 1, and-zero (a / 2))

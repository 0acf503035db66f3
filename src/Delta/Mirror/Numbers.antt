-- ===== src/Delta/Mirror/Numbers.antt =====
-- Zig-zag integers are read back as they were written.
use mcpd.Base.{ℕ, ◌+◌, ◌-◌, ◌*◌, ◌/◌, ◌%◌, ◌^◌, ◌<◌, ◌≡◌, ap, ◌∙◌, arith}
use mcpd.Base.{bit_and, bit_xor, Bool, true, false, if◌then◌else◌}
use mcpd.Base.Int.{ℤ, pos, negsuc, to_bits, of_bits, ltb_ℤ, IsI64}
use mcpd.Base.Bits.{and_one, xor-zero, xor_ones}
use mcpd.Delta.Varint.{zig_zag_encode, zig_zag_decode, negate_u64}

-- The sign is spread over the word: it inverts the value or leaves it.
xor_ones_64 : (a : ℕ) → a < 2 ^ 64 → bit_xor a (negate_u64 1) ≡ 2 ^ 64 - 1 - a
xor_ones_64 a h = xor_ones 64 a h

is_negative-pos : (n : ℕ) → ltb_ℤ (pos n) (pos 0) ≡ false
is_negative-pos n = ground arith

is_negative-negsuc : (n : ℕ) → ltb_ℤ (negsuc n) (pos 0) ≡ true
is_negative-negsuc n = ground arith

zig_zag_encode-pos : (n : ℕ) → n < 2 ^ 63 → zig_zag_encode (pos n) ≡ 2 * n
unfolding zig_zag_encode to_bits
zig_zag_encode-pos n h =
    ap (λ (b : Bool). bit_xor (n * 2 % 2 ^ 64) (negate_u64 (if b then 1 else 0)))
      (is_negative-pos n)
    ∙ xor-zero (n * 2 % 2 ^ 64)
    ∙ omega arith

zig_zag_encode-negsuc : (n : ℕ) → n < 2 ^ 63 → zig_zag_encode (negsuc n) ≡ 2 * n + 1
unfolding zig_zag_encode to_bits
zig_zag_encode-negsuc n h =
    ap (λ (b : Bool). bit_xor ((2 ^ 64 - 1 - n) * 2 % 2 ^ 64) (negate_u64 (if b then 1 else 0)))
      (is_negative-negsuc n)
    ∙ xor_ones_64 ((2 ^ 64 - 1 - n) * 2 % 2 ^ 64) (omega arith)
    ∙ omega arith

sign_even : (n : ℕ) → negate_u64 (bit_and (2 * n) 1) ≡ 0
sign_even n = ap negate_u64 {y = 0} (omega (arith, and_one (2 * n)))

sign_odd : (n : ℕ) → negate_u64 (bit_and (2 * n + 1) 1) ≡ negate_u64 1
sign_odd n = ap negate_u64 {y = 1} (omega (arith, and_one (2 * n + 1)))

zig_zag_decode-even : (n : ℕ) → n < 2 ^ 63 → zig_zag_decode (2 * n) ≡ pos n
unfolding zig_zag_decode
zig_zag_decode-even n h =
    ap (λ (t : ℕ). of_bits (2 ^ 64) (bit_xor (2 * n / 2) t)) (sign_even n)
    ∙ ap (of_bits (2 ^ 64)) (xor-zero (2 * n / 2))
    ∙ (unfold of_bits in ground arith)

zig_zag_decode-odd : (n : ℕ) → n < 2 ^ 63 → zig_zag_decode (2 * n + 1) ≡ negsuc n
unfolding zig_zag_decode
zig_zag_decode-odd n h =
    ap (λ (t : ℕ). of_bits (2 ^ 64) (bit_xor ((2 * n + 1) / 2) t)) (sign_odd n)
    ∙ ap (of_bits (2 ^ 64)) (xor_ones_64 ((2 * n + 1) / 2) (omega arith))
    ∙ (unfold of_bits in ground arith)

-- The zig-zag map loses nothing of a 64-bit integer.
pub zig_zag_decode-zig_zag_encode : (z : ℤ) → IsI64 z → zig_zag_decode (zig_zag_encode z) ≡ z
zig_zag_decode-zig_zag_encode (pos n) h =
    ap zig_zag_decode (zig_zag_encode-pos n (omega arith)) ∙ zig_zag_decode-even n (omega arith)
zig_zag_decode-zig_zag_encode (negsuc n) h =
    ap zig_zag_decode (zig_zag_encode-negsuc n (omega arith)) ∙ zig_zag_decode-odd n (omega arith)

pub zig_zag_encode-lt : (z : ℤ) → IsI64 z → zig_zag_encode z < 2 ^ 64
zig_zag_encode-lt (pos n) h = omega (arith, zig_zag_encode-pos n (omega arith))
zig_zag_encode-lt (negsuc n) h = omega (arith, zig_zag_encode-negsuc n (omega arith))

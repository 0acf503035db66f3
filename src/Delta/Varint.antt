-- ===== src/Delta/Varint.antt =====
-- Checked 64-bit arithmetic, the zig-zag map, and integers in groups of seven bits.
use mcpd.Base.{ℕ, zero, suc, ◌+◌, ◌-◌, ◌*◌, ◌/◌, ◌%◌, ◌^◌, ◌<◌, bit_and, bit_or, bit_xor, arith}
use mcpd.Base.{not, ◌&&◌, ◌||◌, ◌==◌, if◌then◌else◌}
use mcpd.Base.Int.{ℤ, pos, to_bits, of_bits, ltb_ℤ, ◌+ℤ◌, ◌-ℤ◌, long_min, long_max}
use mcpd.Base.Order.{lt_wf}
use mcpd.Wire.{Result, Error, ok, err, M, ◌>>=◌, ◌>>◌, pure, throw, write_u8, read_u8}
use mcpd.Wire.{integer_out_of_range, alpha_delta_overflow, alpha_sum_overflow}
use mcpd.Wire.{varint_too_large, varint_too_long}
use mathlib.Core.Logic.{dite}
use mathlib.Core.WellFounded.{Acc}
use native.Mathlib.Decide.{dec_lt}

-- A 128-bit value that has to fit std::int64_t.
abbrev pub in_long : ℤ → Error → Result ℤ
in_long value e = if ltb_ℤ value long_min || ltb_ℤ long_max value then err e else ok value

-- checkedIntegerCast<std::int64_t> and checkedIntegerCast<long>
unfoldable pub checked_integer_cast : ℤ → Result ℤ
checked_integer_cast value = in_long value integer_out_of_range

unfoldable pub checked_long_difference : ℤ → ℤ → Result ℤ
checked_long_difference lhs rhs = in_long (lhs -ℤ rhs) alpha_delta_overflow

unfoldable pub checked_long_sum : ℤ → ℤ → Result ℤ
checked_long_sum lhs rhs = in_long (lhs +ℤ rhs) alpha_sum_overflow

-- `-x` on std::uint64_t
abbrev pub negate_u64 : ℕ → ℕ
negate_u64 x = (2 ^ 64 - x) % 2 ^ 64

unfoldable pub zig_zag_encode : ℤ → ℕ
zig_zag_encode value =
    bit_xor (to_bits (2 ^ 64) value * 2 % 2 ^ 64)
      (negate_u64 (if ltb_ℤ value (pos 0) then 1 else 0))

unfoldable pub zig_zag_decode : ℕ → ℤ
zig_zag_decode value = of_bits (2 ^ 64) (bit_xor (value / 2) (negate_u64 (bit_and value 1)))

pub shift_shrinks : (v : ℕ) → ¬ (v < 0x80) → v / 2 ^ 7 < v
shift_shrinks v h = omega arith

-- The loop of writeVarU64, which ends because the shift makes `value` smaller.
unfoldable pub write_var_loop : (value : ℕ) → Acc ◌<◌ value → M (Unit {0})
unfolding shift_shrinks
write_var_loop value (Acc.intro _ smaller) =
    dite (dec_lt value 0x80) (λ _. write_u8 (value % 256))
      (λ h. do
        write_u8 (bit_or (bit_and value 0x7f) 0x80 % 256)
        write_var_loop (value / 2 ^ 7) (smaller (value / 2 ^ 7) (shift_shrinks value h)))

unfoldable pub write_var_u64 : ℕ → M (Unit {0})
unfolding lt_wf dec_lt
write_var_u64 value = write_var_loop value (lt_wf.apply value)

unfoldable pub write_var_i64 : ℤ → M (Unit {0})
write_var_i64 value = write_var_u64 (zig_zag_encode value)

-- The loop of readVarU64 with the rounds that are left. In the tenth round only the lowest bit of the
-- group may be set, so no group is shifted out of the 64 bits.
unfoldable pub read_var_loop : ℕ → ℕ → ℕ → M ℕ
read_var_loop zero i value = throw varint_too_long
read_var_loop (suc rounds) i value = do
  byte ← read_u8
  let value' = bit_or value (bit_and byte 0x7f * 2 ^ (7 * i))
  let more = read_var_loop rounds (i + 1) value'
  if i == 9 && not (bit_and byte 0x7e == 0)
      then throw varint_too_large
      else if bit_and byte 0x80 == 0
      then pure value'
      else more

unfoldable pub read_var_u64 : M ℕ
read_var_u64 = read_var_loop 10 0 0

unfoldable pub read_var_i64 : M ℤ
read_var_i64 = do value ← read_var_u64; pure (zig_zag_decode value)

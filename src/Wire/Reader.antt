-- ===== src/Wire/Reader.antt =====
-- class Reader of src/protocol.cpp.
use mcpd.Base.{ℕ, zero, suc, ◌*◌, ◌^◌, Bool, not, ◌||◌, List, [], ◌∷◌}
use mcpd.Base.{length, take, drop, bit_or, ltb, ◌==◌, if◌then◌else◌}
use mcpd.Base.Int.{ℤ, of_bits, ltb_ℤ, long_min, long_max}
use mcpd.Wire.Defs.{Bytes, M, ok, err, ◌>>=◌, ◌>>◌, pure, throw, require}
use mcpd.Wire.Defs.{truncated_payload, invalid_boolean, trailing_bytes, integer_out_of_range}
use mcpd.Wire.Writer.{shifts_32, shifts_64}

unfoldable pub empty : M Bool
empty bytes = ok (length bytes == 0, bytes)

unfoldable pub remaining : M ℕ
remaining bytes = ok (length bytes, bytes)

unfoldable pub require_remaining : ℕ → M (Unit {0})
require_remaining count bytes =
    if ltb (length bytes) count then err truncated_payload else ok (tt, bytes)

-- `bytes_[offset_++]`; the callers have checked that the byte is there.
unfoldable pub next_byte : M ℕ
next_byte [] = err truncated_payload
next_byte (byte ∷ rest) = ok (byte, rest)

unfoldable pub read_u8 : M ℕ
read_u8 = do require_remaining 1; next_byte

unfoldable pub read_shifts : List ℕ → ℕ → M ℕ
read_shifts [] value = pure value
read_shifts (shift ∷ shifts) value = do
  byte ← next_byte
  read_shifts shifts (bit_or value (byte * 2 ^ shift))

unfoldable pub read_u32 : M ℕ
read_u32 = do require_remaining 4; read_shifts shifts_32 0

unfoldable pub read_u64 : M ℕ
read_u64 = do require_remaining 8; read_shifts shifts_64 0

unfoldable pub read_i32 : M ℤ
read_i32 = do bits ← read_u32; pure (of_bits (2 ^ 32) bits)

unfoldable pub read_i64 : M ℤ
read_i64 = do bits ← read_u64; pure (of_bits (2 ^ 64) bits)

unfoldable pub read_bool : M Bool
read_bool = do
  value ← read_u8
  require (value == 0 || value == 1) invalid_boolean
  pure (not (value == 0))

unfoldable pub read_float : M ℕ
read_float = read_u32

-- The bytes from `offset_` to `offset_ + size`.
unfoldable pub take_bytes : ℕ → M Bytes
take_bytes size bytes = ok (take size bytes, drop size bytes)

unfoldable pub read_string : M Bytes
read_string = do size ← read_u32; require_remaining size; take_bytes size

unfoldable pub read_times : {T : Type 0} → ℕ → M T → M (List T)
read_times zero read_one = pure []
read_times (suc n) read_one = do
  value ← read_one
  values ← read_times n read_one
  pure (value ∷ values)

unfoldable pub read_vector : {T : Type 0} → M T → M (List T)
read_vector read_one = do size ← read_u32; read_times size read_one

-- The branch of a little-endian host with 32-bit int: one check for all elements, then the copy.
unfoldable pub read_i32_vector : M (List ℤ)
read_i32_vector = do size ← read_u32; require_remaining (size * 4); read_times size read_i32

-- checkedIntegerCast<long>: std::int64_t to long, which has 64 bits on the supported hosts.
unfoldable pub checked_long_cast : ℤ → M ℤ
checked_long_cast value =
    if ltb_ℤ value long_min || ltb_ℤ long_max value then throw integer_out_of_range else pure value

unfoldable pub require_done : M (Unit {0})
require_done = do done ← empty; require done trailing_bytes

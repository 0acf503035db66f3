-- ===== src/Wire/Writer.antt =====
-- class Writer of src/protocol.cpp.
use mcpd.Base.{ℕ, ◌-◌, ◌/◌, ◌%◌, ◌^◌, Bool, List, [], ◌∷◌, ◌++◌, length}
use mcpd.Base.{ltb, if◌then◌else◌}
use mcpd.Base.Int.{ℤ, to_bits}
use mcpd.Wire.Defs.{Bytes, M, ok, ◌>>=◌, ◌>>◌, pure, throw, container_too_large}

-- The values of `shift` in the loops over a std::uint32_t and a std::uint64_t.
abbrev pub shifts_32 : List ℕ
shifts_32 = 0 ∷ 8 ∷ 16 ∷ 24 ∷ []

abbrev pub shifts_64 : List ℕ
shifts_64 = 0 ∷ 8 ∷ 16 ∷ 24 ∷ 32 ∷ 40 ∷ 48 ∷ 56 ∷ []

-- `(v >> s) & 0xff`
abbrev pub byte_at : ℕ → ℕ → ℕ
byte_at v s = v / 2 ^ s % 256

-- writeLittleU32 and writeLittleU64, which fill an array.
unfoldable pub little_bytes : List ℕ → ℕ → Bytes
little_bytes [] v = []
little_bytes (s ∷ shifts) v = byte_at v s ∷ little_bytes shifts v

unfoldable pub write_u8 : ℕ → M (Unit {0})
write_u8 value bytes = ok (tt, bytes ++ (value ∷ []))

unfoldable pub write_shifts : List ℕ → ℕ → M (Unit {0})
write_shifts [] value = pure tt
write_shifts (shift ∷ shifts) value = do write_u8 (byte_at value shift); write_shifts shifts value

unfoldable pub write_u32 : ℕ → M (Unit {0})
write_u32 value = write_shifts shifts_32 value

unfoldable pub write_u64 : ℕ → M (Unit {0})
write_u64 value = write_shifts shifts_64 value

unfoldable pub write_i32 : ℤ → M (Unit {0})
write_i32 value = write_u32 (to_bits (2 ^ 32) value)

unfoldable pub write_i64 : ℤ → M (Unit {0})
write_i64 value = write_u64 (to_bits (2 ^ 64) value)

unfoldable pub write_bool : Bool → M (Unit {0})
write_bool value = write_u8 (if value then 1 else 0)

-- A float is only moved as its 32-bit pattern, so the model holds the pattern.
unfoldable pub write_float : ℕ → M (Unit {0})
write_float bits = write_u32 bits

unfoldable pub checked_size : ℕ → M ℕ
checked_size size = if ltb (2 ^ 32 - 1) size then throw container_too_large else pure size

-- `bytes_.insert(bytes_.end(), value.begin(), value.end())`
unfoldable pub insert_bytes : Bytes → M (Unit {0})
insert_bytes value bytes = ok (tt, bytes ++ value)

unfoldable pub write_string : Bytes → M (Unit {0})
write_string value = do size ← checked_size (length value); write_u32 size; insert_bytes value

unfoldable pub write_each : {T : Type 0} → (T → M (Unit {0})) → List T → M (Unit {0})
write_each write_one [] = pure tt
write_each write_one (value ∷ values) = do write_one value; write_each write_one values

unfoldable pub write_vector : {T : Type 0} → List T → (T → M (Unit {0})) → M (Unit {0})
write_vector values write_one = do
  size ← checked_size (length values)
  write_u32 size
  write_each write_one values

-- On a little-endian host with 32-bit int the raw bytes of the array are those of `writeI32` on
-- each element; the early return on an empty vector writes nothing, as the loop does.
unfoldable pub write_i32_vector : List ℤ → M (Unit {0})
write_i32_vector values = do
  size ← checked_size (length values)
  write_u32 size
  write_each write_i32 values

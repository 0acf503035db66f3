-- ===== src/Wire/Reads/Scalars.antt =====
-- Integers, Booleans and strings are read back as they were written.
use mcpd.Base.{ℕ, ◌+◌, ◌*◌, ◌%◌, ◌^◌, ◌≤◌, ◌<◌, ◌≡◌, refl, ap, subst, ◌∙◌, bit_or, arith}
use mcpd.Base.{Bool, true, false, List, [], ◌∷◌, ◌++◌, length, append_assoc, append-nil}
use mcpd.Base.{take-length_append, drop-length_append, length-append}
use mcpd.Base.Int.{
  ℤ, pos, negsuc, to_bits, of_bits, IsI32, IsI64, of_bits-to_bits_32, of_bits-to_bits_64,
}
use mcpd.Base.Int.{to_bits-lt_32, to_bits-lt_64}
use mcpd.Base.Bits.{or_shifted}
use mcpd.Wire.Defs.{Bytes, M, ok, ◌>>=◌, ◌>>◌, pure, require}
use mcpd.Wire.Writer.{
  write_u8, write_shifts, write_u32, write_u64, write_i32, write_i64, write_bool,
}
use mcpd.Wire.Writer.{
  byte_at, little_bytes, write_float, write_string, insert_bytes, checked_size, shifts_32,
  shifts_64,
}
use mcpd.Wire.Reader.{read_u8, next_byte, read_shifts, read_u32, read_u64, read_i32, read_i64}
use mcpd.Wire.Reader.{read_bool, read_float, read_string, take_bytes, require_remaining}
use mcpd.Wire.Reader.{checked_long_cast}
use mcpd.Wire.Reads.{Reads, Reads-seq, Reads-last, Reads-check, >>=-ok}

-- What the loop has put together when it comes to bit `s`, and the byte that this round adds.
or_byte : (v s low : ℕ) → low < 2 ^ s → bit_or low (byte_at v s * 2 ^ s) ≡ low + byte_at v s * 2 ^ s
or_byte v s low h = or_shifted s low (byte_at v s) h

module _ (v : ℕ) where
  join_0 : bit_or 0 (byte_at v 0 * 2 ^ 0) ≡ v % 2 ^ 8
  join_0 = omega (arith, or_byte v 0 0 (omega arith))

  join_8 : bit_or (v % 2 ^ 8) (byte_at v 8 * 2 ^ 8) ≡ v % 2 ^ 16
  join_8 = omega (arith, or_byte v 8 (v % 2 ^ 8) (omega arith))

  join_16 : bit_or (v % 2 ^ 16) (byte_at v 16 * 2 ^ 16) ≡ v % 2 ^ 24
  join_16 = omega (arith, or_byte v 16 (v % 2 ^ 16) (omega arith))

  join_24 : bit_or (v % 2 ^ 24) (byte_at v 24 * 2 ^ 24) ≡ v % 2 ^ 32
  join_24 = omega (arith, or_byte v 24 (v % 2 ^ 24) (omega arith))

  join_32 : bit_or (v % 2 ^ 32) (byte_at v 32 * 2 ^ 32) ≡ v % 2 ^ 40
  join_32 = omega (arith, or_byte v 32 (v % 2 ^ 32) (omega arith))

  join_40 : bit_or (v % 2 ^ 40) (byte_at v 40 * 2 ^ 40) ≡ v % 2 ^ 48
  join_40 = omega (arith, or_byte v 40 (v % 2 ^ 40) (omega arith))

  join_48 : bit_or (v % 2 ^ 48) (byte_at v 48 * 2 ^ 48) ≡ v % 2 ^ 56
  join_48 = omega (arith, or_byte v 48 (v % 2 ^ 48) (omega arith))

  join_56 : bit_or (v % 2 ^ 56) (byte_at v 56 * 2 ^ 56) ≡ v % 2 ^ 64
  join_56 = omega (arith, or_byte v 56 (v % 2 ^ 56) (omega arith))

pub write_shifts_lem :
    (shifts : List ℕ) (v : ℕ) (w : Bytes)
    → write_shifts shifts v w ≡ ok (tt, w ++ little_bytes shifts v)
unfolding write_shifts write_u8 little_bytes ◌>>=◌ pure
write_shifts_lem [] v w = rw append-nil
write_shifts_lem (s ∷ shifts) v w =
    write_shifts_lem shifts v (w ++ (byte_at v s ∷ []))
    ∙ ap (λ (t : Bytes). ok (tt, t)) (append_assoc w (byte_at v s ∷ []) (little_bytes shifts v))

read_shifts_step :
    (s acc next b : ℕ) (shifts : List ℕ) (rest : Bytes)
    → bit_or acc (b * 2 ^ s) ≡ next
    → read_shifts (s ∷ shifts) acc (b ∷ rest) ≡ read_shifts shifts next rest
unfolding read_shifts next_byte ◌>>=◌
read_shifts_step s acc next b shifts rest h = rw h

read_low_32 :
    (v : ℕ) (shifts : List ℕ) (rest : Bytes)
    → read_shifts (0 ∷ 8 ∷ 16 ∷ 24 ∷ shifts) 0 (little_bytes shifts_32 v ++ rest)
      ≡ read_shifts shifts (v % 2 ^ 32) rest
unfolding little_bytes
read_low_32 v shifts rest =
    read_shifts_step 0 _ _ _ _ _ (join_0 v)
    ∙ read_shifts_step 8 _ _ _ _ _ (join_8 v)
    ∙ read_shifts_step 16 _ _ _ _ _ (join_16 v)
    ∙ read_shifts_step 24 _ _ _ _ _ (join_24 v)

pub read_shifts_32 :
    (v : ℕ) (rest : Bytes)
    → read_shifts shifts_32 0 (little_bytes shifts_32 v ++ rest) ≡ ok (v % 2 ^ 32, rest)
unfolding little_bytes
read_shifts_32 v rest = read_low_32 v [] rest ∙ (unfold read_shifts pure in refl)

pub read_shifts_64 :
    (v : ℕ) (rest : Bytes)
    → read_shifts shifts_64 0 (little_bytes shifts_64 v ++ rest) ≡ ok (v % 2 ^ 64, rest)
unfolding little_bytes
read_shifts_64 v rest =
    read_low_32 v (32 ∷ 40 ∷ 48 ∷ 56 ∷ []) (little_bytes (32 ∷ 40 ∷ 48 ∷ 56 ∷ []) v ++ rest)
    ∙ read_shifts_step 32 _ _ _ _ _ (join_32 v)
    ∙ read_shifts_step 40 _ _ _ _ _ (join_40 v)
    ∙ read_shifts_step 48 _ _ _ _ _ (join_48 v)
    ∙ read_shifts_step 56 _ _ _ _ _ (join_56 v)
    ∙ (unfold read_shifts pure in refl)

pub Reads-u8 : (v : ℕ) → Reads (write_u8 v) read_u8 v 1
unfolding write_u8 read_u8 next_byte require_remaining ◌>>=◌
Reads-u8 v = record {
  bytes = v ∷ [];
  sized = omega arith;
  written = λ w. refl;
  reads = λ rest. ground arith;
}

pub require_remaining_lem :
    (n : ℕ) (bs : Bytes) → n ≤ length bs → require_remaining n bs ≡ ok (tt, bs)
unfolding require_remaining
require_remaining_lem n bs h = ground arith

pub Reads-u32 : (v : ℕ) → v < 2 ^ 32 → Reads (write_u32 v) read_u32 v 4
unfolding write_u32 read_u32 little_bytes
Reads-u32 v h = record {
  bytes = little_bytes shifts_32 v;
  sized = omega arith;
  written = write_shifts_lem shifts_32 v;
  reads = λ rest.
      >>=-ok (require_remaining 4) _ _ _ tt (require_remaining_lem 4 _ (omega arith))
      ∙ read_shifts_32 v rest
      ∙ ap (λ (t : ℕ). ok (t, rest)) (omega arith);
}

pub Reads-u64 : (v : ℕ) → v < 2 ^ 64 → Reads (write_u64 v) read_u64 v 8
unfolding write_u64 read_u64 little_bytes
Reads-u64 v h = record {
  bytes = little_bytes shifts_64 v;
  sized = omega arith;
  written = write_shifts_lem shifts_64 v;
  reads = λ rest.
      >>=-ok (require_remaining 8) _ _ _ tt (require_remaining_lem 8 _ (omega arith))
      ∙ read_shifts_64 v rest
      ∙ ap (λ (t : ℕ). ok (t, rest)) (omega arith);
}

pub Reads-i32 : (z : ℤ) → IsI32 z → Reads (write_i32 z) read_i32 z 4
unfolding write_i32 read_i32
Reads-i32 z h =
    subst (λ x. Reads (write_i32 z) read_i32 x 4) (of_bits-to_bits_32 z h)
      (Reads-last (of_bits (2 ^ 32)) (Reads-u32 (to_bits (2 ^ 32) z) (to_bits-lt_32 z h)))

pub Reads-i64 : (z : ℤ) → IsI64 z → Reads (write_i64 z) read_i64 z 8
unfolding write_i64 read_i64
Reads-i64 z h =
    subst (λ x. Reads (write_i64 z) read_i64 x 8) (of_bits-to_bits_64 z h)
      (Reads-last (of_bits (2 ^ 64)) (Reads-u64 (to_bits (2 ^ 64) z) (to_bits-lt_64 z h)))

pub Reads-bool : (b : Bool) → Reads (write_bool b) read_bool b 1
unfolding write_bool read_bool
Reads-bool true = Reads-check _ (Reads-u8 1) (λ rest. unfold ◌>>=◌ require pure in refl)
Reads-bool false = Reads-check _ (Reads-u8 0) (λ rest. unfold ◌>>=◌ require pure in refl)

pub Reads-float : (v : ℕ) → v < 2 ^ 32 → Reads (write_float v) read_float v 4
unfolding write_float read_float
Reads-float v h = Reads-u32 v h

-- std::int64_t to long never fails on a host whose long has 64 bits.
pub checked_long_cast_lem :
    (z : ℤ) (rest : Bytes) → IsI64 z → checked_long_cast z rest ≡ ok (z, rest)
unfolding checked_long_cast pure
checked_long_cast_lem (pos n) rest h = ground arith
checked_long_cast_lem (negsuc n) rest h = ground arith

-- `checkedIntegerCast<long>(reader.readI64())`
pub Reads-long : (z : ℤ) → IsI64 z → Reads (write_i64 z) (read_i64 >>= checked_long_cast) z 8
Reads-long z h =
    Reads-check checked_long_cast (Reads-i64 z h) (λ rest. checked_long_cast_lem z rest h)

pub checked_size_lem : (n : ℕ) (w : Bytes) → n < 2 ^ 32 → checked_size n w ≡ ok (n, w)
unfolding checked_size pure
checked_size_lem n w h = ground arith

-- The 32-bit count that stands before a string or a vector.
pub Reads-sized :
    {A : Type 0} (n : ℕ) (body : M (Unit {0})) (f : ℕ → M A) {a : A} {m : ℕ}
    → n < 2 ^ 32
    → Reads body (f n) a m
    → Reads (checked_size n >>= λ size. write_u32 size >> body) (read_u32 >>= f) a (4 + m)
Reads-sized n body f h x =
    let s = Reads-seq f (Reads-u32 n h) x in
    record {
      bytes = s.bytes;
      sized = s.sized;
      written = λ w. >>=-ok (checked_size n) _ w w n (checked_size_lem n w h) ∙ s.written w;
      reads = s.reads;
    }

pub Reads-string :
    (v : Bytes) → length v < 2 ^ 32 → Reads (write_string v) read_string v (4 + length v)
unfolding write_string read_string
Reads-string v h = Reads-sized (length v) (insert_bytes v) _ h (record {
  bytes = v;
  sized = omega arith;
  written = λ w. unfold insert_bytes in refl;
  reads = λ rest.
      >>=-ok (require_remaining (length v)) _ _ _ tt
        (require_remaining_lem _ _ (omega (arith, length-append {0} v rest)))
      ∙ (unfold take_bytes in rw (take-length_append, drop-length_append));
})

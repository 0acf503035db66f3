-- ===== src/Protocol/RoundTrip/Packages/Pieces.antt =====
-- What the writers append, as bytes, to compare a frame with the pieces that the buffers show.
use mcpd.Base.{
  ℕ, ◌^◌, ◌<◌, ◌≡◌, ap, sym, ◌∙◌, List, [], ◌∷◌, ◌++◌, length, append_assoc, append-nil,
}
use mcpd.Base.Int.{ℤ}
use mcpd.Wire.{
  Bytes, M, ok, ◌>>=◌, ◌>>◌, pure, write_u32, write_u64, write_i32, write_each, write_vector,
}
use mcpd.Wire.{write_i32_vector, checked_size, little_bytes, shifts_32, shifts_64}
use mcpd.Wire.Reads.{>>=-ok}
use mcpd.Wire.Reads.Scalars.{write_shifts_lem, checked_size_lem}
use mcpd.Protocol.{int_vector, little_i32}

abbrev pub Writes : M (Unit {0}) → Bytes → Type 0
Writes w bs = (x : Bytes) → w x ≡ ok (tt, x ++ bs)

pub Writes-seq :
    (w v : M (Unit {0})) (a b : Bytes) → Writes w a → Writes v b → Writes (w >> v) (a ++ b)
Writes-seq w v a b f g x =
    >>=-ok w (λ _. v) x (x ++ a) tt (f x)
    ∙ g (x ++ a)
    ∙ ap (λ (t : Bytes). ok (tt, t)) (append_assoc x a b)

-- An action appends one thing.
pub Writes-unique : (w : M (Unit {0})) (a b : Bytes) → Writes w a → Writes w b → a ≡ b
Writes-unique w a b f g = cc (f [], g [])

pub Writes-u32 : (v : ℕ) → Writes (write_u32 v) (little_bytes shifts_32 v)
unfolding write_u32
Writes-u32 v = write_shifts_lem shifts_32 v

pub Writes-u64 : (v : ℕ) → Writes (write_u64 v) (little_bytes shifts_64 v)
unfolding write_u64
Writes-u64 v = write_shifts_lem shifts_64 v

pub Writes-i32 : (z : ℤ) → Writes (write_i32 z) (little_i32 z)
unfolding write_i32
Writes-i32 z = Writes-u32 _

Writes-ints : (zs : List ℤ) → Writes (write_each write_i32 zs) (int_vector zs)
unfolding write_each int_vector pure
Writes-ints [] x = ap (λ (t : Bytes). ok (tt, t)) (sym (append-nil x))
Writes-ints (z ∷ zs) x = Writes-seq (write_i32 z) _ _ _ (Writes-i32 z) (Writes-ints zs) x

Writes-sized :
    (n : ℕ) (body : M (Unit {0})) (b : Bytes)
    → n < 2 ^ 32
    → Writes body b
    → Writes (checked_size n >>= λ size. write_u32 size >> body) (little_bytes shifts_32 n ++ b)
Writes-sized n body b h f x =
    >>=-ok (checked_size n) _ x x n (checked_size_lem n x h)
    ∙ Writes-seq (write_u32 n) body _ b (Writes-u32 n) f x

pub Writes-i32_vector :
    (zs : List ℤ)
    → length zs < 2 ^ 32
    → Writes (write_i32_vector zs) (little_bytes shifts_32 (length zs) ++ int_vector zs)
unfolding write_i32_vector
Writes-i32_vector zs h = Writes-sized (length zs) _ _ h (Writes-ints zs)

pub Writes-vector :
    {T : Type 0} (write_one : T → M (Unit {0})) (xs : List T) (b : Bytes)
    → length xs < 2 ^ 32
    → Writes (write_each write_one xs) b
    → Writes (write_vector xs write_one) (little_bytes shifts_32 (length xs) ++ b)
unfolding write_vector
Writes-vector write_one xs b h f = Writes-sized (length xs) _ b h f

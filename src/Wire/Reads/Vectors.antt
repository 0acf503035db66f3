-- ===== src/Wire/Reads/Vectors.antt =====
-- Vectors are read back element by element. `g` is what reading makes of an element: itself, or a
-- value in which the fields that do not travel have their defaults.
use mcpd.Base.{ℕ, ◌+◌, ◌*◌, ◌^◌, ◌<◌, ◌≡◌, refl, List, [], ◌∷◌, map, length, All, arith, ap, ◌∙◌}
use mcpd.Base.{length-append}
use mcpd.Base.Int.{ℤ, IsI32}
use mcpd.Wire.Defs.{M, ok}
use mcpd.Wire.Writer.{write_each, write_vector, write_i32, write_i32_vector}
use mcpd.Wire.Reader.{read_times, read_vector, read_i32, read_i32_vector, require_remaining}
use mcpd.Wire.Reads.{Reads, Reads-seq, Reads-last, Reads-nothing, >>=-ok}
use mcpd.Wire.Reads.Scalars.{Reads-sized, Reads-i32, require_remaining_lem}

abbrev pub total {ℓ} : {T : Type ℓ} → (T → ℕ) → List T → ℕ
total size [] = 0
total size (x ∷ xs) = size x + total size xs

pub total-const {ℓ} : {T : Type ℓ} (k : ℕ) (xs : List T) → total (λ _. k) xs ≡ length xs * k
total-const k [] = omega arith
total-const k (x ∷ xs) = omega (arith, total-const k xs)

module _ {T U : Type 0} (P : T → Type 0) (write_one : T → M (Unit {0})) (read_one : M U) (g : T → U)
    (size : T → ℕ) (one : (x : T) → P x → Reads (write_one x) read_one (g x) (size x)) where
  pub Reads-times :
      (xs : List T)
      → All P xs
      → Reads (write_each write_one xs) (read_times (length xs) read_one) (map g xs) (total size xs)
  unfolding write_each read_times
  Reads-times [] h = Reads-nothing []
  Reads-times (x ∷ xs) h =
      Reads-seq _ (one x h.0) (Reads-last (λ values. g x ∷ values) (Reads-times xs h.1))

  pub Reads-vector :
      (xs : List T)
      → length xs < 2 ^ 32
      → All P xs
      → Reads (write_vector xs write_one) (read_vector read_one) (map g xs) (4 + total size xs)
  unfolding write_vector read_vector
  Reads-vector xs n h = Reads-sized (length xs) (write_each write_one xs) _ n (Reads-times xs h)

abbrev same {ℓ} : {T : Type ℓ} → T → T
same x = x

pub map-same {ℓ} : {T : Type ℓ} (xs : List T) → map same xs ≡ xs
map-same [] = refl
map-same (x ∷ xs) = rw (map-same xs)

-- The check of all the bytes at once passes, since each element has four.
pub Reads-i32_vector :
    (xs : List ℤ)
    → length xs < 2 ^ 32
    → All IsI32 xs
    → Reads (write_i32_vector xs) read_i32_vector xs (4 + length xs * 4)
unfolding write_i32_vector read_i32_vector
Reads-i32_vector xs n h = Reads-sized (length xs) (write_each write_i32 xs) _ n (record {
  bytes = x.bytes;
  sized = x.sized ∙ total-const 4 xs;
  written = x.written;
  reads = λ rest.
      >>=-ok (require_remaining (length xs * 4)) _ _ _ tt (
        require_remaining_lem _ _
          (omega (arith, length-append {0} x.bytes rest, x.sized, total-const {0} 4 xs)))
      ∙ x.reads rest
      ∙ ap (λ (t : List ℤ). ok (t, rest)) (map-same xs);
})
  where
    x :
        Reads
          (write_each write_i32 xs)
          (read_times (length xs) read_i32)
          (map same xs)
          (total (λ _. 4) xs)
    x = Reads-times IsI32 write_i32 read_i32 same (λ _. 4) Reads-i32 xs h

-- ===== src/Wire/Reads/Ends.antt =====
-- Reading to the end of a payload: `Reads` for a reader that looks at how many bytes are left.
use mcpd.Base.{
  ℕ, ◌+◌, ◌^◌, ◌<◌, ◌≡◌, ap, ◌∙◌, [], ◌++◌, length, length-append, append_assoc, append-nil,
}
use mcpd.Base.{sym, arith}
use mcpd.Wire.Defs.{Bytes, M, ok, ◌>>=◌, ◌>>◌, pure}
use mcpd.Wire.Writer.{write_u32, checked_size}
use mcpd.Wire.Reader.{read_u32}
use mcpd.Wire.Reads.{Reads, >>=-ok}
use mcpd.Wire.Reads.Scalars.{Reads-u32, checked_size_lem}

pub record Ends {A : Type 0} (write : M (Unit {0})) (read : M A) (a : A) (size : ℕ) : Type 0 where
  pub bytes : Bytes
  pub sized : length bytes ≡ size
  pub written : (w : Bytes) → write w ≡ ok (tt, w ++ bytes)
  pub reads : read bytes ≡ ok (a, [])

unfoldable pub Ends-of :
    {A : Type 0} {w : M (Unit {0})} {r : M A} {a : A} {n : ℕ} → Reads w r a n → Ends w r a n
Ends-of {A} {w} {r} x = record {
  bytes = x.bytes;
  sized = x.sized;
  written = x.written;
  reads = ap r (sym (append-nil x.bytes)) ∙ x.reads [];
}

module _ {A B : Type 0} where
  pub Ends-seq :
      {w v : M (Unit {0})} {r : M A} (f : A → M B) {a : A} {b : B} {n m : ℕ}
      → Reads w r a n
      → Ends v (f a) b m
      → Ends (w >> v) (r >>= f) b (n + m)
  Ends-seq {w} {v} {r} f {a} x y = record {
    bytes = x.bytes ++ y.bytes;
    sized = omega (arith, length-append {0} x.bytes y.bytes, x.sized, y.sized);
    written = λ bs.
        >>=-ok w (λ _. v) bs (bs ++ x.bytes) tt (x.written bs)
        ∙ y.written (bs ++ x.bytes)
        ∙ ap (λ (t : Bytes). ok (tt, t)) (append_assoc bs x.bytes y.bytes);
    reads = >>=-ok r f (x.bytes ++ y.bytes) y.bytes a (x.reads y.bytes) ∙ y.reads;
  }

  -- A step of the reader alone, that takes no byte.
  pub Ends-after :
      {w : M (Unit {0})} {r : M A} (f : A → M B) {a : A} {b : B} {n : ℕ}
      → ((bs : Bytes) → r bs ≡ ok (a, bs))
      → Ends w (f a) b n
      → Ends w (r >>= f) b n
  Ends-after {w} {r} f {a} h x = record {
    bytes = x.bytes;
    sized = x.sized;
    written = x.written;
    reads = >>=-ok r f x.bytes x.bytes a (h _) ∙ x.reads;
  }

  pub Ends-last :
      {w : M (Unit {0})} {r : M A} (g : A → B) {a : A} {n : ℕ}
      → Ends w r a n
      → Ends w (r >>= λ x. pure (g x)) (g a) n
  unfolding pure
  Ends-last {w} {r} g {a} x = record {
    bytes = x.bytes;
    sized = x.sized;
    written = x.written;
    reads = >>=-ok r (λ x. pure (g x)) x.bytes [] a x.reads;
  }

pub Ends-sized :
    {A : Type 0} (n : ℕ) (body : M (Unit {0})) (f : ℕ → M A) {a : A} {m : ℕ}
    → n < 2 ^ 32
    → Ends body (f n) a m
    → Ends (checked_size n >>= λ size. write_u32 size >> body) (read_u32 >>= f) a (4 + m)
Ends-sized n body f h x =
    let s = Ends-seq f (Reads-u32 n h) x in
    record {
      bytes = s.bytes;
      sized = s.sized;
      written = λ w. >>=-ok (checked_size n) _ w w n (checked_size_lem n w h) ∙ s.written w;
      reads = s.reads;
    }

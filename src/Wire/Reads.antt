-- ===== src/Wire/Reads.antt =====
-- What it means that one action reads back what another wrote, with one rule for each way in which
-- the sources build a message. `size` is the number of bytes, which the sources compute ahead for some messages.
pub mod Scalars
pub mod Vectors
pub mod Ends
use mcpd.Base.{ℕ, ◌+◌, ◌≤◌, ◌≡◌, refl, sym, ap, ◌∙◌, [], ◌++◌, append-nil, append_assoc}
use mcpd.Base.{length, length-append, arith}
use mcpd.Wire.Defs.{Bytes, M, Result, ok, err, and_then, ◌>>=◌, ◌>>◌, pure, run_writer, run_reader}

pub record Reads {A : Type 0} (write : M (Unit {0})) (read : M A) (a : A) (size : ℕ) : Type 0 where
  pub bytes : Bytes
  pub sized : length bytes ≡ size
  pub written : (w : Bytes) → write w ≡ ok (tt, w ++ bytes)
  pub reads : (rest : Bytes) → read (bytes ++ rest) ≡ ok (a, rest)

-- A bind takes up where the first action stopped.
pub >>=-ok :
    {A B : Type 0} (m : M A) (f : A → M B) (bs rest : Bytes) (a : A)
    → m bs ≡ ok (a, rest)
    → (m >>= f) bs ≡ f a rest
unfolding ◌>>=◌
>>=-ok m f bs rest a h = rw h

module _ {A B : Type 0} where
  pub Reads-seq :
      {w v : M (Unit {0})} {r : M A} (f : A → M B) {a : A} {b : B} {n m : ℕ}
      → Reads w r a n
      → Reads v (f a) b m
      → Reads (w >> v) (r >>= f) b (n + m)
  Reads-seq {w} {v} {r} f {a} {b} x y = record {
    bytes = x.bytes ++ y.bytes;
    sized = omega (arith, length-append {0} x.bytes y.bytes, x.sized, y.sized);
    written = λ bs.
        >>=-ok w (λ _. v) bs (bs ++ x.bytes) tt (x.written bs)
        ∙ y.written (bs ++ x.bytes)
        ∙ ap (λ (t : Bytes). ok (tt, t)) (append_assoc bs x.bytes y.bytes);
    reads = λ rest.
        ap (r >>= f) (append_assoc x.bytes y.bytes rest)
        ∙ >>=-ok r f (x.bytes ++ (y.bytes ++ rest)) (y.bytes ++ rest) a (x.reads (y.bytes ++ rest))
        ∙ y.reads rest;
  }

  -- The last step of a message: the fields that were read are put together.
  pub Reads-last :
      {w : M (Unit {0})} {r : M A} (g : A → B) {a : A} {n : ℕ}
      → Reads w r a n
      → Reads w (r >>= λ x. pure (g x)) (g a) n
  unfolding pure
  Reads-last {w} {r} g {a} x = record {
    bytes = x.bytes;
    sized = x.sized;
    written = x.written;
    reads = λ rest. >>=-ok r (λ x. pure (g x)) (x.bytes ++ rest) rest a (x.reads rest);
  }

  -- A step of the reader alone, such as a check, that takes no byte.
  pub Reads-check :
      {w : M (Unit {0})} {r : M A} (f : A → M B) {a : A} {b : B} {n : ℕ}
      → Reads w r a n
      → ((rest : Bytes) → f a rest ≡ ok (b, rest))
      → Reads w (r >>= f) b n
  Reads-check {w} {r} f {a} x h = record {
    bytes = x.bytes;
    sized = x.sized;
    written = x.written;
    reads = λ rest. >>=-ok r f (x.bytes ++ rest) rest a (x.reads rest) ∙ h rest;
  }

  -- Such a step before the others.
  pub Reads-after :
      {w : M (Unit {0})} {r : M A} (f : A → M B) {a : A} {b : B} {n : ℕ}
      → ((bs : Bytes) → r bs ≡ ok (a, bs))
      → Reads w (f a) b n
      → Reads w (r >>= f) b n
  Reads-after {w} {r} f {a} h x = record {
    bytes = x.bytes;
    sized = x.sized;
    written = x.written;
    reads = λ rest. >>=-ok r f (x.bytes ++ rest) (x.bytes ++ rest) a (h _) ∙ x.reads rest;
  }

module _ {A : Type 0} where
  pub Reads-resize :
      {w : M (Unit {0})} {r : M A} {a : A} {n : ℕ} (m : ℕ) → n ≡ m → Reads w r a n → Reads w r a m
  Reads-resize m h x = record {
    bytes = x.bytes;
    sized = omega (arith, x.sized);
    written = x.written;
    reads = x.reads;
  }

  pub run_writer-Reads :
      {w : M (Unit {0})} {r : M A} {a : A} {n : ℕ} (x : Reads w r a n) → run_writer w ≡ ok (x.bytes)
  unfolding run_writer
  run_writer-Reads x = rw (x.written [])

pub Reads-nothing : {A : Type 0} (a : A) → Reads (pure tt) (pure a) a 0
unfolding pure
Reads-nothing a = record {
  bytes = [];
  sized = omega arith;
  written = λ w. ap (λ (t : Bytes). ok (tt, t)) (sym (append-nil w));
  reads = λ rest. refl;
}

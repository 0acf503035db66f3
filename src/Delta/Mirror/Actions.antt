-- ===== src/Delta/Mirror/Actions.antt =====
-- What it means that the other end, from the same baselines, reads what an action wrote and comes to
-- the same baselines, with one rule for each way in which the messages are built.
use mcpd.Base.{
  ℕ, ◌+◌, ◌≡◌, refl, ap, ◌∙◌, arith, ◌++◌, [], sym, append-nil, append_assoc, length, length-append,
}
use mcpd.Base.Int.{ℤ}
use mcpd.Wire.{Bytes, Result, ok, M}
use mcpd.Wire.Reads.{Reads}
use mcpd.Delta.State.{
  TemporalPartitionState, TemporalSolveCodecState, T, P, ◌>>=◌, ◌>>◌, plain, return, on_partition,
  update,
}

pub record Mirrors {A : Type 0} (write : T (Unit {0})) (read : T A) (a : A)
    (s s' : TemporalSolveCodecState) (size : ℕ) : Type 0 where
  pub bytes : Bytes
  pub sized : length bytes ≡ size
  pub written : (w : Bytes) → write s w ≡ (ok (tt, w ++ bytes), s')
  pub reads : (rest : Bytes) → read s (bytes ++ rest) ≡ (ok (a, rest), s')

plain_lem :
    {A : Type 0} (m : M A) (s : TemporalSolveCodecState) (bs : Bytes) → plain m s bs ≡ (m bs, s)
unfolding plain
plain_lem m s bs = refl

-- The state after a call on one partition.
abbrev pub store : TemporalSolveCodecState → ℤ → TemporalPartitionState → TemporalSolveCodecState
store s k p = record s { partitions = update s.partitions k p }

module _ {A B : Type 0} (s : TemporalSolveCodecState) where
  pub >>=-step :
      (m : T A) (f : A → T B) (s' : TemporalSolveCodecState) (bs rest : Bytes) (a : A)
      → m s bs ≡ (ok (a, rest), s')
      → (m >>= f) s bs ≡ f a s' rest
  unfolding ◌>>=◌
  >>=-step m f s' bs rest a h = rw h

  pub plain-step :
      (m : M A) (f : A → T B) (bs rest : Bytes) (a : A)
      → m bs ≡ ok (a, rest)
      → (plain m >>= f) s bs ≡ f a s rest
  unfolding plain
  plain-step m f bs rest a h = >>=-step (plain m) f s bs rest a (rw h)

  on_partition-step :
      (k : ℤ) (call : P A) (f : A → T B) (bs : Bytes) (a : A) (p : TemporalPartitionState)
      → call (s.partitions k) ≡ (ok a, p)
      → (on_partition k call >>= f) s bs ≡ f a (store s k p) bs
  unfolding on_partition
  on_partition-step k call f bs a p h =
      >>=-step (on_partition k call) f (store s k p) bs bs a (rw h)

-- Fields that leave the baselines alone, then the rest of the message.
pub Mirrors-plain :
    {A B : Type 0} {w : M (Unit {0})} {v : T (Unit {0})} {r : M A} (f : A → T B) {a : A} {b : B}
    {s s' : TemporalSolveCodecState} {n m : ℕ}
    → Reads w r a n
    → Mirrors v (f a) b s s' m
    → Mirrors (plain w >> v) (plain r >>= f) b s s' (n + m)
Mirrors-plain {A} {B} {w} {v} {r} f {a} {b} {s} {s'} x y = record {
  bytes = x.bytes ++ y.bytes;
  sized = omega (arith, length-append {0} x.bytes y.bytes, x.sized, y.sized);
  written = λ bs.
      plain-step s w (λ _. v) bs (bs ++ x.bytes) tt (x.written bs)
      ∙ y.written (bs ++ x.bytes)
      ∙ ap (λ (t : Bytes). (ok (tt, t), s')) (append_assoc bs x.bytes y.bytes);
  reads = λ rest.
      ap ((plain r >>= f) s) (append_assoc x.bytes y.bytes rest)
      ∙ plain-step s r f (x.bytes ++ (y.bytes ++ rest)) (y.bytes ++ rest) a
          (x.reads (y.bytes ++ rest))
      ∙ y.reads rest;
}

-- One end encodes against a partition's baselines and writes; the other reads and decodes against its own.
pub Mirrors-exchange :
    {E A B : Type 0} (k : ℤ) (enc : P E) (w : E → M (Unit {0})) (r : M E) (dec : E → P A)
    (g : A → B) {s : TemporalSolveCodecState} {e : E} {a : A} {p : TemporalPartitionState} {n : ℕ}
    → enc (s.partitions k) ≡ (ok e, p)
    → Reads (w e) r e n
    → dec e (s.partitions k) ≡ (ok a, p)
    → Mirrors
        (on_partition k enc >>= λ e. plain (w e))
        (plain r >>= λ e. on_partition k (dec e) >>= λ a. return (g a))
        (g a)
        s
        (store s k p)
        n
Mirrors-exchange {E} {A} {B} k enc w r dec g {s} {e} {a} {p} he x hd = record {
  bytes = x.bytes;
  sized = x.sized;
  written = λ bs.
      on_partition-step s k enc (λ e. plain (w e)) bs e p he ∙ (unfold plain in rw (x.written bs));
  reads = λ rest.
      plain-step s r (λ e. on_partition k (dec e) >>= λ a. return (g a)) (x.bytes ++ rest) rest e
        (x.reads rest)
      ∙ on_partition-step s k (dec e) (λ a. return (g a)) rest a p hd
      ∙ (unfold return in refl);
}

pub Mirrors-resize :
    {A : Type 0} {w : T (Unit {0})} {r : T A} {a : A} {s s' : TemporalSolveCodecState} {n : ℕ}
    (m : ℕ)
    → n ≡ m
    → Mirrors w r a s s' n
    → Mirrors w r a s s' m
Mirrors-resize m h x = record {
  bytes = x.bytes;
  sized = omega (arith, x.sized);
  written = x.written;
  reads = x.reads;
}

-- One message after another.
pub Mirrors-then :
    {A B : Type 0} {w v : T (Unit {0})} {r : T A} (f : A → T B) {a : A} {b : B}
    {s s' s'' : TemporalSolveCodecState} {n m : ℕ}
    → Mirrors w r a s s' n
    → Mirrors v (f a) b s' s'' m
    → Mirrors (w >> v) (r >>= f) b s s'' (n + m)
Mirrors-then {A} {B} {w} {v} {r} f {a} {b} {s} {s'} {s''} x y = record {
  bytes = x.bytes ++ y.bytes;
  sized = omega (arith, length-append {0} x.bytes y.bytes, x.sized, y.sized);
  written = λ bs.
      >>=-step s w (λ _. v) s' bs (bs ++ x.bytes) tt (x.written bs)
      ∙ y.written (bs ++ x.bytes)
      ∙ ap (λ (t : Bytes). (ok (tt, t), s'')) (append_assoc bs x.bytes y.bytes);
  reads = λ rest.
      ap ((r >>= f) s) (append_assoc x.bytes y.bytes rest)
      ∙ >>=-step s r f s' (x.bytes ++ (y.bytes ++ rest)) (y.bytes ++ rest) a
          (x.reads (y.bytes ++ rest))
      ∙ y.reads rest;
}

-- The last fields of a message, which leave the baselines alone.
pub Mirrors-last :
    {A B : Type 0} {w : M (Unit {0})} {r : M A} (g : A → B) {a : A} {s : TemporalSolveCodecState}
    {n : ℕ}
    → Reads w r a n
    → Mirrors (plain w) (plain r >>= λ a. return (g a)) (g a) s s n
Mirrors-last {A} {B} {w} {r} g {a} {s} x = record {
  bytes = x.bytes;
  sized = x.sized;
  written = λ bs. unfold plain in rw (x.written bs);
  reads = λ rest.
      plain-step s r (λ a. return (g a)) (x.bytes ++ rest) rest a (x.reads rest)
      ∙ (unfold return in refl);
}

-- The same exchange where two values travel one after the other.
pub Mirrors-exchange_two :
    {D E A B : Type 0} (k : ℤ) (enc : P (D × E)) (w : D → M (Unit {0})) (v : E → M (Unit {0}))
    (q : M D) (r : M E) (dec : D → E → P A) (g : A → B) {s : TemporalSolveCodecState} {d : D}
    {e : E} {a : A} {p : TemporalPartitionState} {n m : ℕ}
    → enc (s.partitions k) ≡ (ok (d, e), p)
    → Reads (w d) q d n
    → Reads (v e) r e m
    → dec d e (s.partitions k) ≡ (ok a, p)
    → Mirrors
        (on_partition k enc >>= λ t. plain (w t.0) >> plain (v t.1))
        (plain q >>= λ d. plain r >>= λ e. on_partition k (dec d e) >>= λ a. return (g a))
        (g a)
        s
        (store s k p)
        (n + m)
Mirrors-exchange_two {D} {E} {A} {B} k enc w v q r dec g {s} {d} {e} {a} {p} he x y hd = record {
  bytes = x.bytes ++ y.bytes;
  sized = omega (arith, length-append {0} x.bytes y.bytes, x.sized, y.sized);
  written = λ bs.
      on_partition-step s k enc (λ t. plain (w t.0) >> plain (v t.1)) bs (d, e) p he
      ∙ plain-step (store s k p) (w d) (λ _. plain (v e)) bs (bs ++ x.bytes) tt (x.written bs)
      ∙ plain_lem (v e) (store s k p) (bs ++ x.bytes)
      ∙ ap (λ (t : Result (Unit {0} × Bytes)). (t, store s k p))
          (y.written (bs ++ x.bytes)
            ∙ ap (λ (t : Bytes). ok (tt, t)) (append_assoc bs x.bytes y.bytes));
  reads = λ rest.
      ap ((plain q >>= both) s) (append_assoc x.bytes y.bytes rest)
      ∙ plain-step s q both (x.bytes ++ (y.bytes ++ rest)) (y.bytes ++ rest) d
          (x.reads (y.bytes ++ rest))
      ∙ plain-step s r (last d) (y.bytes ++ rest) rest e (y.reads rest)
      ∙ on_partition-step s k (dec d e) (λ a. return (g a)) rest a p hd
      ∙ (unfold return in refl);
}
  where
    last : D → E → T B
    last d e = on_partition k (dec d e) >>= λ a. return (g a)

    both : D → T B
    both d = plain r >>= last d

pub Mirrors-return :
    {A : Type 0} (a : A) (s : TemporalSolveCodecState) → Mirrors (return tt) (return a) a s s 0
unfolding return
Mirrors-return a s = record {
  bytes = [];
  sized = omega arith;
  written = λ w. ap (λ (t : Bytes). (ok (tt, t), s)) (sym (append-nil w));
  reads = λ rest. refl;
}

pub Mirrors-map :
    {A B : Type 0} {w : T (Unit {0})} {r : T A} (g : A → B) {a : A} {s s' : TemporalSolveCodecState}
    {n : ℕ}
    → Mirrors w r a s s' n
    → Mirrors w (r >>= λ x. return (g x)) (g a) s s' n
Mirrors-map {A} {B} {w} {r} g {a} {s} {s'} x = record {
  bytes = x.bytes;
  sized = x.sized;
  written = x.written;
  reads = λ rest.
      >>=-step s r (λ y. return (g y)) s' (x.bytes ++ rest) rest a (x.reads rest)
      ∙ (unfold return in refl);
}

-- A step of the writer alone, which writes nothing.
pub Mirrors-before :
    {A B : Type 0} (m : M A) (f : A → T (Unit {0})) {r : T B} {a : A} {b : B}
    {s s' : TemporalSolveCodecState} {n : ℕ}
    → ((w : Bytes) → m w ≡ ok (a, w))
    → Mirrors (f a) r b s s' n
    → Mirrors (plain m >>= f) r b s s' n
Mirrors-before m f {r} {a} {b} {s} {s'} h x = record {
  bytes = x.bytes;
  sized = x.sized;
  written = λ w. plain-step s m f w w a (h w) ∙ x.written w;
  reads = x.reads;
}

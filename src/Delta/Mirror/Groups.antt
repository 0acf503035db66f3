-- ===== src/Delta/Mirror/Groups.antt =====
-- Integers in groups of seven bits are read back as they were written, in ten bytes at most.
use mcpd.Base.{
  ℕ, zero, suc, ◌+◌, ◌*◌, ◌/◌, ◌%◌, ◌^◌, ◌≤◌, ◌<◌, ◌≡◌, refl, sym, ap, subst, ◌∙◌, arith,
}
use mcpd.Base.{bit_and, bit_or, Bool, true, false, not, ◌&&◌, ltb, ◌==◌, if◌then◌else◌}
use mcpd.Base.Int.{ℤ, IsI64}
use mcpd.Base.Bits.{or_shifted, and_0x7f, or_0x80, and_0x80, and_0x7e}
use mcpd.Base.Order.{lt_wf}
use mcpd.Wire.{M, ◌>>◌, write_u8, throw, pure, varint_too_large}
use mcpd.Wire.Reads.{Reads, Reads-seq, Reads-last, Reads-check, Reads-resize}
use mcpd.Wire.Reads.Scalars.{Reads-u8}
use mcpd.Delta.Varint.{
  shift_shrinks, write_var_loop, write_var_u64, write_var_i64, read_var_loop, read_var_u64,
  read_var_i64,
}
use mcpd.Delta.Varint.{zig_zag_encode, zig_zag_decode}
use mcpd.Delta.Mirror.Numbers.{zig_zag_decode-zig_zag_encode, zig_zag_encode-lt}
use mathlib.Core.WellFounded.{Acc}
use mathlib.Core.Logic.{dite}
use native.Mathlib.Decide.{dec_lt}
use native.Mathlib.Numerals.{towards_suc}

-- What the loop of the reader does with one byte.
abbrev group_step : ℕ → ℕ → ℕ → ℕ → M ℕ
group_step rounds i value byte =
    let value' = bit_or value (bit_and byte 0x7f * 2 ^ (7 * i)) in
    if i == 9 && not (bit_and byte 0x7e == 0)
    then throw varint_too_large
    else if bit_and byte 0x80 == 0
    then pure value'
    else read_var_loop rounds (i + 1) value'

weight_step : (s : ℕ) → 2 ^ (s + 7) ≡ 128 * 2 ^ s
weight_step s = simp towards_suc (omega arith)

group_weight : (i : ℕ) → 2 ^ (7 * (i + 1)) ≡ 128 * 2 ^ (7 * i)
group_weight i = ap (λ (t : ℕ). 2 ^ t) {y = 7 * i + 7} (omega arith) ∙ weight_step (7 * i)

group_split : (v p : ℕ) → v % 128 * p + v / 128 * (128 * p) ≡ v * p
group_split v p =
    omega (arith, ap (λ (t : ℕ). t * p) {x = v} {y = v % 128 + v / 128 * 128} (omega arith))

join_group :
    (i value v : ℕ)
    → value < 2 ^ (7 * i)
    → bit_or value (bit_and v 0x7f * 2 ^ (7 * i)) ≡ value + v % 128 * 2 ^ (7 * i)
join_group i value v h =
    ap (λ (t : ℕ). bit_or value (t * 2 ^ (7 * i))) (and_0x7f v)
    ∙ or_shifted (7 * i) value (v % 128) h

-- No group that a 64-bit value has is refused by the check of the last round.
last_group :
    (i v : ℕ) → v < 256 → (i ≡ 9 → v % 128 < 2) → (i == 9 && not (bit_and v 0x7e == 0)) ≡ false
last_group i v b h = ground (arith, and_0x7e v b)

choose_last :
    {A : Type 0} (c d : Bool) (x y z : A)
    → c ≡ false
    → d ≡ true
    → (if c then x else if d then y else z) ≡ y
choose_last c d x y z h k = rw (h, k)

choose_more :
    {A : Type 0} (c d : Bool) (x y z : A)
    → c ≡ false
    → d ≡ false
    → (if c then x else if d then y else z) ≡ z
choose_more c d x y z h k = rw (h, k)

top_clear : (v : ℕ) → v < 128 → (bit_and v 0x80 == 0) ≡ true
top_clear v h = ground (arith, and_0x80 v)

top_set : (v : ℕ) → v < 128 → (bit_and (v + 128) 0x80 == 0) ≡ false
top_set v h = ground (arith, and_0x80 (v + 128))

group_step-last :
    (rounds i value v : ℕ)
    → v < 128
    → value < 2 ^ (7 * i)
    → (i ≡ 9 → v < 2)
    → group_step rounds i value v ≡ pure (value + v * 2 ^ (7 * i))
group_step-last rounds i value v small h k =
    choose_last _ _ _ _ _ (last_group i v (omega arith) (λ e. omega (arith, k e)))
      (top_clear v small)
    ∙ ap (λ (t : ℕ). pure t)
        (join_group i value v h ∙ ap (λ (t : ℕ). value + t * 2 ^ (7 * i)) (omega arith))

group_step-more :
    (rounds i value v : ℕ)
    → v < 128
    → value < 2 ^ (7 * i)
    → (i ≡ 9 → v < 2)
    → group_step rounds i value (v + 128) ≡ read_var_loop rounds (i + 1) (value + v * 2 ^ (7 * i))
group_step-more rounds i value v small h k =
    choose_more _ _ _ _ _ (last_group i (v + 128) (omega arith) (λ e. omega (arith, k e)))
      (top_set v small)
    ∙ ap (λ (t : ℕ). read_var_loop rounds (i + 1) t)
        (join_group i value (v + 128) h ∙ ap (λ (t : ℕ). value + t * 2 ^ (7 * i)) (omega arith))

-- How many groups a value has, as far as the rounds go.
abbrev pub var_size : ℕ → ℕ → ℕ
var_size zero v = 1
var_size (suc rounds) v =
    let more = var_size rounds (v / 2 ^ 7) in if ltb v 128 then 1 else 1 + more

module _ {P C : Type 0} (f : P → C) (g : (P → ⊥) → C) where
  dite-holds : (d : Dec P) (c : C) → P → ((p : P) → c ≡ f p) → c ≡ dite d f g
  dite-holds (yes p) c q h = h p
  dite-holds (no n) c q h = absurd (n q)

  dite-fails : (d : Dec P) → (P → ⊥) → (n : P → ⊥) × (g n ≡ dite d f g)
  dite-fails (yes p) n = absurd (n p)
  dite-fails (no n) m = (n, refl)

module _ (v : ℕ) where
  write_var_loop-last : (a : Acc ◌<◌ v) → v < 128 → write_u8 v ≡ write_var_loop v a
  unfolding write_var_loop
  write_var_loop-last (Acc.intro _ smaller) h =
      dite-holds _ _ (dec_lt v 128) (write_u8 v) h (λ p. ap write_u8 (omega arith))

  high_group : bit_or (bit_and v 0x7f) 0x80 % 256 ≡ v % 128 + 128
  high_group =
      omega (arith, ap (λ (t : ℕ). bit_or t 0x80) (and_0x7f v), or_0x80 (v % 128) (omega arith))

  write_var_loop-more :
      (a : Acc ◌<◌ v)
      → (v < 128 → ⊥)
      → (a' : Acc ◌<◌ (v / 2 ^ 7)) × ((write_u8 (v % 128 + 128) >> write_var_loop (v / 2 ^ 7) a')
          ≡ write_var_loop v a)
  unfolding write_var_loop
  write_var_loop-more (Acc.intro _ smaller) h =
      let d =
        dite-fails (λ (p : v < 128). write_u8 (v % 256))
          (λ h'.
            write_u8 (bit_or (bit_and v 127) 128 % 256)
            >> write_var_loop (v / 2 ^ 7) (smaller (v / 2 ^ 7) (shift_shrinks v h')))
          (dec_lt v 128) h in
      let a' = smaller (v / 2 ^ 7) (shift_shrinks v d.0) in
      (a', ap (λ (t : ℕ). write_u8 t >> write_var_loop (v / 2 ^ 7) a') (sym high_group) ∙ d.1)

-- In the last round only one bit of the value can be left.
below_two : (i v : ℕ) → v * 2 ^ (7 * i) < 2 ^ 64 → i ≡ 9 → v < 2
below_two i v h e = omega (arith, ap (λ (t : ℕ). v * 2 ^ (7 * t)) e)

no_round : (i v : ℕ) → v * 2 ^ (7 * i) < 2 ^ 64 → i ≡ 10 → i ≤ 10 * v → ⊥
no_round i v h e low = omega (arith, ap (λ (t : ℕ). v * 2 ^ (7 * t)) e)

module _ (i value v : ℕ) (h : value < 2 ^ (7 * i)) where
  -- What is left after one group, and what is put together.
  next_value :
      value + v % 128 * 2 ^ (7 * i) + v / 2 ^ 7 * 2 ^ (7 * (i + 1)) ≡ value + v * 2 ^ (7 * i)
  next_value =
      omega (arith, ap (λ (t : ℕ). v / 2 ^ 7 * t) (group_weight i), group_split v (2 ^ (7 * i)))

  next_below : value + v % 128 * 2 ^ (7 * i) < 2 ^ (7 * (i + 1))
  next_below = grind (arith, group_weight i)

pub Reads-retarget :
    {w : M (Unit {0})} {r r' : M ℕ} {a a' n : ℕ} → r ≡ r' → a ≡ a' → Reads w r a n → Reads w r' a' n
Reads-retarget {w} {r} {r'} {a} {a'} {n} h k x = rw (sym h, sym k) x

-- The bits of a value go through the loops of the writer and of the reader: `value` is what the
-- reader has put together, `v` what the writer has left.
Reads-var_loop :
    (rounds i value v : ℕ) (a : Acc ◌<◌ v)
    → i + rounds ≡ 10
    → i ≤ 10 * v
    → value < 2 ^ (7 * i)
    → value + v * 2 ^ (7 * i) < 2 ^ 64
    → Reads
        (write_var_loop v a)
        (read_var_loop rounds i value)
        (value + v * 2 ^ (7 * i))
        (var_size rounds v)
unfolding read_var_loop pure
Reads-var_loop zero i value v a n low h b = absurd (no_round i v (omega arith) (omega arith) low)
Reads-var_loop (suc rounds) i value v a n low h b =
    let k = below_two i v (omega arith) in
    elim (dec_lt v 128) [
      | yes s ↦ Reads-resize (var_size (suc rounds) v) (ground arith) (
          subst (λ w. Reads w (read_var_loop (suc rounds) i value) (value + v * 2 ^ (7 * i)) 1)
            (write_var_loop-last v a s)
            (Reads-check (group_step rounds i value) (Reads-u8 v)
              (λ rest. ap (λ (m : M ℕ). m rest) (group_step-last rounds i value v s h k))))
      | no s ↦
          let (a', e) = write_var_loop-more v a s in
          let rest =
            Reads-var_loop rounds (i + 1) (value + v % 128 * 2 ^ (7 * i)) (v / 2 ^ 7) a'
              (omega arith) (omega arith) (next_below i value v h)
              (omega (arith, next_value i value v h)) in
          Reads-resize (var_size (suc rounds) v) (ground arith) (
            subst
              (λ w.
                Reads w (read_var_loop (suc rounds) i value) (value + v * 2 ^ (7 * i))
                  (1 + var_size rounds (v / 2 ^ 7)))
              e
              (Reads-seq (group_step rounds i value) (Reads-u8 (v % 128 + 128)) (
                Reads-retarget
                  (sym (
                    group_step-more rounds i value (v % 128) (omega arith) h
                      (λ e. omega (arith, k e))))
                  (next_value i value v h) rest)))
    ]

-- Every 64-bit value is read back as it was written, and takes the bytes that `var_size` says.
pub Reads-var_u64 : (v : ℕ) → v < 2 ^ 64 → Reads (write_var_u64 v) read_var_u64 v (var_size 10 v)
unfolding write_var_u64 read_var_u64
Reads-var_u64 v h =
    Reads-retarget refl (omega arith)
      (Reads-var_loop 10 0 0 v (lt_wf.apply v) refl (omega arith) (omega arith) (omega arith))

pub Reads-var_i64 :
    (z : ℤ) → IsI64 z → Reads (write_var_i64 z) read_var_i64 z (var_size 10 (zig_zag_encode z))
unfolding write_var_i64 read_var_i64
Reads-var_i64 z h =
    subst (λ x. Reads (write_var_i64 z) read_var_i64 x (var_size 10 (zig_zag_encode z)))
      (zig_zag_decode-zig_zag_encode z h)
      (Reads-last zig_zag_decode (Reads-var_u64 (zig_zag_encode z) (zig_zag_encode-lt z h)))

pub var_size-le : (rounds v : ℕ) → var_size rounds v ≤ rounds + 1
var_size-le zero v = omega arith
var_size-le (suc rounds) v = ground (arith, var_size-le rounds (v / 2 ^ 7))

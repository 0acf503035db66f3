-- ===== src/Coordinator/Ranges.antt =====
-- The ranges of the numbers that the arguments of the coordinator give.
use mcpd.Base.{
  ℕ, ◌^◌, ◌-◌, ◌≤◌, ◌<◌, ◌≡◌, refl, ap, subst, ◌∙◌, arith, Bool, true, false, ◌||◌, ltb, ◌==◌,
  if◌then◌else◌, Option, none, some,
}
use mcpd.Base.Int.{ℤ, pos, negsuc, long_min, long_max, ltb_ℤ}
use mcpd.Base.Text.{codes, read_number}
use mcpd.Wire.{other_error, Bytes, Result, ok, err, and_then, Error}
use mcpd.Tcp.{TransportCompression, no_compression, snappy}
use mcpd.Coordinator.Arguments.{
  Config, stol, in_long, positive, non_negative, int_range, port_range, parse_long, parse_int,
  parse_non_negative_int, parse_port, port_value,
}

abbrev pub IsPort : ℕ → Type 0
IsPort n = n < 2 ^ 16

abbrev pub IsCount : ℕ → Type 0
IsCount n = (1 ≤ n) × (n < 2 ^ 31)

abbrev pub IsLong : ℕ → Type 0
IsLong n = (1 ≤ n) × (n < 2 ^ 63)

-- The ranges of the fields that the options can set: the ports, the counts, the longs, and the last count, which
-- may be zero.
abbrev pub IsInRange : Config → Type 0
IsInRange c =
    (IsPort c.port × IsPort c.discovery_port × IsPort c.status_port)
    × (IsCount c.worker_count
        × IsCount c.partition_count
        × IsCount c.max_iterations
        × IsCount c.schedule_levels)
    × (IsLong c.schedule_start × IsLong c.objective_scale × IsLong c.accept_timeout_ms)
    × (c.progress_every < 2 ^ 31)

abbrev pub NeedsSnappy : TransportCompression → Bool → Type 0
NeedsSnappy no_compression available = Unit
NeedsSnappy snappy available = available ≡ true

pub record IsConfig (available : Bool) (c : Config) : Type 0 where
  pub in_range : IsInRange c
  pub listens : 1 ≤ c.port
  pub compresses : NeedsSnappy c.rpc_compression available

pub and_then-ok :
    {A B : Type 0} (r : Result A) (f : A → Result B) (b : B)
    → and_then r f ≡ ok b
    → (a : A) × (r ≡ ok a) × (f a ≡ ok b)
and_then-ok (ok a) f b h = (a, refl, h)
and_then-ok (err e) f b h = absurd (cc h)

-- A test that throws has come out false.
pub guard-ok :
    {A : Type 0} (b : Bool) (e : Error) (r : Result A) (a : A)
    → (if b then err e else r) ≡ ok a
    → (b ≡ false) × (r ≡ ok a)
guard-ok true e r a h = absurd (cc h)
guard-ok false e r a h = (refl, h)

pub ok_injective : {A : Type 0} (a b : A) → ok a ≡ ok b → a ≡ b
ok_injective a b h = cc h

-- A number that stol has read is a long.
pub long_bound : (n : ℕ) → (ltb_ℤ (pos n) long_min || ltb_ℤ long_max (pos n)) ≡ false → n < 2 ^ 63
long_bound n h = ground (arith, h)

pub stol-bound : (value : Bytes) (n : ℕ) → stol value ≡ ok (pos n) → n < 2 ^ 63
unfolding stol
stol-bound value n h = of_number (read_number value) h
  where
    of_number :
        (r : Option ℤ)
        → elim r [ none ↦ err (other_error (codes "stol")) | some n ↦ in_long n ] ≡ ok (pos n)
        → n < 2 ^ 63
    of_number none h = absurd (cc h)
    of_number (some z) h =
        let (b, e) = guard-ok (ltb_ℤ z long_min || ltb_ℤ long_max z) _ (ok z) (pos n) h in
        long_bound n
          (subst (λ y. (ltb_ℤ y long_min || ltb_ℤ long_max y) ≡ false) (ok_injective z (pos n) e) b)

pub positive-ok : (name : Bytes) (z : ℤ) (n : ℕ) → positive name z ≡ ok n → (1 ≤ n) × (z ≡ pos n)
positive-ok name (pos m) n h =
    let (b, e) = guard-ok (m == 0) _ (ok m) n h in
    let k = ok_injective m n e in (ground (arith, b, k), ap pos k)
positive-ok name (negsuc m) n h = absurd (cc h)

pub parse_long-range :
    (value name : Bytes) (n : ℕ) → parse_long value name ≡ ok n → (1 ≤ n) × (n < 2 ^ 63)
unfolding parse_long
parse_long-range value name n h =
    let (z, e, f) = and_then-ok (stol value) (positive name) n h in
    let (p, q) = positive-ok name z n f in (p, stol-bound value n (e ∙ ap ok q))

pub int_range-ok : (name : Bytes) (m n : ℕ) → int_range name m ≡ ok n → (n < 2 ^ 31) × (m ≡ n)
int_range-ok name m n h =
    let (b, e) = guard-ok (ltb (2 ^ 31 - 1) m) _ (ok m) n h in
    let k = ok_injective m n e in (ground (arith, b, k), k)

pub parse_int-range :
    (value name : Bytes) (n : ℕ) → parse_int value name ≡ ok n → (1 ≤ n) × (n < 2 ^ 31)
unfolding parse_int
parse_int-range value name n h =
    let (m, e, f) = and_then-ok (parse_long value name) (int_range name) n h in
    let (p, q) = int_range-ok name m n f in
    (omega (arith, q, (parse_long-range value name m e).0), p)

pub parse_non_negative_int-range :
    (value name : Bytes) (n : ℕ) → parse_non_negative_int value name ≡ ok n → n < 2 ^ 31
unfolding parse_non_negative_int
parse_non_negative_int-range value name n h =
    let (m, e, f) = and_then-ok (and_then (stol value) (non_negative name)) (int_range name) n h in
    (int_range-ok name m n f).0

pub parse_port-range : (value name : Bytes) (n : ℕ) → port_value value name ≡ ok n → n < 2 ^ 16
unfolding parse_port
parse_port-range value name n h =
    let (m, e, f) = and_then-ok (parse_long value _) port_range n h in
    let (b, g) = guard-ok (ltb (2 ^ 16 - 1) m) _ (ok m) n f in ground (arith, b, ok_injective m n g)

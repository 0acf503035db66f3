-- ===== src/Coordinator/Rows.antt =====
-- A field that was written is read back, and sums of counters add up.
use mcpd.Base.{
  ℕ, ◌≡◌, refl, sym, ap, ◌∙◌, arith, Bool, true, false, not, ◌||◌, List, [], ◌∷◌, ◌++◌,
  append_assoc, All, ◌==◌, ==_iff, if◌then◌else◌, Option, none, some, Bool-cases, inl, inr,
}
use mcpd.Wire.{Bytes}
use mcpd.Runtime.{RpcByteStats}
use mcpd.Runtime.Tallies.{IsTallied}
use mcpd.Coordinator.Telemetry.{
  has_special, escaped, csv_value, add_rpc_byte_stats, sum_rpc_byte_stats,
}

abbrev consed : ℕ → Option (Bytes × Bytes) → Option (Bytes × Bytes)
consed c none = none
consed c (some (value, rest)) = some (c ∷ value, rest)

-- How a reader of RFC 4180 takes a field from the front of a row: a quoted field ends at a quote that no quote
-- follows, another at a comma or the end of the line.
abbrev read_quoted : Bytes → Option (Bytes × Bytes)
read_quoted [] = none
read_quoted (c ∷ []) = if c == 34 then some ([], []) else none
read_quoted (c ∷ (d ∷ row)) =
    let after_pair = read_quoted row in
    let next = read_quoted (d ∷ row) in
    if c == 34
    then (if d == 34 then consed 34 after_pair else some ([], d ∷ row))
    else consed c next

abbrev ends_field : ℕ → Bool
ends_field c = c == 44 || c == 10 || c == 13

abbrev read_plain : Bytes → Bytes × Bytes
read_plain [] = ([], [])
read_plain (c ∷ row) =
    let (value, rest) = read_plain row in if ends_field c then ([], c ∷ row) else (c ∷ value, rest)

abbrev pub read_field : Bytes → Option (Bytes × Bytes)
read_field [] = some ([], [])
read_field (c ∷ row) = if c == 34 then read_quoted row else some (read_plain (c ∷ row))

-- What follows a field: nothing, or the comma or the line's end.
abbrev pub EndsField : Bytes → Type 0
EndsField [] = Unit
EndsField (c ∷ row) = ends_field c ≡ true

read_quoted-other :
    (c : ℕ) (row : Bytes) → (c == 34) ≡ false → read_quoted (c ∷ row) ≡ consed c (read_quoted row)
read_quoted-other c [] h = rw h
read_quoted-other c (d ∷ row) h = rw h

read_quoted-end : (row : Bytes) → EndsField row → read_quoted (34 ∷ row) ≡ some ([], row)
read_quoted-end [] h = refl
read_quoted-end (d ∷ row) h = other (d == 34) (ground (arith, h))
  where
    other :
        (b : Bool)
        → b ≡ false
        → (if b then consed 34 (read_quoted row) else some ([], d ∷ row)) ≡ some ([], d ∷ row)
    other b k = rw k

read_quoted-escaped :
    (value row : Bytes)
    → EndsField row
    → read_quoted (escaped value ++ (34 ∷ row)) ≡ some (value, row)
unfolding escaped
read_quoted-escaped [] row h = read_quoted-end row h
read_quoted-escaped (c ∷ value) row h = either (c == 34) refl (read_quoted-escaped value row h)
  where
    either :
        (b : Bool)
        → (c == 34) ≡ b
        → read_quoted (escaped value ++ (34 ∷ row)) ≡ some (value, row)
        → read_quoted ((if b then 34 ∷ (34 ∷ escaped value) else c ∷ escaped value) ++ (34 ∷ row))
          ≡ some (c ∷ value, row)
    either true e k =
        ap (consed 34) k ∙ ap (λ (n : ℕ). some (n ∷ value, row)) (sym ((==_iff c 34).0 e))
    either false e k = read_quoted-other c (escaped value ++ (34 ∷ row)) e ∙ ap (consed c) k

read_plain-end : (row : Bytes) → EndsField row → read_plain row ≡ ([], row)
read_plain-end [] h = refl
read_plain-end (c ∷ row) h = rw h

plain_step :
    (b : Bool) (c : ℕ) (value rest row : Bytes)
    → b ≡ false
    → ◌≡◌ {A = Bytes × Bytes} (if b then ([], row) else (c ∷ value, rest)) (c ∷ value, rest)
plain_step b c value rest row h = rw h

read_plain-value :
    (value row : Bytes)
    → has_special value ≡ false
    → EndsField row
    → read_plain (value ++ row) ≡ (value, row)
read_plain-value [] row h k = read_plain-end row k
read_plain-value (c ∷ value) row h k =
    plain_step (ends_field c) c (read_plain (value ++ row)).0 (read_plain (value ++ row)).1
      (c ∷ (value ++ row)) (ground (arith, h))
    ∙ ap (λ (t : Bytes × Bytes). (c ∷ t.0, t.1)) (read_plain-value value row (ground (arith, h)) k)

-- Every text comes back from the field that csvValue writes for it, with any bytes in it, when the field is
-- followed by a comma, the end of the line or nothing, as a reader of RFC 4180 takes it; what follows is left.
pub read_field-csv_value :
    (value row : Bytes) → EndsField row → read_field (csv_value value ++ row) ≡ some (value, row)
unfolding csv_value
read_field-csv_value [] row h = unfold escaped in read_quoted-end row h
read_field-csv_value (c ∷ value) row h = elim (Bool-cases (has_special (c ∷ value))) [
  | inl e ↦ quoted _ e
  | inr e ↦ plain _ e e
]
  where
    quoted :
        (b : Bool)
        → b ≡ true
        → read_field ((if not b then c ∷ value else (34 ∷ escaped (c ∷ value)) ++ (34 ∷ [])) ++ row)
          ≡ some (c ∷ value, row)
    quoted b e = rw e (
        ap read_quoted (append_assoc (escaped (c ∷ value)) (34 ∷ []) row)
        ∙ read_quoted-escaped (c ∷ value) row h)

    first :
        (b : Bool)
        → b ≡ false
        → (if b then read_quoted (value ++ row) else some (read_plain (c ∷ (value ++ row))))
          ≡ some (read_plain (c ∷ (value ++ row)))
    first b e = rw e

    plain :
        (b : Bool)
        → b ≡ false
        → has_special (c ∷ value) ≡ false
        → read_field ((if not b then c ∷ value else (34 ∷ escaped (c ∷ value)) ++ (34 ∷ [])) ++ row)
          ≡ some (c ∷ value, row)
    plain b k e =
        rw k (first (c == 34) (ground (arith, e)) ∙ ap some (read_plain-value (c ∷ value) row e h))

IsTallied-add :
    (total stats : RpcByteStats)
    → IsTallied total
    → IsTallied stats
    → IsTallied (add_rpc_byte_stats total stats)
unfolding add_rpc_byte_stats
IsTallied-add total stats h k = record {
  tx = omega (arith, h.tx, k.tx);
  rx = omega (arith, h.rx, k.rx);
}

-- If the counters of every worker add up, and those of the start value do, then so do the counters of the sum, up
-- to the wrap-around of 64 bits.
pub sum_rpc_byte_stats-IsTallied :
    (workers : List RpcByteStats) (total : RpcByteStats)
    → All IsTallied workers
    → IsTallied total
    → IsTallied (sum_rpc_byte_stats total workers)
unfolding sum_rpc_byte_stats
sum_rpc_byte_stats-IsTallied [] total h k = k
sum_rpc_byte_stats-IsTallied (stats ∷ workers) total h k =
    sum_rpc_byte_stats-IsTallied workers (add_rpc_byte_stats total stats) h.1
      (IsTallied-add total stats k h.0)

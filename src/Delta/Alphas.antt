-- ===== src/Delta/Alphas.antt =====
-- Alpha updates: an unchanged one is left out, a known constraint sends the difference.
use mcpd.Base.{Bool, false, List, [], ◌∷◌, Option, none, some, if◌then◌else◌}
use mcpd.Base.Int.{ℤ, pos, eq_ℤ}
use mcpd.Wire.{Result, ok, err, and_then, M, ◌>>=◌, ◌>>◌, pure, write_i32, read_i32}
use mcpd.Protocol.{AlphaUpdate}
use mcpd.Delta.Varint.{checked_integer_cast, checked_long_difference, checked_long_sum}
use mcpd.Delta.Varint.{write_var_i64, read_var_i64}
use mcpd.Delta.State.{TemporalPartitionState, P, update}

pub record EncodedAlphaUpdate : Type 0 where
  pub constraint_id : ℤ
  pub value : ℤ

unfoldable pub write_encoded_alpha : EncodedAlphaUpdate → M (Unit {0})
write_encoded_alpha update = do write_i32 update.constraint_id; write_var_i64 update.value

unfoldable pub read_encoded_alpha : M EncodedAlphaUpdate
read_encoded_alpha = do
  constraint_id ← read_i32
  value ← read_var_i64
  pure (record { constraint_id = constraint_id; value = value })

-- `partition_state.alpha_by_constraint[constraint_id] = alpha`
abbrev pub set_alpha : TemporalPartitionState → ℤ → ℤ → TemporalPartitionState
set_alpha p constraint_id alpha = record p {
  alpha_by_constraint = update p.alpha_by_constraint constraint_id (some alpha);
}

-- Whether the baseline has this alpha.
abbrev pub unchanged : Option ℤ → ℤ → Bool
unchanged none alpha = false
unchanged (some old) alpha = eq_ℤ old alpha

unfoldable pub wire_value : Option ℤ → ℤ → Result ℤ
wire_value none alpha = checked_integer_cast alpha
wire_value (some old) alpha = checked_long_difference alpha old

abbrev pub cons_first :
    {A : Type 0}
    → A
    → Result (List A) × TemporalPartitionState
    → Result (List A) × TemporalPartitionState
cons_first a (r, p) = (and_then r (λ as'. ok (a ∷ as')), p)

-- The loop of encodeAlphaUpdatesForPartition.
unfoldable pub encode_alphas : List AlphaUpdate → P (List EncodedAlphaUpdate)
encode_alphas [] p = (ok [], p)
encode_alphas (update ∷ updates) p =
    let find = p.alpha_by_constraint update.constraint_id in
    let skip = encode_alphas updates p in
    let send = encode_alphas updates (set_alpha p update.constraint_id update.alpha) in
    if unchanged find update.alpha then skip else elim (wire_value find update.alpha) [
      | err e ↦ (err e, p)
      | ok value ↦ cons_first (record { constraint_id = update.constraint_id; value = value }) send
    ]

unfoldable pub reconstruct : Option ℤ → ℤ → Result ℤ
reconstruct none value = checked_integer_cast value
reconstruct (some old) value = checked_long_sum old value

-- `mcpd3::AlphaUpdate{constraint_id, alpha, 0, 0}`; the float 0 has the pattern 0.
abbrev pub plain_update : ℤ → ℤ → AlphaUpdate
plain_update constraint_id alpha = record {
  constraint_id = constraint_id;
  alpha = alpha;
  last_alpha = pos 0;
  alpha_momentum = 0;
}

-- The loop of decodeAlphaUpdatesForPartition.
unfoldable pub decode_alphas : List EncodedAlphaUpdate → P (List AlphaUpdate)
decode_alphas [] p = (ok [], p)
decode_alphas (wire_update ∷ updates) p =
    elim (reconstruct (p.alpha_by_constraint wire_update.constraint_id) wire_update.value) [
      | err e ↦ (err e, p)
      | ok alpha ↦
          cons_first (plain_update wire_update.constraint_id alpha)
            (decode_alphas updates (set_alpha p wire_update.constraint_id alpha))
    ]

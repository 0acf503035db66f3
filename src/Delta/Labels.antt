-- ===== src/Delta/Labels.antt =====
-- Constraint labels: all of them when the set of constraints may be new, else those that changed.
use mcpd.Base.{Bool, true, false, not, ◌||◌, List, [], ◌∷◌, ◌++◌, Option, none, some, length}
use mcpd.Base.{◌==◌, if◌then◌else◌}
use mcpd.Base.Int.{ℤ, pos, negsuc, eq_ℤ}
use mcpd.Wire.{
  Result, ok, err, and_then, M, ◌>>=◌, ◌>>◌, pure, require, write_i32, write_bool, read_i32,
}
use mcpd.Wire.{read_bool, label_not_binary, duplicate_label, delta_before_full_sync, missing_label}
use mcpd.Protocol.{ConstraintLabel}
use mcpd.Delta.State.{TemporalPartitionState, P, update}
use mcpd.Delta.Alphas.{cons_first}

pub record EncodedConstraintLabel : Type 0 where
  pub constraint_id : ℤ
  pub label : ℤ

-- `label.label == 0 || label.label == 1`
abbrev pub is_binary : ℤ → Bool
is_binary label = eq_ℤ label (pos 0) || eq_ℤ label (pos 1)

unfoldable pub write_encoded_label : EncodedConstraintLabel → M (Unit {0})
write_encoded_label label = do
  require (is_binary label.label) label_not_binary
  write_i32 label.constraint_id
  write_bool (not (eq_ℤ label.label (pos 0)))

unfoldable pub read_encoded_label : M EncodedConstraintLabel
read_encoded_label = do
  constraint_id ← read_i32
  label ← read_bool
  pure (record { constraint_id = constraint_id; label = if label then pos 1 else pos 0 })

-- `label_by_constraint[constraint_id] = label` for a constraint that is there.
abbrev pub set_label : TemporalPartitionState → ℤ → ℤ → TemporalPartitionState
set_label p constraint_id label = record p {
  label_by_constraint = update p.label_by_constraint constraint_id (some label);
}

-- The same for a new constraint, which also goes to the end of the order.
abbrev pub add_label : TemporalPartitionState → ℤ → ℤ → TemporalPartitionState
add_label p constraint_id label = record p {
  label_by_constraint = update p.label_by_constraint constraint_id (some label);
  label_order = p.label_order ++ (constraint_id ∷ []);
}

-- What a full sync does first.
abbrev pub clear_labels : TemporalPartitionState → TemporalPartitionState
clear_labels p = record p {
  label_by_constraint = λ c. none;
  label_order = [];
  labels_initialized = true;
}

abbrev pub wire_label : ConstraintLabel → EncodedConstraintLabel
wire_label label = record { constraint_id = label.constraint_id; label = label.label }

-- The loop of a full sync.
unfoldable pub encode_all : List ConstraintLabel → P (List EncodedConstraintLabel)
encode_all [] p = (ok [], p)
encode_all (label ∷ labels) p =
    let rest = encode_all labels (add_label p label.constraint_id label.label) in
    if is_binary label.label
    then elim (p.label_by_constraint label.constraint_id) [
      | some old ↦ (err duplicate_label, p)
      | none ↦ cons_first (wire_label label) rest
    ]
    else (err label_not_binary, p)

-- The loop of a delta.
unfoldable pub encode_changed : List ConstraintLabel → P (List EncodedConstraintLabel)
encode_changed [] p = (ok [], p)
encode_changed (label ∷ labels) p =
    let skip = encode_changed labels p in
    let added = encode_changed labels (add_label p label.constraint_id label.label) in
    let changed = encode_changed labels (set_label p label.constraint_id label.label) in
    if is_binary label.label
    then elim (p.label_by_constraint label.constraint_id) [
      | none ↦ cons_first (wire_label label) added
      | some old ↦ if eq_ℤ old label.label then skip else cons_first (wire_label label) changed
    ]
    else (err label_not_binary, p)

abbrev pub is_some {ℓ} : {A : Type ℓ} → Option A → Bool
is_some none = false
is_some (some a) = true

-- The loop that looks for a constraint without a baseline.
unfoldable pub some_unknown : List ConstraintLabel → TemporalPartitionState → Bool
some_unknown [] p = false
some_unknown (label ∷ labels) p =
    not (is_some (p.label_by_constraint label.constraint_id)) || some_unknown labels p

unfoldable pub needs_full_sync : List ConstraintLabel → TemporalPartitionState → Bool
needs_full_sync labels p =
    not p.labels_initialized || not (length p.label_order == length labels) || some_unknown labels p

-- encodeLabelsForPartition, which also hands out `full_sync`.
unfoldable pub encode_labels : List ConstraintLabel → P (Bool × List EncodedConstraintLabel)
encode_labels labels p =
    let full_sync = needs_full_sync labels p in
    let (r, p') =
      (if full_sync then encode_all labels (clear_labels p) else encode_changed labels p) in
    (and_then r (λ encoded. ok (full_sync, encoded)), p')

-- The loop of decodeLabelsForPartition over the labels that arrived.
unfoldable pub store_labels :
    List EncodedConstraintLabel → TemporalPartitionState → TemporalPartitionState
store_labels [] p = p
store_labels (wire ∷ labels) p =
    store_labels labels (elim (p.label_by_constraint wire.constraint_id) [
      | none ↦ add_label p wire.constraint_id wire.label
      | some old ↦ set_label p wire.constraint_id wire.label
    ])

-- `mcpd3::ConstraintLabel{constraint_id, -1, -1, label}`
abbrev pub plain_label : ℤ → ℤ → ConstraintLabel
plain_label constraint_id label = record {
  constraint_id = constraint_id;
  global_node_id = negsuc 0;
  local_index = negsuc 0;
  label = label;
}

-- The loop that gathers the labels of all constraints.
unfoldable pub gather_labels : List ℤ → (ℤ → Option ℤ) → Result (List ConstraintLabel)
gather_labels [] by_constraint = ok []
gather_labels (constraint_id ∷ order) by_constraint =
    let rest = gather_labels order by_constraint in
    elim (by_constraint constraint_id) [
      | none ↦ err missing_label
      | some label ↦ and_then rest (λ labels. ok (plain_label constraint_id label ∷ labels))
    ]

abbrev gathered : TemporalPartitionState → Result (List ConstraintLabel) × TemporalPartitionState
gathered p = (gather_labels p.label_order p.label_by_constraint, p)

unfoldable pub decode_labels : Bool → List EncodedConstraintLabel → P (List ConstraintLabel)
decode_labels true encoded p = gathered (store_labels encoded (clear_labels p))
decode_labels false encoded p =
    if p.labels_initialized
    then gathered (store_labels encoded p)
    else (err delta_before_full_sync, p)

-- ===== src/Delta/Mirror/Sync.antt =====
-- encodeLabelsForPartition and decodeLabelsForPartition as a whole, in both of their modes.
use mcpd.Base.{◌≡◌, refl, sym, ap, ◌∙◌, arith, List, [], ◌∷◌, map, All, length}
use mcpd.Base.{Option, none, Bool, true, false, not, ◌||◌, ◌==◌, if◌then◌else◌}
use mcpd.Base.Int.{ℤ}
use mcpd.Wire.{Result, ok, err, delta_before_full_sync}
use mcpd.Protocol.{ConstraintLabel}
use mcpd.Delta.State.{TemporalPartitionState}
use mcpd.Delta.Labels.{EncodedConstraintLabel, wire_label, store_labels}
use mcpd.Delta.Labels.{
  clear_labels, encode_all, encode_changed, some_unknown, needs_full_sync, encode_labels,
}
use mcpd.Delta.Labels.{gather_labels, decode_labels}
use mcpd.Delta.Mirror.Baselines.{
  puts, constraint_ids, AreDistinct, AreKnown, AreFresh, received_label, stored,
}
use mcpd.Delta.Mirror.Baselines.{stored-AreKnown, stored-AreFresh, gather_labels-puts}
use mcpd.Delta.Mirror.Labels.{
  IsLabel, kept, encode_all-AreFresh, Synced-AreKnown, some_unknown-false,
}

-- The labels that travel, and the baselines that both ends then have, by the mode.
abbrev pub sent_labels : Bool → List ConstraintLabel → TemporalPartitionState → List ConstraintLabel
sent_labels true ls p = ls
sent_labels false ls p = kept ls p.label_by_constraint

abbrev pub known_before : Bool → TemporalPartitionState → ℤ → Option ℤ
known_before true p = λ c. none
known_before false p = p.label_by_constraint

abbrev pub synced : Bool → List ConstraintLabel → TemporalPartitionState → TemporalPartitionState
synced full ls p = record p {
  label_by_constraint = puts ls (known_before full p);
  label_order = constraint_ids ls;
  labels_initialized = true;
}

AreFresh-none : (ls : List ConstraintLabel) → AreFresh (λ c. none) ls
AreFresh-none [] = tt
AreFresh-none (l ∷ ls) = (refl, AreFresh-none ls)

all_false : (a b c : Bool) → (not a || not b || c) ≡ false → (a ≡ true) × (c ≡ false)
all_false true true c h = (refl, h)
all_false true false c h = absurd (ground arith)
all_false false b c h = absurd (ground arith)

-- The parts of a baseline that allow a delta.
needs_full_sync-false :
    (ls : List ConstraintLabel) (p : TemporalPartitionState)
    → needs_full_sync ls p ≡ false
    → (p.labels_initialized ≡ true) × AreKnown p.label_by_constraint ls
unfolding needs_full_sync
needs_full_sync-false ls p h =
    let (init, none_unknown) =
      all_false p.labels_initialized (length p.label_order == length ls) (some_unknown ls p) h in
    (init, some_unknown-false ls p none_unknown)

-- Storing what travels gives the baselines `synced`, from a cleared state or from the old one.
stored-synced :
    (full : Bool) (ls : List ConstraintLabel) (p : TemporalPartitionState)
    → full ≡ needs_full_sync ls p
    → All IsLabel ls
    → AreDistinct ls
    → (needs_full_sync ls p ≡ false → p.label_order ≡ constraint_ids ls)
    → stored ls (if full then clear_labels p else p) ≡ synced full ls p
stored-synced true ls p e i d o = stored-AreFresh ls (clear_labels p) d (AreFresh-none ls)
stored-synced false ls p e i d o =
    let (init, known) = needs_full_sync-false ls p (sym e) in
    stored-AreKnown ls p known
    ∙ ap
        (λ (t : List ℤ). record p {
          label_by_constraint = puts ls p.label_by_constraint;
          label_order = t;
        })
        (o (sym e))
    ∙ ap
        (λ (t : Bool). record p {
          label_by_constraint = puts ls p.label_by_constraint;
          label_order = constraint_ids ls;
          labels_initialized = t;
        })
        init

abbrev gather_all : TemporalPartitionState → Result (List ConstraintLabel) × TemporalPartitionState
gather_all q = (gather_labels q.label_order q.label_by_constraint, q)

delta_start :
    (p q : TemporalPartitionState)
    → p.labels_initialized ≡ true
    → (if p.labels_initialized then gather_all q else (err delta_before_full_sync, p))
      ≡ gather_all q
delta_start p q h = rw h

module _ (ls : List ConstraintLabel) (p : TemporalPartitionState) (i : All IsLabel ls)
    (d : AreDistinct ls)
    (o : needs_full_sync ls p ≡ false → p.label_order ≡ constraint_ids ls) where
  encode_by :
      (full : Bool)
      → full ≡ needs_full_sync ls p
      → (if full then encode_all ls (clear_labels p) else encode_changed ls p)
        ≡ (ok (map wire_label (sent_labels full ls p)), synced full ls p)
  encode_by true e =
      encode_all-AreFresh ls (clear_labels p) i d (AreFresh-none ls)
      ∙ ap (λ (q : TemporalPartitionState). (ok (map wire_label ls), q))
          (stored-synced true ls p e i d o)
  encode_by false e =
      (Synced-AreKnown ls p i (needs_full_sync-false ls p (sym e)).1).0
      ∙ ap
          (λ (q : TemporalPartitionState). (ok (map wire_label (kept ls p.label_by_constraint)), q))
          (stored-synced false ls p e i d o)

  gathered_lem :
      (full : Bool)
      → gather_labels (synced full ls p).label_order (synced full ls p).label_by_constraint
        ≡ ok (map received_label ls)
  gathered_lem full = gather_labels-puts ls (known_before full p) d

  pub decode_by :
      (full : Bool)
      → full ≡ needs_full_sync ls p
      → decode_labels full (map wire_label (sent_labels full ls p)) p
        ≡ (ok (map received_label ls), synced full ls p)
  unfolding decode_labels
  decode_by true e = rw (stored-synced true ls p e i d o, gathered_lem true)
  decode_by false e =
      let (init, known) = needs_full_sync-false ls p (sym e) in
      delta_start p (store_labels (map wire_label (kept ls p.label_by_constraint)) p) init
      ∙ ap gather_all ((Synced-AreKnown ls p i known).1 ∙ stored-synced false ls p e i d o)
      ∙ rw (gathered_lem false)

  pub encode_labels_lem : encode_labels ls p ≡ (
    ok (needs_full_sync ls p, map wire_label (sent_labels (needs_full_sync ls p) ls p)),
    synced (needs_full_sync ls p) ls p,
  )
  unfolding encode_labels
  encode_labels_lem = rw (encode_by (needs_full_sync ls p) refl)

-- Let the labels be binary and of distinct constraints, and let a delta find the constraints in the order
-- of the baseline. Then encoding succeeds, in a full sync and in a delta; decoding what it sends over the
-- same baselines gives a label for every label, also for those that did not travel, in order and with its
-- constraint_id and label, but with -1 for global_node_id and local_index, which the encoding drops; and both ends
-- have the same baselines afterwards, which hold these constraints in this order.
pub decode_labels-encode_labels :
    (ls : List ConstraintLabel) (p : TemporalPartitionState)
    → All IsLabel ls
    → AreDistinct ls
    → (needs_full_sync ls p ≡ false → p.label_order ≡ constraint_ids ls)
    → (full : Bool) × (es : List EncodedConstraintLabel) × (encode_labels ls p
        ≡ (ok (full, es), synced full ls p))
      × (decode_labels full es p ≡ (ok (map received_label ls), synced full ls p))
decode_labels-encode_labels ls p i d o =
    let full = needs_full_sync ls p in
    (
      full,
      map wire_label (sent_labels full ls p),
      encode_labels_lem ls p i d o,
      decode_by ls p i d o full refl,
    )

-- ===== src/Delta/Mirror/Results.antt =====
-- Solve results: the frame that a worker encodes is decoded by the coordinator, and both update their baselines.
use mcpd.Base.{
  ℕ, ◌+◌, ◌*◌, ◌^◌, ◌≤◌, ◌<◌, ◌≡◌, refl, ap, subst, ◌∙◌, arith, List, [], ◌∷◌, map, All, length,
  length-map,
}
use mcpd.Base.{Bool, true, false, not, if◌then◌else◌, Option, some}
use mcpd.Base.Int.{ℤ, pos, negsuc, eq_ℤ, IsI32, IsI64}
use mcpd.Wire.{
  ok, M, require, read_vector, write_vector, write_bool, read_bool, label_not_binary, write_i32,
  pure, ◌>>◌,
}
use mcpd.Wire.Reads.{Reads, Reads-seq, Reads-last, >>=-ok}
use mcpd.Wire.Reads.Scalars.{Reads-i32, Reads-long, Reads-bool}
use mcpd.Wire.Reads.Vectors.{total-const, Reads-vector, map-same}
use mcpd.Protocol.{ConstraintLabel, PartitionSolveResult, solve_round_result}
use mcpd.Protocol.RoundTrip.Results.{Reads-timing}
use mcpd.Delta.State.{TemporalPartitionState, TemporalSolveCodecState, update}
use mcpd.Delta.Alphas.{unchanged}
use mcpd.Delta.Labels.{
  EncodedConstraintLabel, is_binary, wire_label, write_encoded_label, read_encoded_label,
}
use mcpd.Delta.Labels.{encode_labels, decode_labels, needs_full_sync}
use mcpd.Delta.Messages.{write_result, read_result, read_timed}
use mcpd.Delta.Messages.{
  encode_delta_solve_round_result_with_timing, decode_delta_timed_solve_round_result,
}
use mcpd.Delta.Mirror.Baselines.{constraint_ids, AreDistinct, received_label}
use mcpd.Delta.Mirror.Labels.{IsLabel, kept}
use mcpd.Delta.Mirror.Sync.{sent_labels, synced, encode_labels_lem, decode_by}
use mcpd.Delta.Mirror.Actions.{
  Mirrors, Mirrors-plain, Mirrors-then, Mirrors-last, Mirrors-exchange_two, store,
}
use mcpd.Delta.Mirror.Frames.{Reaches, Reaches-Mirrors}

abbrev IsEncodedLabel : EncodedConstraintLabel → Type 0
IsEncodedLabel e = IsI32 e.constraint_id × (is_binary e.label ≡ true)

binary_back :
    (label : ℤ)
    → is_binary label ≡ true
    → (if not (eq_ℤ label (pos 0)) then pos 1 else pos 0) ≡ label
binary_back (pos n) h = ground arith
binary_back (negsuc n) h = absurd (ground arith)

require-true : (b : Bool) (bs : List ℕ) → b ≡ true → require b label_not_binary bs ≡ ok (tt, bs)
require-true b bs h = rw h (unfold require pure in refl)

Reads-encoded_label :
    (e : EncodedConstraintLabel)
    → IsEncodedLabel e
    → Reads (write_encoded_label e) read_encoded_label e 5
unfolding write_encoded_label read_encoded_label
Reads-encoded_label e h = record {
  bytes = x.bytes;
  sized = x.sized;
  written = λ w.
      >>=-ok (require (is_binary e.label) label_not_binary) _ w w tt (require-true _ w h.1)
      ∙ x.written w;
  reads = λ rest.
      x.reads rest
      ∙ ap (λ (l : ℤ). ok (record { constraint_id = e.constraint_id; label = l }, rest))
          (binary_back e.label h.1);
}
  where
    x :
        Reads
          (write_i32 e.constraint_id >> write_bool (not (eq_ℤ e.label (pos 0))))
          read_encoded_label
          (record {
            constraint_id = e.constraint_id;
            label = if not (eq_ℤ e.label (pos 0)) then pos 1 else pos 0;
          })
          5
    x =
        Reads-seq _ (Reads-i32 e.constraint_id h.0)
          (Reads-last _ (Reads-bool (not (eq_ℤ e.label (pos 0)))))

abbrev write_labels : List EncodedConstraintLabel → M (Unit {0})
write_labels es = write_vector es write_encoded_label

Reads-encoded_labels :
    (es : List EncodedConstraintLabel)
    → length es < 2 ^ 32
    → All IsEncodedLabel es
    → Reads (write_labels es) (read_vector read_encoded_label) es (4 + length es * 5)
Reads-encoded_labels es n h =
    subst (λ xs. Reads (write_labels es) (read_vector read_encoded_label) xs (4 + length es * 5))
      (map-same es)
      (subst
        (λ k. Reads (write_labels es) (read_vector read_encoded_label) (map (λ e. e) es) (4 + k))
        (total-const 5 es)
        (Reads-vector IsEncodedLabel write_encoded_label read_encoded_label (λ e. e) (λ e. 5)
          Reads-encoded_label es n h))

All-wire_label :
    (ls : List ConstraintLabel) → All IsLabel ls → All IsEncodedLabel (map wire_label ls)
All-wire_label [] h = tt
All-wire_label (l ∷ ls) h = (h.0, All-wire_label ls h.1)

-- What is kept of a list is no longer than it and has what all its labels have.
abbrev Fits : List ConstraintLabel → List ConstraintLabel → Type 0
Fits sent ls = All IsLabel sent × (length sent ≤ length ls)

Fits-choose :
    (b : Bool) (l : ConstraintLabel) (ls skip send : List ConstraintLabel)
    → IsLabel l
    → Fits skip ls
    → Fits send ls
    → Fits (if b then skip else l ∷ send) (l ∷ ls)
Fits-choose true l ls skip send i h k = (h.0, omega (arith, h.1))
Fits-choose false l ls skip send i h k = ((i, k.0), omega (arith, k.1))

Fits-kept :
    (ls : List ConstraintLabel) (known : ℤ → Option ℤ) → All IsLabel ls → Fits (kept ls known) ls
Fits-kept [] known h = (tt, omega arith)
Fits-kept (l ∷ ls) known h =
    Fits-choose (unchanged (known l.constraint_id) l.label) l ls _ _ h.0 (Fits-kept ls known h.1)
      (Fits-kept ls (update known l.constraint_id (some l.label)) h.1)

Fits-sent :
    (full : Bool) (ls : List ConstraintLabel) (p : TemporalPartitionState)
    → All IsLabel ls
    → Fits (sent_labels full ls p) ls
Fits-sent true ls p h = (h, omega arith)
Fits-sent false ls p h = Fits-kept ls p.label_by_constraint h

pub record IsResultHead (m : PartitionSolveResult) : Type 0 where
  pub round : IsI64 m.round_id
  pub partition : IsI32 m.partition_id
  pub bound : IsI64 m.lower_bound
  pub budget : IsI64 m.regularization_budget
  pub contribution : IsI64 m.regularization_contribution
  pub anchors : IsI64 m.regularization_anchor_sink_count
  pub actives : IsI64 m.regularization_active_sink_count
  pub labels : All IsLabel m.constrained_labels
  pub distinct : AreDistinct m.constrained_labels
  pub count : length m.constrained_labels < 2 ^ 32

module _ (m : PartitionSolveResult) (s : TemporalSolveCodecState) where
  abbrev pub baseline : TemporalPartitionState
  baseline = s.partitions m.partition_id

  abbrev pub result_mode : Bool
  result_mode = needs_full_sync m.constrained_labels baseline

  abbrev pub sent_of : List ConstraintLabel
  sent_of = sent_labels result_mode m.constrained_labels baseline

  -- A delta finds the constraints in the order of the baseline.
  abbrev pub KeepsOrder : Type 0
  KeepsOrder = result_mode ≡ false → baseline.label_order ≡ constraint_ids m.constrained_labels

  -- What the coordinator hands on, and the baselines that both ends have then.
  abbrev pub received_result : PartitionSolveResult
  received_result = record m { constrained_labels = map received_label m.constrained_labels }

  abbrev pub after_result : TemporalSolveCodecState
  after_result = store s m.partition_id (synced result_mode m.constrained_labels baseline)

  abbrev pub delta_result_size : ℕ
  delta_result_size =
      8 + (4 + (8 + (8 + (8 + (8 + (8 + (1 + (4 + length (map wire_label sent_of) * 5))))))))

  sent_count : IsResultHead m → length (map wire_label sent_of) ≤ length m.constrained_labels
  sent_count h = omega (
    arith,
    length-map wire_label sent_of,
    (Fits-sent result_mode m.constrained_labels baseline h.labels).1,
  )

  pub Mirrors-result :
      IsResultHead m
      → KeepsOrder
      → Mirrors (write_result m) read_result received_result s after_result delta_result_size
  unfolding write_result read_result
  Mirrors-result h o = Mirrors-plain _ (Reads-long m.round_id h.round) (
      Mirrors-plain _ (Reads-i32 m.partition_id h.partition) (
        Mirrors-plain _ (Reads-long m.lower_bound h.bound) (
          Mirrors-plain _ (Reads-long m.regularization_budget h.budget) (
            Mirrors-plain _ (Reads-long m.regularization_contribution h.contribution) (
              Mirrors-plain _ (Reads-long m.regularization_anchor_sink_count h.anchors) (
                Mirrors-plain _ (Reads-long m.regularization_active_sink_count h.actives) (
                  Mirrors-exchange_two m.partition_id (encode_labels m.constrained_labels)
                    write_bool write_labels read_bool (read_vector read_encoded_label) decode_labels
                    _ (encode_labels_lem m.constrained_labels baseline h.labels h.distinct o)
                    (Reads-bool result_mode)
                    (Reads-encoded_labels (map wire_label sent_of)
                      (omega (arith, sent_count h, h.count))
                      (All-wire_label sent_of
                        (Fits-sent result_mode m.constrained_labels baseline h.labels).0))
                    (decode_by m.constrained_labels baseline h.labels h.distinct o result_mode
                      refl))))))))

-- Let a result fit its fields, its labels be binary and of distinct constraints, and a delta find the constraints
-- in the order of the baseline. Then encoding succeeds; the frame is decoded by an end with the same baselines to
-- the worker's time and a result with the same numbers and a label for each label of the original, also for those
-- that did not travel, with its constraint_id and label, but with -1 for global_node_id and local_index, which
-- the encoding drops; and both ends come to the same baselines.
pub decode_delta_result-encode_delta_result :
    (m : PartitionSolveResult) (us : ℕ) (s : TemporalSolveCodecState)
    → us < 2 ^ 64
    → IsResultHead m
    → KeepsOrder m s
    → Reaches
        (encode_delta_solve_round_result_with_timing m us)
        decode_delta_timed_solve_round_result
        (record { result = received_result m s; worker_solve_wall_us = us })
        s
        (after_result m s)
        (12 + (delta_result_size m s + 8))
unfolding encode_delta_solve_round_result_with_timing decode_delta_timed_solve_round_result
    read_timed
decode_delta_result-encode_delta_result m us s b h o =
    Reaches-Mirrors solve_round_result (omega (arith, sent_count m s h, h.count))
      (Mirrors-then _ (Mirrors-result m s h o) (Mirrors-last _ (Reads-timing us b)))

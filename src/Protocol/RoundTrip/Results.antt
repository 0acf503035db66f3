-- ===== src/Protocol/RoundTrip/Results.antt =====
-- The stateless encoding of solve results, with the worker's timing.
use mcpd.Base.{ℕ, suc, ◌+◌, ◌*◌, ◌^◌, ◌<◌, ◌≡◌, ◌∙◌, List, map, length, All, arith, length-append}
use mcpd.Base.{false}
use mcpd.Base.Int.{IsI32, IsI64}
use mcpd.Wire.{Bytes, ok, write_u64, empty, write_vector, read_vector}
use mcpd.Wire.Reads.{Reads, Reads-seq, Reads-last, Reads-resize, >>=-ok}
use mcpd.Wire.Reads.Scalars.{Reads-u64, Reads-i32, Reads-long}
use mcpd.Wire.Reads.Vectors.{total, total-const, Reads-vector}
use mcpd.Protocol.{ConstraintLabel}
use mcpd.Protocol.{PartitionSolveResult}
use mcpd.Protocol.{solve_round_result}
use mcpd.Protocol.{solve_round_batch_result}
use mcpd.Protocol.{write_constraint_label, read_constraint_label}
use mcpd.Protocol.{write_result_payload, read_result_payload, read_timing}
use mcpd.Protocol.{read_timed_result, read_timed_batch_result}
use mcpd.Protocol.{encode_solve_round_result_with_timing, decode_timed_solve_round_result}
use mcpd.Protocol.{
  encode_solve_round_batch_result_with_timing, decode_timed_solve_round_batch_result,
}
use mcpd.Protocol.RoundTrip.Frames.{Travels, Travels-message}

abbrev pub IsLabel : ConstraintLabel → Type 0
IsLabel l = IsI32 l.constraint_id × IsI32 l.label

pub record IsResult (m : PartitionSolveResult) : Type 0 where
  pub round : IsI64 m.round_id
  pub partition : IsI32 m.partition_id
  pub bound : IsI64 m.lower_bound
  pub budget : IsI64 m.regularization_budget
  pub contribution : IsI64 m.regularization_contribution
  pub anchors : IsI64 m.regularization_anchor_sink_count
  pub actives : IsI64 m.regularization_active_sink_count
  pub count : length m.constrained_labels < 2 ^ 32
  pub labels : All IsLabel m.constrained_labels

abbrev pub received_label : ConstraintLabel → ConstraintLabel → ConstraintLabel
received_label blank l = record blank { constraint_id = l.constraint_id; label = l.label }

abbrev pub received_result : ConstraintLabel → PartitionSolveResult → PartitionSolveResult
received_result blank m = record m {
  constrained_labels = map (received_label blank) m.constrained_labels;
}

abbrev pub result_size : PartitionSolveResult → ℕ
result_size m = 56 + length m.constrained_labels * 8

module _ (blank : ConstraintLabel) where
  Reads-label :
      (l : ConstraintLabel)
      → IsLabel l
      → Reads (write_constraint_label l) (read_constraint_label blank) (received_label blank l) 8
  unfolding write_constraint_label read_constraint_label
  Reads-label l v =
      Reads-seq _ (Reads-i32 l.constraint_id v.0) (Reads-last _ (Reads-i32 l.label v.1))

  Reads-labels :
      (ls : List ConstraintLabel)
      → length ls < 2 ^ 32
      → All IsLabel ls
      → Reads
          (write_vector ls write_constraint_label)
          (read_vector (read_constraint_label blank))
          (map (received_label blank) ls)
          (4 + length ls * 8)
  Reads-labels ls n v = Reads-resize _ (omega (arith, total-const {0} 8 ls)) (
      Reads-vector IsLabel write_constraint_label (read_constraint_label blank)
        (received_label blank) (λ _. 8) Reads-label ls n v)

  pub Reads-result :
      (m : PartitionSolveResult)
      → IsResult m
      → Reads
          (write_result_payload m)
          (read_result_payload blank)
          (received_result blank m)
          (result_size m)
  unfolding write_result_payload read_result_payload
  Reads-result m v = Reads-resize _ (omega arith) (
      Reads-seq _ (Reads-long m.round_id v.round) (
        Reads-seq _ (Reads-i32 m.partition_id v.partition) (
          Reads-seq _ (Reads-long m.lower_bound v.bound) (
            Reads-seq _ (Reads-long m.regularization_budget v.budget) (
              Reads-seq _ (Reads-long m.regularization_contribution v.contribution) (
                Reads-seq _ (Reads-long m.regularization_anchor_sink_count v.anchors) (
                  Reads-seq _ (Reads-long m.regularization_active_sink_count v.actives)
                    (Reads-last _ (Reads-labels m.constrained_labels v.count v.labels)))))))))

not_empty : (n : ℕ) (bs : Bytes) → length bs ≡ suc n → empty bs ≡ ok (false, bs)
unfolding empty
not_empty n bs h = ground arith

-- Bytes are left, so the timing is read.
pub Reads-timing : (us : ℕ) → us < 2 ^ 64 → Reads (write_u64 us) read_timing us 8
unfolding read_timing
Reads-timing us h =
    let x = Reads-u64 us h in
    record {
      bytes = x.bytes;
      sized = x.sized;
      written = x.written;
      reads = λ rest.
          >>=-ok empty _ _ _ false
            (not_empty (length rest + 7) _ (omega (arith, length-append {0} x.bytes rest, x.sized)))
          ∙ x.reads rest;
    }

-- A result whose fields fit comes back with the worker's solve time below 2^64; of its labels the
-- constraint and the label travel, and the other fields have their defaults.
pub decode_timed_result-encode_timed_result :
    (blank : ConstraintLabel) (m : PartitionSolveResult) (us : ℕ)
    → us < 2 ^ 64
    → IsResult m
    → Travels
        (encode_solve_round_result_with_timing m us)
        (decode_timed_solve_round_result blank)
        (record { result = received_result blank m; worker_solve_wall_us = us })
        (12 + (result_size m + 8))
unfolding encode_solve_round_result_with_timing decode_timed_solve_round_result read_timed_result
decode_timed_result-encode_timed_result blank m us h v =
    Travels-message solve_round_result (omega (arith, v.count))
      (Reads-seq _ (Reads-result blank m v) (Reads-last _ (Reads-timing us h)))

-- A batch of fewer than 2^32 results that fit, of fewer than 2^64 bytes with the timing, comes back
-- with its results in their order and the worker's solve time below 2^64; of their labels the constraint and the
-- label travel, and the other fields have their defaults.
pub decode_batch_result-encode_batch_result :
    (blank : ConstraintLabel) (ms : List PartitionSolveResult) (us : ℕ)
    → length ms < 2 ^ 32
    → us < 2 ^ 64
    → 4 + total result_size ms + 8 < 2 ^ 64
    → All IsResult ms
    → Travels
        (encode_solve_round_batch_result_with_timing ms us)
        (decode_timed_solve_round_batch_result blank)
        (record { results = map (received_result blank) ms; worker_solve_wall_us = us })
        (12 + (4 + total result_size ms + 8))
unfolding encode_solve_round_batch_result_with_timing decode_timed_solve_round_batch_result
    read_timed_batch_result
decode_batch_result-encode_batch_result blank ms us n h t v =
    Travels-message solve_round_batch_result t (
      Reads-seq _
        (Reads-vector IsResult write_result_payload (read_result_payload blank)
          (received_result blank) result_size (Reads-result blank) ms n v)
        (Reads-last _ (Reads-timing us h)))

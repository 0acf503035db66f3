-- ===== src/Delta/Examples.antt =====
-- The theorems about the stateful encoding at a partition with baselines from an earlier round.
use mcpd.Base.{
  ℕ, ◌+◌, ◌*◌, ◌^◌, ◌≡◌, refl, Bool, true, false, List, [], ◌∷◌, map, All, length, Option, none,
  some, arith,
}
use mcpd.Base.Int.{ℤ, pos, negsuc}
use mcpd.Wire.{ok}
use mcpd.Wire.Reads.{Reads}
use mcpd.Protocol.{AlphaUpdate, ConstraintLabel, PartitionSolveRequest, PartitionSolveResult}
use mcpd.Delta.Varint.{zig_zag_encode, zig_zag_decode, write_var_u64, read_var_u64}
use mcpd.Delta.State.{TemporalPartitionState, TemporalSolveCodecState, blank_partition, update}
use mcpd.Delta.Alphas.{EncodedAlphaUpdate, encode_alphas, decode_alphas}
use mcpd.Delta.Labels.{EncodedConstraintLabel, encode_labels, decode_labels, needs_full_sync}
use mcpd.Delta.Messages.{encode_delta_solve_round_request, decode_delta_solve_round_request}
use mcpd.Delta.Messages.{
  encode_delta_solve_round_result_with_timing, decode_delta_timed_solve_round_result,
}
use mcpd.Delta.Mirror.Numbers.{zig_zag_decode-zig_zag_encode}
use mcpd.Delta.Mirror.Groups.{Reads-var_u64}
use mcpd.Delta.Mirror.Alphas.{latest, changed, IsEncodedAlpha}
use mcpd.Delta.Mirror.Differences.{DifferencesFit, decode_alphas-encode_alphas}
use mcpd.Delta.Mirror.Requests.{IsSendable, delta_request_size}
use mcpd.Delta.Mirror.Baselines.{received_label}
use mcpd.Delta.Mirror.Labels.{IsLabel}
use mcpd.Delta.Mirror.Sync.{synced, decode_labels-encode_labels}
use mcpd.Delta.Mirror.Frames.{Reaches}
use mcpd.Delta.Mirror.Requests.{
  received_request, after_request, decode_delta_request-encode_delta_request,
}
use mcpd.Delta.Mirror.Results.{
  IsResultHead, received_result, after_result, delta_result_size,
  decode_delta_result-encode_delta_result,
}
use mcpd.Delta.Messages.{
  encode_delta_solve_round_batch_request, decode_delta_solve_round_batch_request,
  encode_delta_solve_round_batch_result_with_timing, decode_delta_timed_solve_round_batch_result,
}
use mcpd.Delta.Mirror.Batches.{
  received_requests, after_requests, delta_requests_size, received_results, after_results,
  delta_results_size, decode_delta_batch_request-encode_delta_batch_request,
  decode_delta_batch_result-encode_delta_batch_result,
}
use mcpd.Delta.Mirror.Rounds.{Deltas, Deltas-encode_labels}

zig_zag_decode-zig_zag_encode_example : zig_zag_decode (zig_zag_encode (negsuc 4)) ≡ negsuc 4
zig_zag_decode-zig_zag_encode_example = zig_zag_decode-zig_zag_encode (negsuc 4) (omega arith)

Reads-var_u64_example : Reads (write_var_u64 300) read_var_u64 300 2
Reads-var_u64_example = Reads-var_u64 300 (omega arith)

-- Constraint 11 has the alpha 10, the constraints 20 and 21 have the labels 0 and 1.
abbrev known_partition : TemporalPartitionState
known_partition = record {
  alpha_by_constraint = update (λ c. none) (pos 11) (some (pos 10));
  label_by_constraint = update (update (λ c. none) (pos 20) (some (pos 0))) (pos 21) (some (pos 1));
  label_order = pos 20 ∷ pos 21 ∷ [];
  labels_initialized = true;
}

abbrev known_state : TemporalSolveCodecState
known_state = record { partitions = update (λ id. blank_partition) (pos 4) known_partition }

abbrev alpha_of : ℤ → ℤ → AlphaUpdate
alpha_of constraint_id alpha = record {
  constraint_id = constraint_id;
  alpha = alpha;
  last_alpha = pos 6;
  alpha_momentum = 1065353216;
}

-- An unchanged alpha comes between a changed one and a new one.
abbrev updates : List AlphaUpdate
updates = alpha_of (pos 11) (pos 7) ∷ alpha_of (pos 11) (pos 7) ∷ alpha_of (pos 12) (pos 1) ∷ []

abbrev encoded_updates : List EncodedAlphaUpdate
encoded_updates =
    record { constraint_id = pos 11; value = negsuc 2 }
    ∷ record { constraint_id = pos 12; value = pos 1 }
    ∷ []

abbrev updated_partition : TemporalPartitionState
updated_partition = record known_partition {
  alpha_by_constraint =
      update (update known_partition.alpha_by_constraint (pos 11) (some (pos 7))) (pos 12)
        (some (pos 1));
}

updates_lem : encode_alphas updates known_partition ≡ (ok encoded_updates, updated_partition)
unfolding encode_alphas mcpd.Delta.Alphas.wire_value mcpd.Delta.Varint.checked_integer_cast
    mcpd.Delta.Varint.checked_long_difference mcpd.Base.Int.◌-ℤ◌
updates_lem = refl

updates-DifferencesFit : DifferencesFit updates known_partition.alpha_by_constraint
unfolding mcpd.Base.Int.◌-ℤ◌
updates-DifferencesFit = omega arith

decode_alphas-encode_alphas_example :
    (es : List EncodedAlphaUpdate) × (p' : TemporalPartitionState) × (encode_alphas updates
        known_partition
      ≡ (ok es, p'))
    × (decode_alphas es known_partition ≡ (ok (changed updates known_partition), p'))
    × (p' ≡ record known_partition {
      alpha_by_constraint = latest updates known_partition.alpha_by_constraint;
    })
    × All IsEncodedAlpha es
    × (length es ≡ length (changed updates known_partition))
decode_alphas-encode_alphas_example =
    decode_alphas-encode_alphas updates known_partition (omega arith) updates-DifferencesFit

abbrev sample_request : PartitionSolveRequest
sample_request = record {
  round_id = pos 2;
  partition_id = pos 4;
  scale = pos 1000;
  regularization_strength = pos 10;
  alpha_updates = updates;
}

decode_delta_request-encode_delta_request_example :
    Reaches
      (encode_delta_solve_round_request sample_request)
      decode_delta_solve_round_request
      (received_request sample_request known_state)
      known_state
      (after_request sample_request known_state)
      (12 + delta_request_size sample_request known_state)
decode_delta_request-encode_delta_request_example =
    decode_delta_request-encode_delta_request sample_request known_state
      (omega arith, updates-DifferencesFit)

abbrev label_of : ℤ → ℤ → ConstraintLabel
label_of constraint_id label = record {
  constraint_id = constraint_id;
  global_node_id = pos 3;
  local_index = pos 1;
  label = label;
}

-- The first label differs from its baseline, the second does not.
abbrev sample_labels : List ConstraintLabel
sample_labels = label_of (pos 20) (pos 1) ∷ label_of (pos 21) (pos 1) ∷ []

sample_labels-IsLabel : All IsLabel sample_labels
sample_labels-IsLabel = ((omega arith, refl), ((omega arith, refl), tt))

decode_labels-encode_labels_example :
    (full : Bool) × (es : List EncodedConstraintLabel) × (encode_labels sample_labels
        known_partition
      ≡ (ok (full, es), synced full sample_labels known_partition))
    × (decode_labels full es known_partition
        ≡ (ok (map received_label sample_labels), synced full sample_labels known_partition))
decode_labels-encode_labels_example =
    decode_labels-encode_labels sample_labels known_partition sample_labels-IsLabel
      ((refl, tt), (tt, tt)) (λ e. refl)

abbrev sample_result : PartitionSolveResult
sample_result = record {
  round_id = pos 2;
  partition_id = pos 4;
  lower_bound = negsuc 98;
  regularization_budget = pos 7;
  regularization_contribution = pos 5;
  regularization_anchor_sink_count = pos 2;
  regularization_active_sink_count = pos 1;
  constrained_labels = sample_labels;
}

sample_result-IsResultHead : IsResultHead sample_result
sample_result-IsResultHead = record {
  round = omega arith;
  partition = omega arith;
  bound = omega arith;
  budget = omega arith;
  contribution = omega arith;
  anchors = omega arith;
  actives = omega arith;
  labels = sample_labels-IsLabel;
  distinct = ((refl, tt), (tt, tt));
  count = omega arith;
}

decode_delta_result-encode_delta_result_example :
    Reaches
      (encode_delta_solve_round_result_with_timing sample_result 77)
      decode_delta_timed_solve_round_result
      (record { result = received_result sample_result known_state; worker_solve_wall_us = 77 })
      known_state
      (after_result sample_result known_state)
      (12 + (delta_result_size sample_result known_state + 8))
decode_delta_result-encode_delta_result_example =
    decode_delta_result-encode_delta_result sample_result 77 known_state (omega arith)
      sample_result-IsResultHead (λ e. refl)

-- The first round is a full sync; in the two rounds after it first one label changes, then none.
abbrev full_labels : List EncodedConstraintLabel
full_labels =
    record { constraint_id = pos 20; label = pos 1 }
    ∷ record { constraint_id = pos 21; label = pos 1 }
    ∷ []

abbrev next_labels : List ConstraintLabel
next_labels = label_of (pos 20) (pos 1) ∷ label_of (pos 21) (pos 0) ∷ []

next_labels-IsLabel : All IsLabel next_labels
next_labels-IsLabel = ((omega arith, refl), ((omega arith, refl), tt))

full_labels_lem :
    encode_labels sample_labels blank_partition
    ≡ (ok (true, full_labels), synced true sample_labels blank_partition)
unfolding encode_labels needs_full_sync mcpd.Delta.Labels.encode_all
full_labels_lem = refl

blank_needs_full_sync : needs_full_sync sample_labels blank_partition ≡ true
unfolding needs_full_sync
blank_needs_full_sync = refl

Deltas-encode_labels_example :
    Deltas (next_labels ∷ next_labels ∷ []) (synced true sample_labels blank_partition)
Deltas-encode_labels_example =
    Deltas-encode_labels sample_labels (next_labels ∷ next_labels ∷ []) blank_partition
      (synced true sample_labels blank_partition) true full_labels sample_labels-IsLabel
      ((refl, tt), (tt, tt)) (λ e. absurd (cc (e, blank_needs_full_sync))) full_labels_lem
      ((next_labels-IsLabel, refl), ((next_labels-IsLabel, refl), tt))

-- The second message of a batch over the baselines that the first one left.
abbrev next_request : PartitionSolveRequest
next_request = record sample_request {
  alpha_updates = alpha_of (pos 11) (pos 7) ∷ alpha_of (pos 12) (pos 4) ∷ [];
}

next_request-IsSendable : IsSendable next_request (after_request sample_request known_state)
unfolding mcpd.Base.Int.◌-ℤ◌
next_request-IsSendable = (omega arith, omega arith)

abbrev sample_requests : List PartitionSolveRequest
sample_requests = sample_request ∷ next_request ∷ []

sample_requests-size : delta_requests_size sample_requests known_state ≡ 75
unfolding zig_zag_encode mcpd.Base.Int.to_bits encode_alphas mcpd.Delta.Alphas.wire_value
    mcpd.Delta.Varint.checked_integer_cast mcpd.Delta.Varint.checked_long_difference
    mcpd.Base.Int.◌-ℤ◌
sample_requests-size = refl

decode_delta_batch_request-encode_delta_batch_request_example :
    Reaches
      (encode_delta_solve_round_batch_request sample_requests)
      decode_delta_solve_round_batch_request
      (received_requests sample_requests known_state)
      known_state
      (after_requests sample_requests known_state)
      (12 + delta_requests_size sample_requests known_state)
decode_delta_batch_request-encode_delta_batch_request_example =
    decode_delta_batch_request-encode_delta_batch_request sample_requests known_state (omega arith)
      (omega (arith, sample_requests-size))
      ((omega arith, updates-DifferencesFit), (next_request-IsSendable, tt))

decode_delta_batch_result-encode_delta_batch_result_example :
    Reaches
      (encode_delta_solve_round_batch_result_with_timing (sample_result ∷ sample_result ∷ []) 77)
      decode_delta_timed_solve_round_batch_result
      (record {
        results = received_results (sample_result ∷ sample_result ∷ []) known_state;
        worker_solve_wall_us = 77;
      })
      known_state
      (after_results (sample_result ∷ sample_result ∷ []) known_state)
      (12 + delta_results_size (sample_result ∷ sample_result ∷ []) known_state)
unfolding needs_full_sync mcpd.Delta.Labels.some_unknown
decode_delta_batch_result-encode_delta_batch_result_example =
    decode_delta_batch_result-encode_delta_batch_result (sample_result ∷ sample_result ∷ []) 77
      known_state (omega arith) (omega arith) (omega arith)
      ((sample_result-IsResultHead, (λ e. refl)), ((sample_result-IsResultHead, (λ e. refl)), tt))

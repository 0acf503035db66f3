-- ===== src/Protocol/Solve.antt =====
-- SOLVE_ROUND_REQUEST and SOLVE_ROUND_RESULT, single and batched, and ALPHA_UPDATE, in the stateless
-- encoding. `blank_update` and `blank_label` are the default-constructed mcpd3 structs, which the
-- readers fill in; the fields that do not travel keep these values.
use mcpd.Base.{ℕ, List, if◌then◌else◌}
use mcpd.Wire.{Bytes, Result, and_then, M, ◌>>=◌, ◌>>◌, pure, ok, write_u64, write_i32, write_i64}
use mcpd.Wire.{write_vector, read_u64, read_i32, read_i64, checked_long_cast, read_vector, empty}
use mcpd.Protocol.Messages.{AlphaUpdate, AlphaUpdateMessage, ConstraintLabel, PartitionSolveRequest}
use mcpd.Protocol.Messages.{PartitionSolveResult, TimedSolveRoundResult, TimedSolveRoundBatchResult}
use mcpd.Protocol.Messages.{alpha_update, solve_round_request, solve_round_result}
use mcpd.Protocol.Messages.{solve_round_batch_request, solve_round_batch_result}
use mcpd.Base.Int.{ℤ}
use mcpd.Protocol.Framing.{encode_message, decode_message}

unfoldable pub write_alpha_update : AlphaUpdate → M (Unit {0})
write_alpha_update update = do write_i32 update.constraint_id; write_i64 update.alpha

-- `checkedIntegerCast<long>(reader->readI64())`
abbrev pub read_long : M ℤ
read_long = read_i64 >>= checked_long_cast

unfoldable pub read_alpha_update : AlphaUpdate → M AlphaUpdate
read_alpha_update blank_update = do
  constraint_id ← read_i32
  alpha ← read_long
  pure (record blank_update { constraint_id = constraint_id; alpha = alpha })

unfoldable pub write_constraint_label : ConstraintLabel → M (Unit {0})
write_constraint_label label = do write_i32 label.constraint_id; write_i32 label.label

unfoldable pub read_constraint_label : ConstraintLabel → M ConstraintLabel
read_constraint_label blank_label = do
  constraint_id ← read_i32
  label ← read_i32
  pure (record blank_label { constraint_id = constraint_id; label = label })

unfoldable pub write_request_payload : PartitionSolveRequest → M (Unit {0})
write_request_payload message = do
  write_i64 message.round_id
  write_i32 message.partition_id
  write_i64 message.scale
  write_i32 message.regularization_strength
  write_vector message.alpha_updates write_alpha_update

unfoldable pub read_request_payload : AlphaUpdate → M PartitionSolveRequest
read_request_payload blank_update = do
  round_id ← read_long
  partition_id ← read_i32
  scale ← read_long
  regularization_strength ← read_i32
  alpha_updates ← read_vector (read_alpha_update blank_update)
  pure (record {
    round_id = round_id;
    partition_id = partition_id;
    scale = scale;
    regularization_strength = regularization_strength;
    alpha_updates = alpha_updates;
  })

unfoldable pub write_result_payload : PartitionSolveResult → M (Unit {0})
write_result_payload message = do
  write_i64 message.round_id
  write_i32 message.partition_id
  write_i64 message.lower_bound
  write_i64 message.regularization_budget
  write_i64 message.regularization_contribution
  write_i64 message.regularization_anchor_sink_count
  write_i64 message.regularization_active_sink_count
  write_vector message.constrained_labels write_constraint_label

unfoldable pub read_result_payload : ConstraintLabel → M PartitionSolveResult
read_result_payload blank_label = do
  round_id ← read_long
  partition_id ← read_i32
  lower_bound ← read_long
  regularization_budget ← read_long
  regularization_contribution ← read_long
  regularization_anchor_sink_count ← read_long
  regularization_active_sink_count ← read_long
  constrained_labels ← read_vector (read_constraint_label blank_label)
  pure (record {
    round_id = round_id;
    partition_id = partition_id;
    lower_bound = lower_bound;
    regularization_budget = regularization_budget;
    regularization_contribution = regularization_contribution;
    regularization_anchor_sink_count = regularization_anchor_sink_count;
    regularization_active_sink_count = regularization_active_sink_count;
    constrained_labels = constrained_labels;
  })

unfoldable pub encode_solve_round_request : PartitionSolveRequest → Result Bytes
encode_solve_round_request message =
    encode_message solve_round_request (write_request_payload message)

unfoldable pub decode_solve_round_request : AlphaUpdate → Bytes → Result PartitionSolveRequest
decode_solve_round_request blank_update frame =
    decode_message solve_round_request (read_request_payload blank_update) frame

unfoldable pub encode_solve_round_batch_request : List PartitionSolveRequest → Result Bytes
encode_solve_round_batch_request messages =
    encode_message solve_round_batch_request (write_vector messages write_request_payload)

unfoldable pub decode_solve_round_batch_request :
    AlphaUpdate → Bytes → Result (List PartitionSolveRequest)
decode_solve_round_batch_request blank_update frame =
    decode_message solve_round_batch_request (read_vector (read_request_payload blank_update)) frame

unfoldable pub encode_solve_round_result_with_timing : PartitionSolveResult → ℕ → Result Bytes
encode_solve_round_result_with_timing message worker_solve_wall_us =
    encode_message solve_round_result
      (do write_result_payload message; write_u64 worker_solve_wall_us)

unfoldable pub encode_solve_round_result : PartitionSolveResult → Result Bytes
encode_solve_round_result message = encode_solve_round_result_with_timing message 0

-- `if (!reader.empty()) worker_solve_wall_us = reader.readU64();`, the field being 0 before.
unfoldable pub read_timing : M ℕ
read_timing = do done ← empty; if done then pure 0 else read_u64

unfoldable pub read_timed_result : ConstraintLabel → M TimedSolveRoundResult
read_timed_result blank_label = do
  result ← read_result_payload blank_label
  worker_solve_wall_us ← read_timing
  pure (record { result = result; worker_solve_wall_us = worker_solve_wall_us })

unfoldable pub decode_timed_solve_round_result :
    ConstraintLabel → Bytes → Result TimedSolveRoundResult
decode_timed_solve_round_result blank_label frame =
    decode_message solve_round_result (read_timed_result blank_label) frame

unfoldable pub decode_solve_round_result : ConstraintLabel → Bytes → Result PartitionSolveResult
decode_solve_round_result blank_label frame =
    and_then (decode_timed_solve_round_result blank_label frame) (λ timed. ok timed.result)

unfoldable pub encode_solve_round_batch_result_with_timing :
    List PartitionSolveResult → ℕ → Result Bytes
encode_solve_round_batch_result_with_timing messages worker_solve_wall_us =
    encode_message solve_round_batch_result
      (do write_vector messages write_result_payload; write_u64 worker_solve_wall_us)

unfoldable pub encode_solve_round_batch_result : List PartitionSolveResult → Result Bytes
encode_solve_round_batch_result messages = encode_solve_round_batch_result_with_timing messages 0

unfoldable pub read_timed_batch_result : ConstraintLabel → M TimedSolveRoundBatchResult
read_timed_batch_result blank_label = do
  results ← read_vector (read_result_payload blank_label)
  worker_solve_wall_us ← read_timing
  pure (record { results = results; worker_solve_wall_us = worker_solve_wall_us })

unfoldable pub decode_timed_solve_round_batch_result :
    ConstraintLabel → Bytes → Result TimedSolveRoundBatchResult
decode_timed_solve_round_batch_result blank_label frame =
    decode_message solve_round_batch_result (read_timed_batch_result blank_label) frame

unfoldable pub decode_solve_round_batch_result :
    ConstraintLabel → Bytes → Result (List PartitionSolveResult)
decode_solve_round_batch_result blank_label frame =
    and_then (decode_timed_solve_round_batch_result blank_label frame) (λ timed. ok timed.results)

unfoldable pub write_alpha_update_message : AlphaUpdateMessage → M (Unit {0})
write_alpha_update_message message = do
  write_i32 message.partition_id
  write_vector message.alpha_updates write_alpha_update

unfoldable pub read_alpha_update_message : AlphaUpdate → M AlphaUpdateMessage
read_alpha_update_message blank_update = do
  partition_id ← read_i32
  alpha_updates ← read_vector (read_alpha_update blank_update)
  pure (record { partition_id = partition_id; alpha_updates = alpha_updates })

unfoldable pub encode_alpha_update : AlphaUpdateMessage → Result Bytes
encode_alpha_update message = encode_message alpha_update (write_alpha_update_message message)

unfoldable pub decode_alpha_update : AlphaUpdate → Bytes → Result AlphaUpdateMessage
decode_alpha_update blank_update frame =
    decode_message alpha_update (read_alpha_update_message blank_update) frame

-- ===== src/Delta/Messages.antt =====
-- The solve messages around the baselines. Bytes are written to a local Writer and read by a local
-- Reader, while the baselines outlive the call, also one that throws.
use mcpd.Base.{ℕ, zero, suc, ◌∷◌, List, [], length}
use mcpd.Wire.{Bytes, Result, ok, err, and_then, write_i32, write_i64, write_u32, write_u64}
use mcpd.Wire.{write_bool, write_vector, checked_size, read_i32, read_u32, read_bool, read_vector}
use mcpd.Wire.{require_done}
use mcpd.Protocol.{PartitionSolveRequest, PartitionSolveResult, TimedSolveRoundResult}
use mcpd.Protocol.{TimedSolveRoundBatchResult, MessageType, solve_round_request, solve_round_result}
use mcpd.Protocol.{solve_round_batch_request, solve_round_batch_result, read_long, read_timing}
use mcpd.Protocol.{encode_frame, decode_expected_frame}
use mcpd.Delta.State.{TemporalSolveCodecState, T, ◌>>=◌, ◌>>◌, plain, return, on_partition}
use mcpd.Delta.Alphas.{write_encoded_alpha, read_encoded_alpha, encode_alphas, decode_alphas}
use mcpd.Delta.Labels.{write_encoded_label, read_encoded_label, encode_labels, decode_labels}

unfoldable pub write_request : PartitionSolveRequest → T (Unit {0})
write_request message = do
  plain (write_i64 message.round_id)
  plain (write_i32 message.partition_id)
  plain (write_i64 message.scale)
  plain (write_i32 message.regularization_strength)
  encoded ← on_partition message.partition_id (encode_alphas message.alpha_updates)
  plain (write_vector encoded write_encoded_alpha)

unfoldable pub read_request : T PartitionSolveRequest
read_request = do
  round_id ← plain read_long
  partition_id ← plain read_i32
  scale ← plain read_long
  regularization_strength ← plain read_i32
  encoded ← plain (read_vector read_encoded_alpha)
  alpha_updates ← on_partition partition_id (decode_alphas encoded)
  return (record {
    round_id = round_id;
    partition_id = partition_id;
    scale = scale;
    regularization_strength = regularization_strength;
    alpha_updates = alpha_updates;
  })

unfoldable pub write_result : PartitionSolveResult → T (Unit {0})
write_result message = do
  plain (write_i64 message.round_id)
  plain (write_i32 message.partition_id)
  plain (write_i64 message.lower_bound)
  plain (write_i64 message.regularization_budget)
  plain (write_i64 message.regularization_contribution)
  plain (write_i64 message.regularization_anchor_sink_count)
  plain (write_i64 message.regularization_active_sink_count)
  synced ← on_partition message.partition_id (encode_labels message.constrained_labels)
  plain (write_bool synced.0)
  plain (write_vector synced.1 write_encoded_label)

unfoldable pub read_result : T PartitionSolveResult
read_result = do
  round_id ← plain read_long
  partition_id ← plain read_i32
  lower_bound ← plain read_long
  regularization_budget ← plain read_long
  regularization_contribution ← plain read_long
  regularization_anchor_sink_count ← plain read_long
  regularization_active_sink_count ← plain read_long
  full_sync ← plain read_bool
  encoded ← plain (read_vector read_encoded_label)
  constrained_labels ← on_partition partition_id (decode_labels full_sync encoded)
  return (record {
    round_id = round_id;
    partition_id = partition_id;
    lower_bound = lower_bound;
    regularization_budget = regularization_budget;
    regularization_contribution = regularization_contribution;
    regularization_anchor_sink_count = regularization_anchor_sink_count;
    regularization_active_sink_count = regularization_active_sink_count;
    constrained_labels = constrained_labels;
  })

unfoldable pub write_all : {A : Type 0} → (A → T (Unit {0})) → List A → T (Unit {0})
write_all write_one [] = return tt
write_all write_one (a ∷ as') = do write_one a; write_all write_one as'

-- writeVector and readVector over actions that change the baselines.
unfoldable pub write_batch : {A : Type 0} → List A → (A → T (Unit {0})) → T (Unit {0})
write_batch messages write_one = do
  size ← plain (checked_size (length messages))
  plain (write_u32 size)
  write_all write_one messages

unfoldable pub read_all : {A : Type 0} → ℕ → T A → T (List A)
read_all zero read_one = return []
read_all (suc n) read_one = do a ← read_one; as' ← read_all n read_one; return (a ∷ as')

unfoldable pub read_batch : {A : Type 0} → T A → T (List A)
read_batch read_one = do size ← plain read_u32; read_all size read_one

abbrev pub framed :
    MessageType
    → Result (Unit {0} × Bytes) × TemporalSolveCodecState
    → Result Bytes × TemporalSolveCodecState
framed type (r, state) = (and_then r (λ written. encode_frame type written.1), state)

-- `Writer writer; body; return encodeFrame(type, writer.bytes());`
unfoldable pub encode_delta :
    MessageType → T (Unit {0}) → TemporalSolveCodecState → Result Bytes × TemporalSolveCodecState
encode_delta type body state = framed type (body state [])

abbrev finished :
    {A : Type 0} → Result (A × Bytes) × TemporalSolveCodecState → Result A × TemporalSolveCodecState
finished (r, state) = (and_then r (λ read. ok read.0), state)

abbrev run_payload :
    {A : Type 0} → T A → TemporalSolveCodecState → Result Bytes → Result A × TemporalSolveCodecState
run_payload body state (ok payload) =
    finished ((do message ← body; plain require_done; return message) state payload)
run_payload body state (err e) = (err e, state)

-- The expected frame, a Reader of its payload, the body, requireDone.
unfoldable pub decode_delta :
    {A : Type 0}
    → MessageType
    → T A
    → Bytes
    → TemporalSolveCodecState
    → Result A × TemporalSolveCodecState
decode_delta type body frame state =
    run_payload body state
      (and_then (decode_expected_frame frame type) (λ decoded. ok decoded.payload))

unfoldable pub encode_delta_solve_round_request :
    PartitionSolveRequest → TemporalSolveCodecState → Result Bytes × TemporalSolveCodecState
encode_delta_solve_round_request message = encode_delta solve_round_request (write_request message)

unfoldable pub decode_delta_solve_round_request :
    Bytes → TemporalSolveCodecState → Result PartitionSolveRequest × TemporalSolveCodecState
decode_delta_solve_round_request = decode_delta solve_round_request read_request

unfoldable pub encode_delta_solve_round_batch_request :
    List PartitionSolveRequest → TemporalSolveCodecState → Result Bytes × TemporalSolveCodecState
encode_delta_solve_round_batch_request messages =
    encode_delta solve_round_batch_request (write_batch messages write_request)

unfoldable pub decode_delta_solve_round_batch_request :
    Bytes → TemporalSolveCodecState → Result (List PartitionSolveRequest) × TemporalSolveCodecState
decode_delta_solve_round_batch_request =
    decode_delta solve_round_batch_request (read_batch read_request)

unfoldable pub encode_delta_solve_round_result_with_timing :
    PartitionSolveResult → ℕ → TemporalSolveCodecState → Result Bytes × TemporalSolveCodecState
encode_delta_solve_round_result_with_timing message worker_solve_wall_us =
    encode_delta solve_round_result
      (do write_result message; plain (write_u64 worker_solve_wall_us))

unfoldable pub read_timed : T TimedSolveRoundResult
read_timed = do
  result ← read_result
  worker_solve_wall_us ← plain read_timing
  return (record { result = result; worker_solve_wall_us = worker_solve_wall_us })

unfoldable pub decode_delta_timed_solve_round_result :
    Bytes → TemporalSolveCodecState → Result TimedSolveRoundResult × TemporalSolveCodecState
decode_delta_timed_solve_round_result = decode_delta solve_round_result read_timed

unfoldable pub encode_delta_solve_round_batch_result_with_timing :
    List PartitionSolveResult → ℕ → TemporalSolveCodecState → Result Bytes × TemporalSolveCodecState
encode_delta_solve_round_batch_result_with_timing messages worker_solve_wall_us =
    encode_delta solve_round_batch_result
      (do write_batch messages write_result; plain (write_u64 worker_solve_wall_us))

unfoldable pub read_timed_batch : T TimedSolveRoundBatchResult
read_timed_batch = do
  results ← read_batch read_result
  worker_solve_wall_us ← plain read_timing
  return (record { results = results; worker_solve_wall_us = worker_solve_wall_us })

unfoldable pub decode_delta_timed_solve_round_batch_result :
    Bytes → TemporalSolveCodecState → Result TimedSolveRoundBatchResult × TemporalSolveCodecState
decode_delta_timed_solve_round_batch_result = decode_delta solve_round_batch_result read_timed_batch

-- ===== src/Runtime/Loop.antt =====
-- runWorkerClient: the greeting, and the loop that answers the coordinator's messages. The durations that are
-- measured in each round of the loop are a parameter.
use mcpd.Base.{ℕ, ◌+◌, Bool, true, false, not, List, [], ◌∷◌, map, length, ◌==◌, if◌then◌else◌}
use mcpd.Base.Int.{pos}
use mcpd.Base.Text.{codes}
use mcpd.Wire.{
  Bytes, Result, ok, err, and_then, Error, what, snappy_unavailable, hello_without_snappy,
}
use mcpd.Wire.Act.{Act, ◌>>=◌, ◌>>◌, return, fail, lift, modify, catching}
use mcpd.Protocol.{MessageType, partition_package, ready, solve_round_request}
use mcpd.Protocol.{solve_round_result, scale_objective, stop, error, solve_round_batch_request}
use mcpd.Protocol.{solve_round_batch_result, HelloMessage, encode_hello}
use mcpd.Protocol.{frame_header_bytes}
use mcpd.Protocol.{
  decode_frame_type, encode_ready, encode_error, decode_scale_objective, decode_stop,
}
use mcpd.Delta.{reset, reset_partition, decode_delta_solve_round_request}
use mcpd.Delta.{encode_delta_solve_round_result_with_timing, decode_delta_solve_round_batch_request}
use mcpd.Delta.{encode_delta_solve_round_batch_result_with_timing}
use mcpd.Tcp.{Socket, Snappy, TransportCompression, no_compression, snappy, FrameTransferStats}
use mcpd.Tcp.{send_frame_bytes, receive_frame_bytes, bare_stats, default_max_frame_bytes}
use mcpd.Runtime.Sessions.{
  Times, validate_hello, compression_feature_enabled, feature_snappy_compression,
}
use mcpd.Runtime.Direct.{
  receive_uncompressed_frame_header, receive_uncompressed_frame_body, UncompressedFrameHeader,
}
use mcpd.Runtime.Packages.{receive_partition_package_payload}
use mcpd.Runtime.Worker.{
  PartitionWorker, WorkerRuntime, Incoming, blank_transfer, is_fatal, bytes_of, on_socket,
  on_solver, on_state, hook, package_of, last_round, on_phase, on_frame_sent, on_frame_received,
  on_partition_loading, on_partition_loaded, on_solve_start, on_solve_done, on_scale_objective,
  on_error, direct_package, frame_bytes,
}

module _ {S : Type 0} (lib : Snappy) (solver : PartitionWorker S) (worker_name : Bytes)
    (compression : TransportCompression) (times : Times) where
  abbrev pub sent : Bytes → Act (WorkerRuntime S) FrameTransferStats
  sent frame =
      on_socket (send_frame_bytes lib times.compression frame compression default_max_frame_bytes)

  unfoldable pub send_ready : Act (WorkerRuntime S) (Unit {0})
  send_ready = do
    frame ← lift (encode_ready (record { worker_name = worker_name }))
    transfer ← sent frame
    hook (on_frame_sent ready transfer)

  -- sendErrorBestEffort, and the hook that its callers then call.
  unfoldable pub send_error_best_effort : ℕ → Bytes → Act (WorkerRuntime S) (Unit {0})
  send_error_best_effort code message = do
    transfer ←
        catching
          (do frame ← lift (encode_error (record { code = code; message = message })); sent frame)
          (λ e. return blank_transfer)
    if not (transfer.logical_bytes == 0) then hook (on_frame_sent error transfer) else return tt

  unfoldable pub receive_by_type :
      MessageType → UncompressedFrameHeader → Act (WorkerRuntime S) Incoming
  receive_by_type partition_package header = do
    loaded ← on_socket (receive_partition_package_payload header.payload_size)
    return (record {
      type = header.type;
      arrived = direct_package loaded;
      frame_logical_bytes = frame_header_bytes + header.payload_size;
      transfer = bare_stats (frame_header_bytes + header.payload_size);
    })
  receive_by_type type header = do
    received ← on_socket (receive_uncompressed_frame_body header)
    return (record {
      type = header.type;
      arrived = frame_bytes received.0;
      frame_logical_bytes = frame_header_bytes + header.payload_size;
      transfer = received.1;
    })

  unfoldable pub receive_next : Act (WorkerRuntime S) Incoming
  receive_next = elim compression [
    | no_compression ↦ (do
      header ← on_socket (receive_uncompressed_frame_header default_max_frame_bytes)
      receive_by_type header.type header)
    | snappy ↦ (do
      received ←
          on_socket (receive_frame_bytes lib times.decompression default_max_frame_bytes snappy)
      type ← lift (decode_frame_type received.0)
      return (record {
        type = type;
        arrived = frame_bytes received.0;
        frame_logical_bytes = length received.0;
        transfer = received.1;
      }))
  ]

  unfoldable pub handle_package : Incoming → Act (WorkerRuntime S) (Unit {0})
  handle_package incoming = do
    hook (on_phase (codes "loading_partition"))
    loaded ← lift (package_of incoming.arrived)
    hook (on_partition_loading loaded incoming.frame_logical_bytes)
    on_solver (solver.load_partition loaded)
    modify (λ r. record r { temporal_state = reset_partition r.temporal_state loaded.partition_id })
    hook (on_partition_loaded loaded.partition_id)
    hook (on_phase (codes "connected"))
    send_ready

  unfoldable pub handle_solve : Bytes → Act (WorkerRuntime S) (Unit {0})
  handle_solve frame = do
    request ← on_state (decode_delta_solve_round_request frame)
    hook (on_solve_start request.round_id (request.partition_id ∷ []))
    result ← on_solver (solver.solve_round request)
    hook (on_solve_done times.elapsed 1 false)
    answer ← on_state (encode_delta_solve_round_result_with_timing result times.elapsed)
    transfer ← sent answer
    hook (on_frame_sent solve_round_result transfer)

  unfoldable pub handle_batch : Bytes → Act (WorkerRuntime S) (Unit {0})
  handle_batch frame = do
    requests ← on_state (decode_delta_solve_round_batch_request frame)
    hook (on_solve_start (last_round requests (pos 0)) (map (λ r. r.partition_id) requests))
    results ← on_solver (solver.solve_round_batch requests)
    hook (on_solve_done times.elapsed (length results) true)
    answer ← on_state (encode_delta_solve_round_batch_result_with_timing results times.elapsed)
    transfer ← sent answer
    hook (on_frame_sent solve_round_batch_result transfer)

  unfoldable pub handle_scale : Bytes → Act (WorkerRuntime S) (Unit {0})
  handle_scale frame = do
    message ← lift (decode_scale_objective frame)
    hook (on_scale_objective message.factor message.saturate_capacity_overflow)
    on_solver (solver.scale_objective message.factor message.saturate_capacity_overflow)
    modify (λ r. record r { temporal_state = reset r.temporal_state })
    hook (on_phase (codes "connected"))
    send_ready

  unfoldable pub handle_stop : Bytes → Act (WorkerRuntime S) (Unit {0})
  handle_stop frame = do lift (decode_stop frame); hook (on_phase (codes "stopped"))

  unfoldable pub handle_unexpected : Act (WorkerRuntime S) (Unit {0})
  handle_unexpected = send_error_best_effort 1 (codes "worker received unexpected message type")

  -- The switch; whether the loop goes on.
  unfoldable pub dispatch : Incoming → Act (WorkerRuntime S) Bool
  dispatch incoming = elim incoming.type [
    | partition_package ↦ (do handle_package incoming; return true)
    | solve_round_request ↦ (do handle_solve (bytes_of incoming.arrived); return true)
    | solve_round_batch_request ↦ (do handle_batch (bytes_of incoming.arrived); return true)
    | scale_objective ↦ (do handle_scale (bytes_of incoming.arrived); return true)
    | stop ↦ (do handle_stop (bytes_of incoming.arrived); return false)
    | _ ↦ (do handle_unexpected; return true)
  ]

  unfoldable pub answer_error : Error → Act (WorkerRuntime S) Bool
  answer_error e = do
    hook (on_error (what e))
    send_error_best_effort 2 (what e)
    if is_fatal (what e) then fail e else return true

  -- The body of the try block, and one round of the loop.
  unfoldable pub one_round : Act (WorkerRuntime S) Bool
  one_round = do
    incoming ← receive_next
    hook (on_frame_received incoming.type incoming.transfer)
    dispatch incoming

  unfoldable pub serve_next : Act (WorkerRuntime S) Bool
  serve_next = catching one_round answer_error

module _ {S : Type 0} (lib : Snappy) (solver : PartitionWorker S) (worker_name : Bytes)
    (compression : TransportCompression) where
  -- The loop, for as many rounds as there are times: false when it has returned before.
  unfoldable pub serve : List Times → Act (WorkerRuntime S) Bool
  serve [] = return true
  serve (times ∷ later) = do
    goes_on ← serve_next lib solver worker_name compression times
    if goes_on then serve later else return false

-- The checks and the greeting before the loop.
unfoldable pub may_start : Snappy → HelloMessage → TransportCompression → Result (Unit {0})
may_start lib message compression = and_then (validate_hello message) (λ valid. elim compression [
  | no_compression ↦ ok tt
  | snappy ↦
      if not lib.available
      then err snappy_unavailable
      else if not (compression_feature_enabled message feature_snappy_compression)
      then err hello_without_snappy
      else ok tt
])

unfoldable pub introduce : Snappy → ℕ → HelloMessage → Act Socket FrameTransferStats
introduce lib us message = do
  frame ← lift (encode_hello message)
  send_frame_bytes lib us frame no_compression default_max_frame_bytes

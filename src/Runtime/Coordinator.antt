-- ===== src/Runtime/Coordinator.antt =====
-- class TcpPartitionWorker: the calls of one worker. What is printed to std::cerr is left out; the durations
-- that are measured are a parameter of each call.
use mcpd.Base.{ℕ, suc, ◌+◌, ◌++◌, Bool, not, List, [], ◌∷◌, length, if◌then◌else◌}
use mcpd.Base.Int.{ℤ}
use mcpd.Wire.{Bytes, Result, ok, err, Error, what, other_error}
use mcpd.Wire.{expected_ready, expected_result, expected_batch_result, expected_hello}
use mcpd.Wire.{snappy_unavailable, worker_without_snappy}
use mcpd.Wire.Act.{Act, ◌>>=◌, ◌>>◌, return, fail, lift, get, modify, on, catching}
use mcpd.Protocol.{MessageType, hello, partition_package, ready, solve_round_request}
use mcpd.Protocol.{solve_round_result, scale_objective, stop, error, solve_round_batch_request}
use mcpd.Protocol.{solve_round_batch_result, ReadyMessage, PartitionPackage}
use mcpd.Protocol.{PartitionSolveRequest, PartitionSolveResult, expected}
use mcpd.Protocol.{decode_frame_type, decode_ready, decode_hello}
use mcpd.Protocol.{
  encode_scale_objective, encode_stop, frame_buffers, buffers, worker_load, FrameBuffers,
}
use mcpd.Delta.{TemporalSolveCodecState, reset, reset_partition, encode_delta_solve_round_request}
use mcpd.Delta.{decode_delta_timed_solve_round_result, encode_delta_solve_round_batch_request}
use mcpd.Delta.{decode_delta_timed_solve_round_batch_result}
use mcpd.Tcp.{Socket, Snappy, TransportCompression, no_compression, snappy}
use mcpd.Tcp.{send_frame_bytes, send_frame_byte_buffers, receive_frame_bytes, close}
use mcpd.Tcp.{default_max_frame_bytes}
use mcpd.Runtime.Stats.{◌⊕◌, record_frame_sent, record_frame_received}
use mcpd.Runtime.Sessions.{
  feature_snappy_compression, validate_hello, compression_feature_enabled, remote_error_of, Times,
  TcpPartitionWorker, with_socket, with_state, counting, timing, tcp_partition_worker,
  total_size_of, load_failure,
}

module _ (lib : Snappy) (iov_max : ℕ) (times : Times) where
  -- sendFrameBytes on the worker's socket, then recordFrameSent.
  unfoldable pub send_recorded : MessageType → Bytes → Act TcpPartitionWorker (Unit {0})
  send_recorded type frame = do
    worker ← get
    transfer ←
        on (λ w. w.socket) with_socket
          (send_frame_bytes lib times.compression frame worker.compression default_max_frame_bytes)
    modify (counting (record_frame_sent type transfer))

  unfoldable pub receive_typed_frame : Act TcpPartitionWorker (MessageType × Bytes)
  receive_typed_frame = do
    worker ← get
    received ←
        on (λ w. w.socket) with_socket
          (receive_frame_bytes lib times.decompression default_max_frame_bytes worker.compression)
    type ← lift (decode_frame_type received.0)
    modify (counting (record_frame_received type received.1))
    return (type, received.0)

  -- What the callers do with a received frame: an ERROR throws its message, another type than the wanted one throws.
  unfoldable pub expecting :
      MessageType → Error → MessageType × Bytes → Act TcpPartitionWorker Bytes
  expecting wanted failure (type, frame) =
      if expected type error
      then fail (remote_error_of frame)
      else if not (expected type wanted)
      then fail failure
      else return frame

  unfoldable pub receive_ready_or_throw : Act TcpPartitionWorker ReadyMessage
  receive_ready_or_throw = do
    received ← receive_typed_frame
    frame ← expecting ready expected_ready received
    lift (decode_ready frame)

  unfoldable pub load_buffers : PartitionPackage → FrameBuffers → Act TcpPartitionWorker (Unit {0})
  load_buffers loaded b = do
    worker ← get
    transfer ←
        on (λ w. w.socket) with_socket
          (send_frame_byte_buffers lib times.compression iov_max (buffers b) worker.compression
            default_max_frame_bytes)
    modify (counting (record_frame_sent partition_package transfer))
    receive_ready_or_throw
    modify (λ w. with_state w (reset_partition w.temporal_state loaded.partition_id))
    modify (
        timing (λ t. record t {
          load_partition_rpc_wall_us = t.load_partition_rpc_wall_us ⊕ times.elapsed;
          load_partition_rpc_count = suc t.load_partition_rpc_count;
        }))
    modify (λ w. record w { partition_ids = w.partition_ids ++ (loaded.partition_id ∷ []) })

  -- On the hosts that the model is about the frame always goes as buffers.
  unfoldable pub load_partition : PartitionPackage → Act TcpPartitionWorker (Unit {0})
  load_partition loaded = do
    worker ← get
    let built = frame_buffers loaded worker_load
    catching (do b ← lift built; load_buffers loaded b)
        (λ e. fail (
          other_error
            (load_failure worker.hello.worker_name loaded (total_size_of built) (what e))))

  unfoldable pub encoding :
      {A : Type 0}
      → (TemporalSolveCodecState → Result A × TemporalSolveCodecState)
      → Act TcpPartitionWorker A
  encoding = on (λ w. w.temporal_state) with_state

  unfoldable pub request_round : PartitionSolveRequest → Act TcpPartitionWorker (Unit {0})
  request_round request = do
    frame ← encoding (encode_delta_solve_round_request request)
    send_recorded solve_round_request frame

  unfoldable pub await_round : Act TcpPartitionWorker PartitionSolveResult
  await_round = do
    received ← receive_typed_frame
    frame ← expecting solve_round_result expected_result received
    timed ← encoding (decode_delta_timed_solve_round_result frame)
    modify (
        timing (λ t. record t {
          solve_round_rpc_wall_us = t.solve_round_rpc_wall_us ⊕ times.elapsed;
          solve_round_worker_wall_us = t.solve_round_worker_wall_us ⊕ timed.worker_solve_wall_us;
          partition_solve_call_count = suc t.partition_solve_call_count;
        }))
    return timed.result

  unfoldable pub solve_round : PartitionSolveRequest → Act TcpPartitionWorker PartitionSolveResult
  solve_round request = do request_round request; await_round

  unfoldable pub request_batch : List PartitionSolveRequest → Act TcpPartitionWorker (Unit {0})
  request_batch requests = do
    frame ← encoding (encode_delta_solve_round_batch_request requests)
    send_recorded solve_round_batch_request frame

  unfoldable pub await_batch : Act TcpPartitionWorker (List PartitionSolveResult)
  await_batch = do
    received ← receive_typed_frame
    frame ← expecting solve_round_batch_result expected_batch_result received
    timed ← encoding (decode_delta_timed_solve_round_batch_result frame)
    modify (
        timing (λ t. record t {
          solve_round_rpc_wall_us = t.solve_round_rpc_wall_us ⊕ times.elapsed;
          solve_round_worker_wall_us = t.solve_round_worker_wall_us ⊕ timed.worker_solve_wall_us;
          partition_solve_call_count = t.partition_solve_call_count + length timed.results;
          solve_batch_rpc_count = suc t.solve_batch_rpc_count;
        }))
    return timed.results

  unfoldable pub solve_round_batch :
      List PartitionSolveRequest → Act TcpPartitionWorker (List PartitionSolveResult)
  solve_round_batch [] = return []
  solve_round_batch (request ∷ requests) = do request_batch (request ∷ requests); await_batch

  unfoldable pub scale_remote : ℤ → Bool → Act TcpPartitionWorker (Unit {0})
  scale_remote factor saturate_capacity_overflow = do
    frame ← lift (
        encode_scale_objective
          (record { factor = factor; saturate_capacity_overflow = saturate_capacity_overflow }))
    send_recorded scale_objective frame
    receive_ready_or_throw
    modify (λ w. with_state w (reset w.temporal_state))
    modify (
        timing (λ t. record t {
          scale_objective_rpc_wall_us = t.scale_objective_rpc_wall_us ⊕ times.elapsed;
          scale_objective_rpc_count = suc t.scale_objective_rpc_count;
        }))

  -- Whatever goes wrong on the way, the socket is closed and nothing is thrown.
  unfoldable pub stop_remote : ℕ → Bytes → Act TcpPartitionWorker (Unit {0})
  stop_remote reason message = do
    worker ← get
    if not worker.socket.valid then return tt else do
      catching
          (do
            frame ← lift (encode_stop (record { reason = reason; message = message }))
            send_recorded stop frame)
          (λ e. return tt)
      modify (λ w. with_socket w (close w.socket))

  -- acceptTcpPartitionWorker, from the accepted socket on.
  unfoldable pub greet : TransportCompression → Act Socket TcpPartitionWorker
  greet compression = do
    received ← receive_frame_bytes lib times.decompression default_max_frame_bytes no_compression
    type ← lift (decode_frame_type received.0)
    if not (expected type hello) then fail expected_hello else do
      message ← lift (decode_hello received.0)
      lift (validate_hello message)
      lift (elim compression [
        | no_compression ↦ ok tt
        | snappy ↦
            if not lib.available
            then err snappy_unavailable
            else if not (compression_feature_enabled message feature_snappy_compression)
            then err worker_without_snappy
            else ok tt
      ])
      socket ← get
      lift (tcp_partition_worker socket message received.1.logical_bytes compression)

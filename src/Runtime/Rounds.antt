-- ===== src/Runtime/Rounds.antt =====
-- The coordinator's half of a round: the request goes out, and the result comes in.
use mcpd.Base.{List, ℕ, suc, ◌≤◌, ◌≡◌, refl, ◌∙◌, true, ◌++◌, length, arith}
use mcpd.Wire.{Bytes, ok}
use mcpd.Wire.Act.{>>=-ok, lift-ok, modify-then, get-then, on-then, return, modify}
use mcpd.Protocol.{
  decode_frame_type, PartitionSolveRequest, TimedSolveRoundResult, solve_round_request,
  solve_round_result,
}
use mcpd.Delta.{
  TemporalSolveCodecState, encode_delta_solve_round_request, decode_delta_timed_solve_round_result,
}
use mcpd.Tcp.{
  Snappy, default_max_frame_bytes, stream, Event, with_incoming, with_outgoing, send_frame_bytes,
  receive_frame_bytes,
}
use mcpd.Tcp.Frames.{IsFrame}
use mcpd.Tcp.Transfers.{Arrives, CanSend}
use mcpd.Tcp.Channels.{Serves, on_wire, sender_stats, receiver_stats, Sends-channel, Takes-channel}
use mcpd.Runtime.Stats.{◌⊕◌, record_frame_sent, record_frame_received}
use mcpd.Runtime.Sessions.{Times, TcpPartitionWorker, TcpPartitionWorkerTimingStats}
use mcpd.Runtime.Coordinator.{
  request_round, await_round, send_recorded, receive_typed_frame, expecting, encoding,
}

module _ (lib : Snappy) (iov_max : ℕ) (times : Times) where
  -- The counters after a request of so many bytes, and after its result.
  abbrev pub asked : TcpPartitionWorker → Bytes → TcpPartitionWorkerTimingStats
  asked c frame = record c.timing_stats {
    rpc_bytes =
        record_frame_sent solve_round_request
          (sender_stats lib c.compression times.compression frame) c.timing_stats.rpc_bytes;
  }

  abbrev pub answered : TcpPartitionWorker → Bytes → ℕ → TcpPartitionWorkerTimingStats
  answered c frame us = record c.timing_stats {
    solve_round_rpc_wall_us = c.timing_stats.solve_round_rpc_wall_us ⊕ times.elapsed;
    solve_round_worker_wall_us = c.timing_stats.solve_round_worker_wall_us ⊕ us;
    partition_solve_call_count = suc c.timing_stats.partition_solve_call_count;
    rpc_bytes =
        record_frame_received solve_round_result
          (receiver_stats lib c.compression times.decompression frame) c.timing_stats.rpc_bytes;
  }

  pub request_round-ok :
      (request : PartitionSolveRequest) (frame : Bytes) (c : TcpPartitionWorker)
      (s1 : TemporalSolveCodecState)
      → Serves c.compression lib
      → encode_delta_solve_round_request request c.temporal_state ≡ (ok frame, s1)
      → c.socket.valid ≡ true
      → length frame ≤ default_max_frame_bytes
      → CanSend (length (on_wire lib c.compression frame)) c.socket
      → (left : List Event) × (request_round lib iov_max times request c ≡ (
        ok tt,
        record c {
          socket =
              with_outgoing c.socket
                (stream left (c.socket.outgoing.bytes ++ on_wire lib c.compression frame));
          temporal_state = s1;
          timing_stats = asked c frame;
        },
      ))
  unfolding request_round send_recorded encoding
  request_round-ok request frame c s1 l e v n k =
      let x =
        Sends-channel lib c.compression times.compression default_max_frame_bytes frame c.socket l v
          n k in
      (
        x.left,
        on-then _ _ (encode_delta_solve_round_request request) _ c frame s1 e
            ∙ get-then _ _
            ∙ on-then _ _
                (send_frame_bytes lib times.compression frame c.compression default_max_frame_bytes)
                _ _ _ _ x.does
            ∙ (unfold modify in refl),
      )

  pub await_round-ok :
      (frame payload later : Bytes) (timed : TimedSolveRoundResult) (c : TcpPartitionWorker)
      (s1 : TemporalSolveCodecState)
      → Serves c.compression lib
      → IsFrame frame solve_round_result payload
      → length frame ≤ default_max_frame_bytes
      → Arrives (on_wire lib c.compression frame) later c.socket
      → decode_delta_timed_solve_round_result frame c.temporal_state ≡ (ok timed, s1)
      → (left : List Event) × (await_round lib iov_max times c ≡ (
        ok timed.result,
        record c {
          socket = with_incoming c.socket (stream left later);
          temporal_state = s1;
          timing_stats = answered c frame timed.worker_solve_wall_us;
        },
      ))
  unfolding await_round expecting encoding
  await_round-ok frame payload later timed c s1 l x n a d =
      let t =
        Takes-channel lib c.compression times.decompression default_max_frame_bytes frame payload
          later solve_round_result c.socket l x n (omega arith) a in
      let c1 : TcpPartitionWorker = record c {
        socket = with_incoming c.socket (stream t.left later);
        timing_stats = record c.timing_stats {
          rpc_bytes =
              record_frame_received solve_round_result
                (receiver_stats lib c.compression times.decompression frame)
                c.timing_stats.rpc_bytes;
        };
      } in
      (
        t.left,
        >>=-ok (receive_typed_frame lib iov_max times) _ c c1 (solve_round_result, frame)
              (unfold receive_typed_frame in
                get-then _ _
                ∙ on-then _ _
                    (receive_frame_bytes lib times.decompression default_max_frame_bytes
                      c.compression)
                    _ c _ _ t.does
                ∙ lift-ok (decode_frame_type frame) _ _ solve_round_result x.typed
                ∙ modify-then _ _ _
                ∙ (unfold return in refl))
            ∙ >>=-ok (return frame) _ c1 c1 frame (unfold return in refl)
            ∙ on-then _ _ (decode_delta_timed_solve_round_result frame) _ c1 timed s1 d
            ∙ modify-then _ _ _
            ∙ (unfold return in refl),
      )

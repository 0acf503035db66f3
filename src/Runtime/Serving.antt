-- ===== src/Runtime/Serving.antt =====
-- A worker that receives a request of one round solves it and sends the result.
use mcpd.Base.{◌≤◌, ◌≡◌, refl, ◌∙◌, true, false, List, [], ◌∷◌, ◌++◌, length}
use mcpd.Wire.{Bytes, ok}
use mcpd.Wire.Act.{
  Act, ◌>>=◌, ◌>>◌, return, fail, lift, >>=-ok, on-ok, lift-ok, modify-then, on-then, return-then,
  resume, catching-ok,
}
use mcpd.Protocol.{
  PartitionSolveRequest, PartitionSolveResult, solve_round_request, solve_round_result,
}
use mcpd.Delta.{
  TemporalSolveCodecState, decode_delta_solve_round_request,
  encode_delta_solve_round_result_with_timing,
}
use mcpd.Tcp.{
  Snappy, TransportCompression, default_max_frame_bytes, stream, Event, with_incoming,
  with_outgoing, send_frame_bytes,
}
use mcpd.Tcp.Frames.{IsFrame}
use mcpd.Tcp.Transfers.{Arrives, CanSend}
use mcpd.Tcp.Channels.{Serves, on_wire, sender_stats, receiver_stats, Sends-channel}
use mcpd.Runtime.Sessions.{Times}
use mcpd.Runtime.Worker.{
  PartitionWorker, WorkerRuntime, Hook, on_frame_received, on_solve_start, on_solve_done,
  on_frame_sent,
}
use mcpd.Runtime.Loop.{serve_next, one_round, dispatch, handle_solve, receive_next}
use mcpd.Runtime.Arrival.{receive_next-frame}

-- A worker after one exchange: what is left of its events, and its own state.
abbrev pub after_exchange :
    {S : Type 0}
    → WorkerRuntime S
    → List Event
    → Bytes
    → List Event
    → Bytes
    → S
    → TemporalSolveCodecState
    → List Hook
    → WorkerRuntime S
after_exchange w left later left' sent z t hooks = record {
  socket = record w.socket { incoming = stream left later; outgoing = stream left' sent };
  solver = z;
  temporal_state = t;
  hooks = hooks;
}

module _ {S : Type 0} (lib : Snappy) (solver : PartitionWorker S) (worker_name : Bytes)
    (compression : TransportCompression) (times : Times) where
  abbrev pub round_hooks : Bytes → Bytes → PartitionSolveRequest → List Hook → List Hook
  round_hooks frame answer request hooks =
      (((hooks
            ++ (on_frame_received solve_round_request
                  (receiver_stats lib compression times.decompression frame)
                ∷ []))
          ++ (on_solve_start request.round_id (request.partition_id ∷ []) ∷ []))
        ++ (on_solve_done times.elapsed 1 false ∷ []))
      ++ (on_frame_sent solve_round_result (sender_stats lib compression times.compression answer)
          ∷ [])

  pub handle_solve-ok :
      (frame answer : Bytes) (request : PartitionSolveRequest) (result : PartitionSolveResult)
      (w : WorkerRuntime S) (s1 s2 : TemporalSolveCodecState) (z : S)
      → Serves compression lib
      → decode_delta_solve_round_request frame w.temporal_state ≡ (ok request, s1)
      → solver.solve_round request w.solver ≡ (ok result, z)
      → encode_delta_solve_round_result_with_timing result times.elapsed s1 ≡ (ok answer, s2)
      → w.socket.valid ≡ true
      → length answer ≤ default_max_frame_bytes
      → CanSend (length (on_wire lib compression answer)) w.socket
      → (left : List Event) × (handle_solve lib solver worker_name compression times frame w ≡ (
        ok tt,
        record {
          socket =
              with_outgoing w.socket
                (stream left (w.socket.outgoing.bytes ++ on_wire lib compression answer));
          solver = z;
          temporal_state = s2;
          hooks =
              ((w.hooks ++ (on_solve_start request.round_id (request.partition_id ∷ []) ∷ []))
                ++ (on_solve_done times.elapsed 1 false ∷ []))
              ++ (on_frame_sent solve_round_result
                    (sender_stats lib compression times.compression answer)
                  ∷ []);
        },
      ))
  unfolding handle_solve
  handle_solve-ok frame answer request result w s1 s2 z l d e c v n k =
      let x =
        Sends-channel lib compression times.compression default_max_frame_bytes answer w.socket l v
          n k in
      (
        x.left,
        on-then _ _ (decode_delta_solve_round_request frame) _ w request s1 d
            ∙ modify-then _ _ _
            ∙ on-then _ _ (solver.solve_round request) _ _ result z e
            ∙ modify-then _ _ _
            ∙ on-then _ _ (encode_delta_solve_round_result_with_timing result times.elapsed) _ _
                answer s2 c
            ∙ on-then _ _
                (send_frame_bytes lib times.compression answer compression default_max_frame_bytes)
                _ _ _ _ x.does
            ∙ (unfold mcpd.Wire.Act.modify in refl),
      )

  -- One round of the loop, from the frame of a request to the frame of its result.
  pub serve_next-solve :
      (frame payload answer later : Bytes) (request : PartitionSolveRequest)
      (result : PartitionSolveResult) (w : WorkerRuntime S) (s1 s2 : TemporalSolveCodecState)
      (z : S)
      → Serves compression lib
      → IsFrame frame solve_round_request payload
      → length frame ≤ default_max_frame_bytes
      → Arrives (on_wire lib compression frame) later w.socket
      → decode_delta_solve_round_request frame w.temporal_state ≡ (ok request, s1)
      → solver.solve_round request w.solver ≡ (ok result, z)
      → encode_delta_solve_round_result_with_timing result times.elapsed s1 ≡ (ok answer, s2)
      → w.socket.valid ≡ true
      → length answer ≤ default_max_frame_bytes
      → CanSend (length (on_wire lib compression answer)) w.socket
      → (left : List Event) × (left' : List Event) × (serve_next lib solver worker_name compression
            times w
          ≡ (
            ok true,
            after_exchange w left later left'
                (w.socket.outgoing.bytes ++ on_wire lib compression answer)
                z
                s2
                (round_hooks frame answer request w.hooks),
          ))
  unfolding serve_next one_round dispatch
  serve_next-solve frame payload answer later request result w s1 s2 z l x n a d e c v n' k =
      let (left, r) =
        receive_next-frame lib solver worker_name times compression frame payload later
          solve_round_request w l refl x n a in
      let w1 : WorkerRuntime S = record w {
        socket = with_incoming w.socket (stream left later);
        hooks =
            w.hooks
            ++ (on_frame_received solve_round_request
                  (receiver_stats lib compression times.decompression frame)
                ∷ []);
      } in
      let (left', h) = handle_solve-ok frame answer request result w1 s1 s2 z l d e c v n' k in
      (
        left,
        left',
        catching-ok _ _ w _ true (
            >>=-ok (receive_next lib solver worker_name compression times) _ w _ _ r
            ∙ modify-then _ _ _
            ∙ >>=-ok (handle_solve lib solver worker_name compression times frame) _ w1 _ tt h
            ∙ (unfold return in refl)),
      )

-- ===== src/Runtime/Remote.antt =====
-- A round over the connection is a round of the worker's solver.
use mcpd.Base.{ℕ, ◌+◌, ◌^◌, ◌<◌, ◌≤◌, ◌≡◌, refl, ap, ◌∙◌, arith, true, [], ◌++◌, length, append-nil}
use mcpd.Wire.{Bytes, Result, ok, err}
use mcpd.Wire.Act.{modify-then, on-then, on-ok}
use mcpd.Protocol.{
  MessageType, encode_frame, PartitionSolveRequest, PartitionSolveResult, solve_round_request,
  solve_round_result,
}
use mcpd.Delta.{
  TemporalSolveCodecState, T, encode_delta, write_request, write_result,
  encode_delta_solve_round_request, decode_delta_solve_round_request,
  encode_delta_solve_round_result_with_timing, decode_delta_timed_solve_round_result,
}
use mcpd.Delta.Mirror.Batches.{IsResult}
use mcpd.Delta.Mirror.Requests.{IsSendable, delta_request_size}
use mcpd.Delta.Mirror.Requests.{
  received_request, after_request, decode_delta_request-encode_delta_request,
}
use mcpd.Delta.Mirror.Results.{
  received_result, after_result, delta_result_size, decode_delta_result-encode_delta_result,
}
use mcpd.Tcp.{
  Snappy, TransportCompression, no_compression, snappy, default_max_frame_bytes,
  envelope_header_bytes, stream,
}
use mcpd.Tcp.Frames.{IsFrame, encode_frame-IsFrame, length-encode_frame}
use mcpd.Tcp.Channels.{Serves, on_wire}
use mcpd.Tcp.Envelopes.{wire-le}
use mcpd.Runtime.Sessions.{Times, TcpPartitionWorker}
use mcpd.Runtime.Worker.{PartitionWorker, WorkerRuntime}
use mcpd.Runtime.Coordinator.{request_round, await_round}
use mcpd.Runtime.Loop.{serve_next}
use mcpd.Runtime.Systems.{
  System, IsInSync, GetsThrough, remote_round, carry_to_worker, carry_to_coordinator,
}
use mcpd.Runtime.Rounds.{request_round-ok, await_round-ok, asked, answered}
use mcpd.Runtime.Serving.{serve_next-solve, round_hooks}

-- What encode_delta gives is a frame.
framed_payload :
    (type : MessageType) (frame : Bytes) (s' : TemporalSolveCodecState)
    (r : Result (Unit {0} × Bytes)) (s : TemporalSolveCodecState)
    → mcpd.Delta.framed type (r, s) ≡ (ok frame, s')
    → (payload : Bytes) × (encode_frame type payload ≡ ok frame)
framed_payload type frame s' (ok (u, payload)) s h = (payload, ap (λ t. t.0) h)
framed_payload type frame s' (err e) s h = absurd (cc (ap (λ t. t.0) h))

pub encode_delta-IsFrame :
    (type : MessageType) (body : T (Unit {0})) (frame : Bytes) (s s' : TemporalSolveCodecState)
    → encode_delta type body s ≡ (ok frame, s')
    → length frame < 2 ^ 64
    → (payload : Bytes) × IsFrame frame type payload
unfolding encode_delta
encode_delta-IsFrame type body frame s s' e h =
    let (payload, f) = framed_payload type frame s' (body s []).0 (body s []).1 e in
    (
      payload,
      encode_frame-IsFrame type payload frame
          (omega (arith, h, length-encode_frame type payload frame f)) f,
    )

-- The envelope of the compressed transport adds at most 24 bytes.
pub on_wire-le :
    (lib : Snappy) (compression : TransportCompression) (frame : Bytes)
    → length (on_wire lib compression frame) ≤ envelope_header_bytes + length frame
on_wire-le lib no_compression frame = omega arith
on_wire-le lib snappy frame = wire-le lib 0 frame

only : (a b wire : Bytes) → a ≡ [] → b ≡ [] → a ++ (b ++ wire) ≡ wire ++ []
only a b wire h k = rw (h, k, append-nil)

module _ {S : Type 0} (lib : Snappy) (iov_max : ℕ) (solver : PartitionWorker S)
    (worker_name : Bytes) (times times' : Times) (s : System S) where
  abbrev mode : TransportCompression
  mode = s.coordinator.compression

  abbrev baselines : TemporalSolveCodecState
  baselines = s.coordinator.temporal_state

  -- The round with its frames at hand.
  round_of_frames :
      (request request' : PartitionSolveRequest) (result result' : PartitionSolveResult)
      (frame payload answer payload' : Bytes) (s1 s2 : TemporalSolveCodecState) (z : S)
      → Serves mode lib
      → IsInSync s
      → GetsThrough s (length (on_wire lib mode frame)) (length (on_wire lib mode answer))
      → encode_delta_solve_round_request request baselines ≡ (ok frame, s1)
      → decode_delta_solve_round_request frame baselines ≡ (ok request', s1)
      → IsFrame frame solve_round_request payload
      → length frame ≤ default_max_frame_bytes
      → solver.solve_round request' s.worker.solver ≡ (ok result, z)
      → encode_delta_solve_round_result_with_timing result times'.elapsed s1 ≡ (ok answer, s2)
      → decode_delta_timed_solve_round_result answer s1
        ≡ (ok (record { result = result'; worker_solve_wall_us = times'.elapsed }), s2)
      → IsFrame answer solve_round_result payload'
      → length answer ≤ default_max_frame_bytes
      → (s' : System S) × (remote_round lib iov_max solver worker_name mode times times' request s
          ≡ (ok result', s'))
        × IsInSync s'
        × (s'.worker.solver ≡ z)
        × (s'.coordinator.temporal_state ≡ s2)
  unfolding remote_round carry_to_worker carry_to_coordinator
  round_of_frames request request' result result' frame payload answer payload' s1 s2 z l y g e d x
        n v c b x' n' =
      let (left, first) =
        request_round-ok lib iov_max times request frame s.coordinator s1 l e y.valid n g.asks in
      let c1 : TcpPartitionWorker = record s.coordinator {
        socket = record s.coordinator.socket { outgoing = stream left [] };
        temporal_state = s1;
        timing_stats = asked lib iov_max times s.coordinator frame;
      } in
      let w1 : WorkerRuntime S = record s.worker {
        socket = record s.worker.socket {
          incoming = stream s.worker.socket.incoming.events (
              s.worker.socket.incoming.bytes
              ++ (s.coordinator.socket.outgoing.bytes ++ on_wire lib mode frame));
        };
      } in
      let (left1, left2, second) =
        serve_next-solve lib solver worker_name mode times' frame payload answer [] request' result
          w1 s1 s2 z l x n
          (record {
            bytes = only _ _ (on_wire lib mode frame) y.arriving' y.sent;
            enough = g.asked;
          })
          (ap (decode_delta_solve_round_request frame) y.agree ∙ d) v c y.valid' n' g.answers in
      let c2 : TcpPartitionWorker = record c1 {
        socket = record c1.socket {
          incoming = stream c1.socket.incoming.events (
              c1.socket.incoming.bytes
              ++ (s.worker.socket.outgoing.bytes ++ on_wire lib mode answer));
        };
      } in
      let (left3, third) =
        await_round-ok lib iov_max times answer payload' []
          (record { result = result'; worker_solve_wall_us = times'.elapsed }) c2 s2 l x' n'
          (record {
            bytes = only _ _ (on_wire lib mode answer) y.arriving y.sent';
            enough = g.answered;
          })
          b in
      (
        record {
          coordinator = record c2 {
            socket = record c2.socket { incoming = stream left3 [] };
            temporal_state = s2;
            timing_stats = answered lib iov_max times c2 answer times'.elapsed;
          };
          worker = record {
            socket = record s.worker.socket {
              incoming = stream left1 [];
              outgoing = stream left2 [];
            };
            solver = z;
            temporal_state = s2;
            hooks =
                round_hooks lib solver worker_name mode times' frame answer request' s.worker.hooks;
          };
        },
        on-then _ _ (request_round lib iov_max times request) _ s tt _ first
            ∙ modify-then _ _ _
            ∙ on-then _ _ (serve_next lib solver worker_name mode times') _ _ true _ second
            ∙ modify-then _ _ _
            ∙ on-ok _ _ (await_round lib iov_max times) _ (ok result') _ third,
        record {
          valid = y.valid;
          valid' = y.valid';
          sent = refl;
          sent' = refl;
          arriving = refl;
          arriving' = refl;
          agree = refl;
        },
        refl,
        refl,
      )

  -- Let the two ends be in sync and run in the same mode, in which the snappy library works; let the request
  -- fit its fields and no difference of its alphas to those that they replace leave the 64 bits; let the
  -- solver return a result for the request that reaches it, one that fits its fields with binary labels of
  -- distinct constraints in the order of the baseline if it travels as a delta; let both frames be within the
  -- limit and enough calls get through. Then solveRound returns the solver's result with all its labels, of
  -- which constraint_id and label are the solver's, while global_node_id and local_index do not travel and
  -- are -1; the solver is in the state after that call; and the ends are in sync again, with the baselines
  -- after the request and the result. The request that reaches the solver has the updates that change a
  -- baseline, with constraint_id and alpha as sent, and with last_alpha and alpha_momentum 0.
  pub remote_round-solve_round :
      (request : PartitionSolveRequest) (result : PartitionSolveResult) (z : S)
      → Serves mode lib
      → IsInSync s
      → IsSendable request baselines
      → solver.solve_round (received_request request baselines) s.worker.solver ≡ (ok result, z)
      → IsResult result (after_request request baselines)
      → times'.elapsed < 2 ^ 64
      → 12 + delta_request_size request baselines ≤ default_max_frame_bytes
      → 12 + (delta_result_size result (after_request request baselines) + 8)
        ≤ default_max_frame_bytes
      → GetsThrough s
          (36 + delta_request_size request baselines)
          (44 + delta_result_size result (after_request request baselines))
      → (s' : System S) × (remote_round lib iov_max solver worker_name mode times times' request s
          ≡ (ok (received_result result (after_request request baselines)), s'))
        × IsInSync s'
        × (s'.worker.solver ≡ z)
        × (s'.coordinator.temporal_state ≡ after_result result (after_request request baselines))
  unfolding encode_delta_solve_round_request encode_delta_solve_round_result_with_timing
  remote_round-solve_round request result z l y h v (k, o) t n n' g =
      let (frame, e, m, d) = decode_delta_request-encode_delta_request request baselines h in
      let (answer, c, m', b) =
        decode_delta_result-encode_delta_result result times'.elapsed
          (after_request request baselines) t k o in
      let (payload, x) =
        encode_delta-IsFrame solve_round_request (write_request request) frame _ _ e
          (omega (arith, m, n)) in
      let (payload', x') =
        encode_delta-IsFrame solve_round_result _ answer _ _ c (omega (arith, m', n')) in
      round_of_frames request _ result _ frame payload answer payload' _ _ z l y
        (record {
          asks = omega (arith, g.asks, m, on_wire-le lib mode frame);
          asked = omega (arith, g.asked, m, on_wire-le lib mode frame);
          answers = omega (arith, g.answers, m', on_wire-le lib mode answer);
          answered = omega (arith, g.answered, m', on_wire-le lib mode answer);
        })
        e d x (omega (arith, m, n)) v c b x' (omega (arith, m', n'))

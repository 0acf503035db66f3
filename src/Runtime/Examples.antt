-- ===== src/Runtime/Examples.antt =====
-- The theorems about the two ends at one round over a bare connection.
use mcpd.Base.{ℕ, zero, suc, ◌-◌, ◌^◌, ◌≡◌, refl, arith, true, false, List, [], ◌∷◌, none}
use mcpd.Base.Int.{pos, negsuc}
use mcpd.Base.Text.{codes}
use mcpd.Wire.{Bytes, Result, ok, err, Error, what, other_error}
use mcpd.Wire.Act.{Act}
use mcpd.Protocol.{
  hello, solve_round_request, HelloMessage, PartitionSolveRequest, PartitionSolveResult,
}
use mcpd.Delta.{TemporalSolveCodecState, blank_partition}
use mcpd.Delta.Mirror.Requests.{after_request}
use mcpd.Delta.Mirror.Results.{received_result, after_result}
use mcpd.Tcp.{Snappy, Socket, Stream, Event, stream, moves, no_compression, bare_stats}
use mcpd.Runtime.{
  Times, TcpPartitionWorker, blank_timing, blank_rpc_bytes, PartitionWorker, WorkerRuntime, System,
  IsInSync, remote_round, is_fatal, one_round, serve_next,
}
use mcpd.Runtime.Tallies.{IsTallied, Transfer, sent, received, record_all, record_all-IsTallied}
use mcpd.Runtime.Failures.{Ends, serve_next-throws}
use mcpd.Runtime.Remote.{remote_round-solve_round}

abbrev transfers : List Transfer
transfers = sent hello (bare_stats 40) ∷ received solve_round_request (bare_stats (2 ^ 64 - 1)) ∷ []

abbrev tallied : IsTallied blank_rpc_bytes
tallied = record { tx = omega arith; rx = omega arith }

record_all-IsTallied_example : IsTallied (record_all transfers blank_rpc_bytes)
record_all-IsTallied_example =
    record_all-IsTallied transfers blank_rpc_bytes (refl, (refl, tt)) tallied

abbrev many : ℕ → List Event
many zero = []
many (suc n) = moves 100 ∷ many n

-- A solver that counts its calls and answers each request with one label.
abbrev result_of : PartitionSolveRequest → PartitionSolveResult
result_of request = record {
  round_id = request.round_id;
  partition_id = request.partition_id;
  lower_bound = negsuc 3;
  regularization_budget = pos 0;
  regularization_contribution = pos 0;
  regularization_anchor_sink_count = pos 0;
  regularization_active_sink_count = pos 0;
  constrained_labels =
      record { constraint_id = pos 8; global_node_id = pos 5; local_index = pos 2; label = pos 1 }
      ∷ [];
}

abbrev counter : PartitionWorker ℕ
counter = record {
  load_partition = λ p n. (ok tt, suc n);
  solve_round = λ request n. (ok (result_of request), suc n);
  solve_round_batch = λ requests n. (ok [], suc n);
  scale_objective = λ factor saturate n. (ok tt, suc n);
}

abbrev no_snappy : Snappy
no_snappy = record {
  available = false;
  compress = λ text. text;
  uncompressed_length = λ text. none;
  uncompress = λ text. none;
}

abbrev times : Times
times = record { compression = 0; decompression = 0; elapsed = 9 }

abbrev blank_state : TemporalSolveCodecState
blank_state = record { partitions = λ id. blank_partition }

abbrev greeting : HelloMessage
greeting = record {
  protocol_version = 8;
  worker_name = codes "w";
  cpu_count = 4;
  ram_gb = 8;
  feature_bits = 0;
  temp_path = codes "/tmp";
  debug_build = false;
  little_endian = true;
}

abbrev open_socket : Socket
open_socket = record {
  valid = true;
  incoming = stream (many 200) [];
  outgoing = stream (many 200) [];
}

abbrev idle : System ℕ
idle = record {
  coordinator = record {
    socket = open_socket;
    hello = greeting;
    compression = no_compression;
    timing_stats = blank_timing;
    partition_ids = pos 4 ∷ [];
    temporal_state = blank_state;
  };
  worker = record { socket = open_socket; solver = 6; temporal_state = blank_state; hooks = [] };
}

abbrev request : PartitionSolveRequest
request = record {
  round_id = pos 1;
  partition_id = pos 4;
  scale = pos 10;
  regularization_strength = pos 0;
  alpha_updates =
      record { constraint_id = pos 8; alpha = negsuc 4; last_alpha = pos 2; alpha_momentum = 7 }
      ∷ [];
}

remote_round-solve_round_example :
    (s' : System ℕ) × (remote_round no_snappy 16 counter
        (codes "w")
        no_compression
        times
        times
        request
        idle
      ≡ (ok (received_result (result_of request) (after_request request blank_state)), s'))
    × IsInSync s'
    × (s'.worker.solver ≡ 7)
    × (s'.coordinator.temporal_state
        ≡ after_result (result_of request) (after_request request blank_state))
unfolding mcpd.Delta.encode_alphas mcpd.Delta.needs_full_sync mcpd.Delta.wire_value
    mcpd.Delta.checked_integer_cast mcpd.Delta.zig_zag_encode mcpd.Base.Int.to_bits
remote_round-solve_round_example =
    remote_round-solve_round no_snappy 16 counter (codes "w") times times idle request
      (result_of request) 7 tt
      (record {
        valid = refl;
        valid' = refl;
        sent = refl;
        sent' = refl;
        arriving = refl;
        arriving' = refl;
        agree = refl;
      })
      (omega arith, omega arith) refl
      (
        record {
          round = omega arith;
          partition = omega arith;
          bound = omega arith;
          budget = omega arith;
          contribution = omega arith;
          anchors = omega arith;
          actives = omega arith;
          labels = ((omega arith, refl), tt);
          distinct = (tt, tt);
          count = omega arith;
        },
        λ e. absurd (cc e),
      )
      (omega arith) (omega arith) (omega arith)
      (record {
        asks = omega arith;
        asked = omega arith;
        answers = omega arith;
        answered = omega arith;
      })

-- Nothing arrives, and the connection is closed.
abbrev lonely : WorkerRuntime ℕ
lonely = record {
  socket = record { valid = true; incoming = stream [] []; outgoing = stream [] [] };
  solver = 6;
  temporal_state = blank_state;
  hooks = [];
}

closed_lem :
    one_round no_snappy counter (codes "w") no_compression times lonely
    ≡ (err mcpd.Wire.closed_during_read, lonely)
unfolding one_round mcpd.Wire.Act.◌>>=◌ mcpd.Runtime.receive_next mcpd.Wire.Act.on
    mcpd.Runtime.receive_uncompressed_frame_header mcpd.Tcp.read_all mcpd.Tcp.read_loop
closed_lem = refl

serve_next-throws_example :
    (w'' : WorkerRuntime ℕ) × Ends mcpd.Wire.closed_during_read
      (serve_next no_snappy counter (codes "w") no_compression times lonely)
      lonely
      w''
serve_next-throws_example =
    serve_next-throws no_snappy counter (codes "w") no_compression times
      mcpd.Wire.closed_during_read lonely lonely closed_lem

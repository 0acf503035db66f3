-- ===== src/Protocol/Examples.antt =====
-- The theorems about messages at concrete messages, and runs of the encoders.
use mcpd.Base.{◌≡◌, refl, true, false, [], ◌∷◌, length, arith}
use mcpd.Base.Int.{pos, negsuc}
use mcpd.Wire.{Bytes, ok, err, unexpected_message_type}
use mcpd.Protocol.{HelloMessage, ScaleObjectiveMessage, StopMessage, ErrorMessage}
use mcpd.Protocol.{AlphaUpdate, AlphaUpdateMessage, ConstraintLabel}
use mcpd.Protocol.{PartitionSolveRequest, PartitionSolveResult}
use mcpd.Protocol.{PartitionPackage, ready, stop, encode_frame, decode_frame, decode_message}
use mcpd.Protocol.{encode_hello, decode_hello, encode_ready, decode_ready, encode_scale_objective}
use mcpd.Protocol.{decode_scale_objective, encode_stop, decode_stop, encode_error, decode_error}
use mcpd.Protocol.{encode_solve_round_request, decode_solve_round_request, read_stop}
use mcpd.Protocol.{encode_solve_round_batch_request, decode_solve_round_batch_request}
use mcpd.Protocol.{encode_solve_round_result_with_timing, decode_timed_solve_round_result}
use mcpd.Protocol.{
  encode_solve_round_batch_result_with_timing, decode_timed_solve_round_batch_result,
}
use mcpd.Protocol.{encode_alpha_update, decode_alpha_update, worker_load, full, FrameBuffers}
use mcpd.Protocol.{frame_buffers, buffers, join_buffers, encode_partition_package}
use mcpd.Protocol.{decode_partition_package, partition_package_frame_size}
use mcpd.Protocol.RoundTrip.Frames.{Travels, decode_frame-encode_frame, decode_message_other_type}
use mcpd.Protocol.RoundTrip.Handshakes.{decode_hello-encode_hello, decode_ready-encode_ready}
use mcpd.Protocol.RoundTrip.Handshakes.{decode_scale_objective-encode_scale_objective}
use mcpd.Protocol.RoundTrip.Handshakes.{decode_stop-encode_stop, decode_error-encode_error}
use mcpd.Protocol.RoundTrip.Requests.{decode_request-encode_request, received_request}
use mcpd.Protocol.RoundTrip.Requests.{decode_batch_request-encode_batch_request, received_update}
use mcpd.Protocol.RoundTrip.Requests.{decode_alpha_update-encode_alpha_update}
use mcpd.Protocol.RoundTrip.Results.{decode_timed_result-encode_timed_result, received_result}
use mcpd.Protocol.RoundTrip.Results.{decode_batch_result-encode_batch_result}
use mcpd.Protocol.RoundTrip.Packages.{decode-buffers, encode-buffers, decode_package-encode_package}
use mcpd.Protocol.RoundTrip.Packages.Fields.{received_package}

abbrev name : Bytes
name = b'w' ∷ b'1' ∷ []

abbrev sample_hello : HelloMessage
sample_hello = record {
  protocol_version = 8;
  worker_name = name;
  cpu_count = 4;
  ram_gb = 16;
  feature_bits = 1;
  temp_path = b'/' ∷ [];
  debug_build = false;
  little_endian = true;
}

decode_hello-encode_hello_example : Travels (encode_hello sample_hello) decode_hello sample_hello 49
decode_hello-encode_hello_example = decode_hello-encode_hello sample_hello (omega arith)

decode_frame-encode_frame_example :
    Travels
      (encode_frame ready (7 ∷ []))
      decode_frame
      (record { type = ready; payload = 7 ∷ [] })
      13
decode_frame-encode_frame_example = decode_frame-encode_frame ready (7 ∷ []) (omega arith)

abbrev ready_frame : Bytes
ready_frame = 3 ∷ 0 ∷ 0 ∷ 0 ∷ 1 ∷ 0 ∷ 0 ∷ 0 ∷ 0 ∷ 0 ∷ 0 ∷ 0 ∷ 7 ∷ []

ready_frame_lem : encode_frame ready (7 ∷ []) ≡ ok ready_frame
unfolding encode_frame mcpd.Wire.run_writer mcpd.Wire.write_u32 mcpd.Wire.write_u64
    mcpd.Wire.write_shifts mcpd.Wire.write_u8 mcpd.Wire.◌>>=◌ mcpd.Wire.pure
ready_frame_lem = refl

decode_message_other_type_example :
    decode_message stop read_stop ready_frame ≡ err unexpected_message_type
decode_message_other_type_example =
    decode_message_other_type ready stop (7 ∷ []) ready_frame read_stop (omega arith) (λ e. cc e)
      ready_frame_lem

decode_ready-encode_ready_example :
    Travels
      (encode_ready (record { worker_name = name }))
      decode_ready
      (record { worker_name = name })
      18
decode_ready-encode_ready_example =
    decode_ready-encode_ready (record { worker_name = name }) (omega arith)

abbrev halve : ScaleObjectiveMessage
halve = record { factor = negsuc 1; saturate_capacity_overflow = true }

decode_scale_objective-encode_scale_objective_example :
    Travels (encode_scale_objective halve) decode_scale_objective halve 21
decode_scale_objective-encode_scale_objective_example =
    decode_scale_objective-encode_scale_objective halve (omega arith)

abbrev bye : StopMessage
bye = record { reason = 2; message = name }

decode_stop-encode_stop_example : Travels (encode_stop bye) decode_stop bye 22
decode_stop-encode_stop_example = decode_stop-encode_stop bye (omega arith) (omega arith)

abbrev failure : ErrorMessage
failure = record { code = 2; message = name }

decode_error-encode_error_example : Travels (encode_error failure) decode_error failure 22
decode_error-encode_error_example = decode_error-encode_error failure (omega arith) (omega arith)

abbrev blank_update : AlphaUpdate
blank_update = record {
  constraint_id = negsuc 0;
  alpha = pos 0;
  last_alpha = pos 0;
  alpha_momentum = 0;
}

abbrev blank_label : ConstraintLabel
blank_label = record {
  constraint_id = negsuc 0;
  global_node_id = negsuc 0;
  local_index = negsuc 0;
  label = pos 0;
}

abbrev sample_update : AlphaUpdate
sample_update = record {
  constraint_id = pos 11;
  alpha = negsuc 4;
  last_alpha = pos 3;
  alpha_momentum = 1;
}

abbrev sample_request : PartitionSolveRequest
sample_request = record {
  round_id = pos 1;
  partition_id = pos 4;
  scale = pos 1000;
  regularization_strength = pos 10;
  alpha_updates = sample_update ∷ [];
}

decode_request-encode_request_example :
    Travels
      (encode_solve_round_request sample_request)
      (decode_solve_round_request blank_update)
      (received_request blank_update sample_request)
      52
decode_request-encode_request_example =
    decode_request-encode_request blank_update sample_request (omega arith)

decode_batch_request-encode_batch_request_example :
    Travels
      (encode_solve_round_batch_request (sample_request ∷ []))
      (decode_solve_round_batch_request blank_update)
      (received_request blank_update sample_request ∷ [])
      56
decode_batch_request-encode_batch_request_example =
    decode_batch_request-encode_batch_request blank_update (sample_request ∷ []) (omega arith)
      (omega arith) (omega arith)

abbrev sample_result : PartitionSolveResult
sample_result = record {
  round_id = pos 1;
  partition_id = pos 4;
  lower_bound = negsuc 98;
  regularization_budget = pos 7;
  regularization_contribution = pos 5;
  regularization_anchor_sink_count = pos 2;
  regularization_active_sink_count = pos 1;
  constrained_labels =
      record { constraint_id = pos 20; global_node_id = pos 3; local_index = pos 1; label = pos 1 }
      ∷ [];
}

decode_timed_result-encode_timed_result_example :
    Travels
      (encode_solve_round_result_with_timing sample_result 77)
      (decode_timed_solve_round_result blank_label)
      (record { result = received_result blank_label sample_result; worker_solve_wall_us = 77 })
      84
decode_timed_result-encode_timed_result_example =
    decode_timed_result-encode_timed_result blank_label sample_result 77 (omega arith) (omega arith)

decode_batch_result-encode_batch_result_example :
    Travels
      (encode_solve_round_batch_result_with_timing (sample_result ∷ []) 77)
      (decode_timed_solve_round_batch_result blank_label)
      (record {
        results = received_result blank_label sample_result ∷ [];
        worker_solve_wall_us = 77;
      })
      88
decode_batch_result-encode_batch_result_example =
    decode_batch_result-encode_batch_result blank_label (sample_result ∷ []) 77 (omega arith)
      (omega arith) (omega arith) (omega arith)

abbrev sample_alpha_update : AlphaUpdateMessage
sample_alpha_update = record { partition_id = pos 4; alpha_updates = sample_update ∷ [] }

decode_alpha_update-encode_alpha_update_example :
    Travels
      (encode_alpha_update sample_alpha_update)
      (decode_alpha_update blank_update)
      (record sample_alpha_update {
        alpha_updates = received_update blank_update sample_update ∷ [];
      })
      32
decode_alpha_update-encode_alpha_update_example =
    decode_alpha_update-encode_alpha_update blank_update sample_alpha_update (omega arith)
      (omega arith) (omega arith)

-- Two directed arcs, of which one has its capacity backwards.
abbrev sample_package : PartitionPackage
sample_package = record {
  partition_id = pos 1;
  local_node_count = pos 3;
  arcs = pos 0 ∷ pos 1 ∷ pos 1 ∷ pos 2 ∷ [];
  arc_capacities = pos 5 ∷ pos 0 ∷ pos 0 ∷ pos 9 ∷ [];
  terminal_capacities = pos 2 ∷ negsuc 2 ∷ pos 0 ∷ [];
  local_to_global = pos 10 ∷ pos 11 ∷ pos 12 ∷ [];
  constraint_endpoints =
      record {
        constraint_id = pos 6;
        global_node_id = pos 12;
        local_index = pos 2;
        is_source = true;
        alpha = pos 30;
        last_alpha = negsuc 0;
        alpha_momentum = 1;
      }
      ∷ [];
}

decode-buffers_example :
    (b : FrameBuffers) × (frame_buffers sample_package worker_load ≡ ok b)
    × (length (join_buffers (buffers b)) ≡ b.total_size)
    × (decode_partition_package (join_buffers (buffers b))
        ≡ ok (received_package worker_load sample_package))
decode-buffers_example = decode-buffers sample_package worker_load (omega arith)

encode-buffers_example :
    (b : FrameBuffers) × (frame_buffers sample_package full ≡ ok b)
    × (encode_partition_package sample_package ≡ ok (join_buffers (buffers b)))
encode-buffers_example = encode-buffers sample_package (omega arith)

decode_package-encode_package_example :
    Travels
      (encode_partition_package sample_package)
      decode_partition_package
      sample_package
      (partition_package_frame_size sample_package full)
decode_package-encode_package_example = decode_package-encode_package sample_package (omega arith)

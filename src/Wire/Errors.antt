-- ===== src/Wire/Errors.antt =====
-- The texts of the exceptions, as e.what() gives them.
use mcpd.Base.{◌++◌}
use mcpd.Base.Text.{codes}
use mcpd.Wire.Defs.{Bytes, Error}
use mcpd.Wire.Defs.{
  truncated_payload, invalid_boolean, trailing_bytes, integer_out_of_range, container_too_large,
  view_out_of_bounds, frame_header_truncated, unknown_message_type, payload_too_large,
  payload_size_mismatch, unexpected_message_type, truncated_endpoints, arc_capacity_count,
  arc_capacity_out_of_range, varint_too_large, varint_too_long, alpha_delta_overflow,
  alpha_sum_overflow, label_not_binary, duplicate_label, delta_before_full_sync, missing_label,
  buffers_too_large, invalid_socket, frame_too_large, closed_during_write, closed_during_read,
  snappy_unavailable, received_without_snappy, bad_magic, transport_too_large, stored_size_mismatch,
  snappy_length_failed, snappy_size_mismatch, snappy_failed, unknown_codec, unsupported_version,
  big_endian_worker, hello_without_snappy, worker_without_snappy, expected_hello, expected_ready,
  expected_result, expected_batch_result, write_failed, read_failed, remote_error, other_error,
}

unfoldable pub what : Error → Bytes
what truncated_payload = codes "truncated payload"
what invalid_boolean = codes "invalid boolean value"
what trailing_bytes = codes "payload has trailing bytes"
what integer_out_of_range = codes "integer value is outside target range"
what container_too_large = codes "container is too large to serialize"
what view_out_of_bounds = codes "payload view is outside frame bounds"
what frame_header_truncated = codes "frame header is truncated"
what unknown_message_type = codes "unknown message type"
what payload_too_large = codes "payload size is too large"
what payload_size_mismatch = codes "frame payload size does not match buffer size"
what unexpected_message_type = codes "unexpected message type"
what truncated_endpoints = codes "truncated endpoint payload"
what arc_capacity_count = codes "partition arc capacity count is neither full nor compact"
what arc_capacity_out_of_range = codes "compact arc capacity is outside range"
what varint_too_large = codes "varint value is too large"
what varint_too_long = codes "varint value is too long"
what alpha_delta_overflow = codes "temporal alpha delta overflow"
what alpha_sum_overflow = codes "temporal alpha reconstruction overflow"
what label_not_binary = codes "constraint label must be binary for temporal encoding"
what duplicate_label = codes "duplicate constraint label in result"
what delta_before_full_sync = codes "label delta received before full sync"
what missing_label = codes "label order references missing label state"
what buffers_too_large = codes "frame buffer list is too large"
what invalid_socket = codes "cannot write to invalid socket"
what frame_too_large = codes "frame payload exceeds maximum size"
what closed_during_write = codes "socket closed during write"
what closed_during_read = codes "socket closed during read"
what snappy_unavailable =
    codes "snappy compression requested but this binary was built without MCPD4_ENABLE_SNAPPY"
what received_without_snappy =
    codes "snappy frame received but this binary was built without MCPD4_ENABLE_SNAPPY"
what bad_magic = codes "compressed transport frame has bad magic"
what transport_too_large = codes "transport frame exceeds maximum size"
what stored_size_mismatch = codes "stored transport frame size mismatch"
what snappy_length_failed = codes "failed to read snappy uncompressed size"
what snappy_size_mismatch = codes "snappy uncompressed size mismatch"
what snappy_failed = codes "snappy decompression failed"
what unknown_codec = codes "unknown compressed transport codec"
what unsupported_version = codes "unsupported worker protocol version"
what big_endian_worker = codes "worker must use little-endian protocol encoding"
what hello_without_snappy =
    codes "snappy compression requested but worker HELLO does not advertise the snappy feature bit"
what worker_without_snappy = codes "worker did not advertise snappy compression support"
what expected_hello = codes "expected HELLO from worker"
what expected_ready = codes "expected READY response from worker"
what expected_result = codes "expected SOLVE_ROUND_RESULT from worker"
what expected_batch_result = codes "expected SOLVE_ROUND_BATCH_RESULT from worker"
what (write_failed errno) = codes "socket write failed: " ++ errno
what (read_failed errno) = codes "socket read failed: " ++ errno
what (remote_error message) = codes "remote worker error: " ++ message
what (other_error message) = message

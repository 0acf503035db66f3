-- ===== src/Protocol/Handshake.antt =====
-- HELLO, READY, SCALE_OBJECTIVE, STOP and ERROR.
use mcpd.Base.{ℕ}
use mcpd.Wire.{Bytes, Result, M, ◌>>=◌, ◌>>◌, pure, write_u32, write_u64, write_i64, write_bool}
use mcpd.Wire.{write_string, read_u32, read_u64, read_i64, read_bool, read_string}
use mcpd.Protocol.Messages.{HelloMessage, ReadyMessage, ScaleObjectiveMessage, StopMessage}
use mcpd.Protocol.Messages.{ErrorMessage, hello, ready, scale_objective, stop, error}
use mcpd.Protocol.Framing.{encode_message, decode_message}

unfoldable pub write_hello : HelloMessage → M (Unit {0})
write_hello message = do
  write_u32 message.protocol_version
  write_string message.worker_name
  write_u32 message.cpu_count
  write_u64 message.ram_gb
  write_u64 message.feature_bits
  write_string message.temp_path
  write_bool message.debug_build
  write_bool message.little_endian

unfoldable pub read_hello : M HelloMessage
read_hello = do
  protocol_version ← read_u32
  worker_name ← read_string
  cpu_count ← read_u32
  ram_gb ← read_u64
  feature_bits ← read_u64
  temp_path ← read_string
  debug_build ← read_bool
  little_endian ← read_bool
  pure (record {
    protocol_version = protocol_version;
    worker_name = worker_name;
    cpu_count = cpu_count;
    ram_gb = ram_gb;
    feature_bits = feature_bits;
    temp_path = temp_path;
    debug_build = debug_build;
    little_endian = little_endian;
  })

unfoldable pub encode_hello : HelloMessage → Result Bytes
encode_hello message = encode_message hello (write_hello message)

unfoldable pub decode_hello : Bytes → Result HelloMessage
decode_hello frame = decode_message hello read_hello frame

unfoldable pub encode_ready : ReadyMessage → Result Bytes
encode_ready message = encode_message ready (write_string message.worker_name)

unfoldable pub read_ready : M ReadyMessage
read_ready = do worker_name ← read_string; pure (record { worker_name = worker_name })

unfoldable pub decode_ready : Bytes → Result ReadyMessage
decode_ready frame = decode_message ready read_ready frame

unfoldable pub write_scale_objective : ScaleObjectiveMessage → M (Unit {0})
write_scale_objective message = do
  write_i64 message.factor
  write_bool message.saturate_capacity_overflow

unfoldable pub read_scale_objective : M ScaleObjectiveMessage
read_scale_objective = do
  factor ← read_i64
  saturate_capacity_overflow ← read_bool
  pure (record { factor = factor; saturate_capacity_overflow = saturate_capacity_overflow })

unfoldable pub encode_scale_objective : ScaleObjectiveMessage → Result Bytes
encode_scale_objective message = encode_message scale_objective (write_scale_objective message)

unfoldable pub decode_scale_objective : Bytes → Result ScaleObjectiveMessage
decode_scale_objective frame = decode_message scale_objective read_scale_objective frame

-- STOP and ERROR have one shape: a number and a text.
unfoldable pub write_number_text : ℕ → Bytes → M (Unit {0})
write_number_text number text = do write_u32 number; write_string text

unfoldable pub read_stop : M StopMessage
read_stop = do
  reason ← read_u32
  message ← read_string
  pure (record { reason = reason; message = message })

unfoldable pub read_error : M ErrorMessage
read_error = do
  code ← read_u32
  message ← read_string
  pure (record { code = code; message = message })

unfoldable pub encode_stop : StopMessage → Result Bytes
encode_stop message = encode_message stop (write_number_text message.reason message.message)

unfoldable pub decode_stop : Bytes → Result StopMessage
decode_stop frame = decode_message stop read_stop frame

unfoldable pub encode_error : ErrorMessage → Result Bytes
encode_error message = encode_message error (write_number_text message.code message.message)

unfoldable pub decode_error : Bytes → Result ErrorMessage
decode_error frame = decode_message error read_error frame

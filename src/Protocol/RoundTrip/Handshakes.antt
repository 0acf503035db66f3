-- ===== src/Protocol/RoundTrip/Handshakes.antt =====
-- HELLO, READY, SCALE_OBJECTIVE, STOP and ERROR come back as they were sent.
use mcpd.Base.{◌+◌, ◌^◌, ◌<◌, length, arith}
use mcpd.Base.Int.{IsI64}
use mcpd.Wire.Reads.{Reads, Reads-seq, Reads-last, Reads-resize}
use mcpd.Wire.Reads.Scalars.{Reads-u32, Reads-u64, Reads-i64, Reads-bool, Reads-string}
use mcpd.Protocol.{HelloMessage, ReadyMessage, ScaleObjectiveMessage, StopMessage, ErrorMessage}
use mcpd.Protocol.{
  hello, ready, scale_objective, stop, error, write_hello, read_hello, encode_hello,
}
use mcpd.Protocol.{decode_hello, encode_ready, read_ready, decode_ready, write_scale_objective}
use mcpd.Protocol.{read_scale_objective, encode_scale_objective, decode_scale_objective}
use mcpd.Protocol.{write_number_text, read_stop, read_error, encode_stop, decode_stop, encode_error}
use mcpd.Protocol.{decode_error}
use mcpd.Protocol.RoundTrip.Frames.{Travels, Travels-message}

-- The ranges of the C++ types, and strings that a 32-bit count can measure.
pub record IsHello (m : HelloMessage) : Type 0 where
  pub version : m.protocol_version < 2 ^ 32
  pub name : length m.worker_name < 2 ^ 32
  pub cpus : m.cpu_count < 2 ^ 32
  pub ram : m.ram_gb < 2 ^ 64
  pub features : m.feature_bits < 2 ^ 64
  pub path : length m.temp_path < 2 ^ 32

Reads-hello :
    (m : HelloMessage)
    → IsHello m
    → Reads (write_hello m) read_hello m (34 + length m.worker_name + length m.temp_path)
unfolding write_hello read_hello
Reads-hello m v = Reads-resize _ (omega arith) (
    Reads-seq _ (Reads-u32 m.protocol_version v.version) (
      Reads-seq _ (Reads-string m.worker_name v.name) (
        Reads-seq _ (Reads-u32 m.cpu_count v.cpus) (
          Reads-seq _ (Reads-u64 m.ram_gb v.ram) (
            Reads-seq _ (Reads-u64 m.feature_bits v.features) (
              Reads-seq _ (Reads-string m.temp_path v.path) (
                Reads-seq _ (Reads-bool m.debug_build)
                  (Reads-last _ (Reads-bool m.little_endian)))))))))

-- A HELLO whose fields fit their types is encoded, in 46 bytes and its two strings, and decodeHello
-- gives back every field of it.
pub decode_hello-encode_hello :
    (m : HelloMessage)
    → IsHello m
    → Travels
        (encode_hello m)
        decode_hello
        m
        (12 + (34 + length m.worker_name + length m.temp_path))
unfolding encode_hello decode_hello
decode_hello-encode_hello m v =
    Travels-message hello (omega (arith, v.name, v.path)) (Reads-hello m v)

-- A READY comes back with the worker's name, if it has fewer than 2^32 bytes.
pub decode_ready-encode_ready :
    (m : ReadyMessage)
    → length m.worker_name < 2 ^ 32
    → Travels (encode_ready m) decode_ready m (12 + (4 + length m.worker_name))
unfolding encode_ready decode_ready read_ready
decode_ready-encode_ready m h =
    Travels-message ready (omega arith) (Reads-last _ (Reads-string m.worker_name h))

-- A SCALE_OBJECTIVE comes back with its 64-bit factor, negative ones too, and its flag, in 21 bytes.
pub decode_scale_objective-encode_scale_objective :
    (m : ScaleObjectiveMessage)
    → IsI64 m.factor
    → Travels (encode_scale_objective m) decode_scale_objective m (12 + (8 + 1))
unfolding encode_scale_objective decode_scale_objective write_scale_objective read_scale_objective
decode_scale_objective-encode_scale_objective m h =
    Travels-message scale_objective (omega arith)
      (Reads-seq _ (Reads-i64 m.factor h) (Reads-last _ (Reads-bool m.saturate_capacity_overflow)))

-- A STOP with a 32-bit reason comes back with it and its text of fewer than 2^32 bytes.
pub decode_stop-encode_stop :
    (m : StopMessage)
    → m.reason < 2 ^ 32
    → length m.message < 2 ^ 32
    → Travels (encode_stop m) decode_stop m (12 + (4 + (4 + length m.message)))
unfolding encode_stop decode_stop write_number_text read_stop
decode_stop-encode_stop m r t =
    Travels-message stop (omega arith)
      (Reads-seq _ (Reads-u32 m.reason r) (Reads-last _ (Reads-string m.message t)))

-- An ERROR with a 32-bit code comes back with it and its text of fewer than 2^32 bytes.
pub decode_error-encode_error :
    (m : ErrorMessage)
    → m.code < 2 ^ 32
    → length m.message < 2 ^ 32
    → Travels (encode_error m) decode_error m (12 + (4 + (4 + length m.message)))
unfolding encode_error decode_error write_number_text read_error
decode_error-encode_error m r t =
    Travels-message error (omega arith)
      (Reads-seq _ (Reads-u32 m.code r) (Reads-last _ (Reads-string m.message t)))

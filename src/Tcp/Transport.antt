-- ===== src/Tcp/Transport.antt =====
-- sendFrameBytes, sendFrameByteBuffers and receiveFrameBytes. The snappy library and the measured
-- times are parameters. The `stats` that a caller may pass are the result, or stand beside it.
use mcpd.Base.{ℕ, ◌+◌, Bool, true, false, not, List, [], ◌++◌, length}
use mcpd.Base.{Option, ltb, if◌then◌else◌}
use mcpd.Wire.Act.{Act, ◌>>=◌, ◌>>◌, return, fail, lift}
use mcpd.Tcp.Sockets.{Socket, sending}
use mcpd.Wire.{Bytes, Result, ok, err, little_bytes, shifts_32, shifts_64, read_shifts}
use mcpd.Wire.{invalid_socket, frame_too_large, snappy_unavailable}
use mcpd.Protocol.{join_buffers}
use mcpd.Tcp.Streams.{write_all, total_buffer_size, write_all_buffers}

pub data TransportCompression : Type 0 where
  no_compression snappy : TransportCompression

-- Whether the program was built with snappy, and the calls of it.
pub record Snappy : Type 0 where
  pub available : Bool
  pub compress : Bytes → Bytes
  pub uncompressed_length : Bytes → Option ℕ
  pub uncompress : Bytes → Option Bytes

pub record FrameTransferStats : Type 0 where
  pub logical_bytes : ℕ
  pub wire_bytes : ℕ
  pub compression_wall_us : ℕ
  pub decompression_wall_us : ℕ
  pub compression_requested : Bool
  pub compressed : Bool

abbrev pub bare_stats : ℕ → FrameTransferStats
bare_stats size = record {
  logical_bytes = size;
  wire_bytes = size;
  compression_wall_us = 0;
  decompression_wall_us = 0;
  compression_requested = false;
  compressed = false;
}

abbrev pub magic : ℕ
magic = 0x345a504d

abbrev pub stored : ℕ
stored = 0

abbrev pub snappy_codec : ℕ
snappy_codec = 1

abbrev pub envelope_header_bytes : ℕ
envelope_header_bytes = 24

unfoldable pub append_little_u32 : Bytes → ℕ → Bytes
append_little_u32 bytes value = bytes ++ little_bytes shifts_32 value

unfoldable pub append_little_u64 : Bytes → ℕ → Bytes
append_little_u64 bytes value = bytes ++ little_bytes shifts_64 value

-- What was read; the callers have the bytes, so the reading does not fail.
abbrev value_of : Result (ℕ × Bytes) → ℕ
value_of (ok (value, rest)) = value
value_of (err e) = 0

unfoldable pub read_little_u32 : Bytes → ℕ
read_little_u32 data' = value_of (read_shifts shifts_32 0 data')

unfoldable pub read_little_u64 : Bytes → ℕ
read_little_u64 data' = value_of (read_shifts shifts_64 0 data')

abbrev pub envelope : ℕ → ℕ → Bytes → Bytes
envelope codec logical_size payload =
    append_little_u64
      (append_little_u64 (append_little_u32 (append_little_u32 [] magic) codec) logical_size)
      (length payload)
    ++ payload

-- The branch of sendFrameBytes for snappy. `us` is the measured time.
unfoldable pub send_compressed : Snappy → ℕ → Bytes → Act Socket FrameTransferStats
send_compressed lib us frame =
    let packed = lib.compress frame in
    let use_compressed = ltb (length packed + envelope_header_bytes) (length frame) in
    let payload = (if use_compressed then packed else frame) in
    let sent = envelope (if use_compressed then snappy_codec else stored) (length frame) payload in
    sending (write_all sent)
    >> return (record {
      logical_bytes = length frame;
      wire_bytes = length sent;
      compression_wall_us = us;
      decompression_wall_us = 0;
      compression_requested = true;
      compressed = use_compressed;
    })

module _ (lib : Snappy) (us : ℕ) where
  unfoldable pub send_frame_bytes : Bytes → TransportCompression → ℕ → Act Socket FrameTransferStats
  send_frame_bytes frame compression max_frame_bytes socket =
      if not socket.valid
      then fail invalid_socket socket
      else if ltb max_frame_bytes (length frame)
      then fail frame_too_large socket
      else elim compression [
        | no_compression ↦ (sending (write_all frame) >> return (bare_stats (length frame))) socket
        | snappy ↦
            if lib.available
            then send_compressed lib us frame socket
            else fail snappy_unavailable socket
      ]

  unfoldable pub send_frame_byte_buffers :
      ℕ → List Bytes → TransportCompression → ℕ → Act Socket FrameTransferStats
  send_frame_byte_buffers iov_max buffers compression max_frame_bytes socket =
      if not socket.valid
      then fail invalid_socket socket
      else (do
        total_size ← lift (total_buffer_size buffers)
        if ltb max_frame_bytes total_size then fail frame_too_large else elim compression [
          | no_compression ↦
              sending (write_all_buffers iov_max buffers) >> return (bare_stats total_size)
          | snappy ↦ send_frame_bytes (join_buffers buffers) snappy max_frame_bytes
        ])
          socket

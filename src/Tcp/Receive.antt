-- ===== src/Tcp/Receive.antt =====
-- receiveFrameBytes, without an envelope and with one.
use mcpd.Base.{ℕ, ◌+◌, ◌-◌, ◌^◌, Bool, true, not, ◌||◌, ◌++◌, length, drop, Option, none, some}
use mcpd.Base.{ltb, ◌==◌, if◌then◌else◌}
use mcpd.Wire.{Bytes, Result, ok, err, and_then, frame_too_large, received_without_snappy}
use mcpd.Wire.{
  transport_too_large, stored_size_mismatch, snappy_length_failed, snappy_size_mismatch, bad_magic,
}
use mcpd.Wire.{snappy_failed, unknown_codec}
use mcpd.Wire.Act.{Act, ◌>>=◌, fail, lift}
use mcpd.Protocol.{decode_frame_type, frame_header_bytes}
use mcpd.Tcp.Streams.{read_all}
use mcpd.Tcp.Sockets.{Socket, receiving}
use mcpd.Tcp.Transport.{TransportCompression, no_compression, snappy, Snappy, FrameTransferStats}
use mcpd.Tcp.Transport.{
  bare_stats, magic, stored, snappy_codec, envelope_header_bytes, read_little_u32,
}
use mcpd.Tcp.Transport.{read_little_u64}

-- kDefaultMaxFrameBytes
abbrev pub default_max_frame_bytes : ℕ
default_max_frame_bytes = 2 ^ 30

-- A frame and what is recorded of its transfer.
abbrev pub Received : Type 0
Received = Bytes × FrameTransferStats

abbrev sized_frame : ℕ → Option ℕ → Option Bytes → Result Bytes
sized_frame logical_size none frame = err snappy_length_failed
sized_frame logical_size (some size) none =
    if size == logical_size then err snappy_failed else err snappy_size_mismatch
sized_frame logical_size (some size) (some frame) =
    if size == logical_size then ok frame else err snappy_size_mismatch

-- The frame that the payload of an envelope stands for.
unfoldable pub open_payload : Snappy → ℕ → ℕ → Bytes → Result Bytes
open_payload lib codec logical_size payload =
    if codec == stored
    then (if length payload == logical_size then ok payload else err stored_size_mismatch)
    else if codec == snappy_codec
    then (if lib.available
        then sized_frame logical_size (lib.uncompressed_length payload) (lib.uncompress payload)
        else err received_without_snappy)
    else err unknown_codec

-- decodeFrameType, whose value is dropped, and the return.
abbrev pub checked_frame : FrameTransferStats → Bytes → Result Received
checked_frame stats frame = and_then (decode_frame_type frame) (λ type. ok (frame, stats))

-- requireFrameWithinLimit of a frame on top of a header.
unfoldable pub payload_exceeds : ℕ → ℕ → Bool
payload_exceeds max_frame_bytes payload_size =
    ltb max_frame_bytes frame_header_bytes
    || ltb (max_frame_bytes - frame_header_bytes) payload_size

module _ (lib : Snappy) (us : ℕ) (max_frame_bytes : ℕ) where
  -- What is recorded of an envelope, from its header.
  abbrev pub envelope_stats : Bytes → FrameTransferStats
  envelope_stats header = record {
    logical_bytes = read_little_u64 (drop 8 header);
    wire_bytes = envelope_header_bytes + read_little_u64 (drop 16 header);
    compression_wall_us = 0;
    decompression_wall_us = if read_little_u32 (drop 4 header) == stored then 0 else us;
    compression_requested = true;
    compressed = read_little_u32 (drop 4 header) == snappy_codec;
  }

  unfoldable pub receive_envelope : Bytes → Act Socket Received
  receive_envelope header =
      if not (read_little_u32 header == magic)
      then fail bad_magic
      else if ltb max_frame_bytes (read_little_u64 (drop 8 header))
      then fail frame_too_large
      else if ltb max_frame_bytes (read_little_u64 (drop 16 header))
      then fail transport_too_large
      else do
        payload ← receiving (read_all (read_little_u64 (drop 16 header)))
        frame ← lift (
            open_payload lib (read_little_u32 (drop 4 header)) (read_little_u64 (drop 8 header))
              payload)
        lift (checked_frame (envelope_stats header) frame)

  unfoldable pub receive_rest : Bytes → Act Socket Received
  receive_rest header =
      if payload_exceeds max_frame_bytes (read_little_u64 (drop 4 header))
      then fail frame_too_large
      else do
        payload ← receiving (read_all (read_little_u64 (drop 4 header)))
        lift (checked_frame (bare_stats (length (header ++ payload))) (header ++ payload))

  unfoldable pub receive_frame_bytes : TransportCompression → Act Socket Received
  receive_frame_bytes snappy = do
    header ← receiving (read_all envelope_header_bytes)
    receive_envelope header
  receive_frame_bytes no_compression = do
    header ← receiving (read_all frame_header_bytes)
    receive_rest header

-- ===== src/Runtime/Direct.antt =====
-- Bare frames received in two steps: the header, then the body.
use mcpd.Base.{ℕ, Option, none, some, length, drop, ◌++◌}
use mcpd.Base.{if◌then◌else◌}
use mcpd.Wire.{Bytes, Result, ok, err, unknown_message_type, frame_too_large}
use mcpd.Wire.Act.{Act, ◌>>=◌, return, fail, lift}
use mcpd.Protocol.{MessageType, known_message_type, frame_header_bytes}
use mcpd.Tcp.{Socket, receiving, read_all, read_little_u32, read_little_u64, payload_exceeds}
use mcpd.Tcp.{bare_stats, Received, checked_frame}

abbrev pub checked : Option MessageType → Result MessageType
checked (some type) = ok type
checked none = err unknown_message_type

-- checkedMessageType, whose cases are the known types.
unfoldable pub checked_message_type : ℕ → Result MessageType
checked_message_type raw_type = checked (known_message_type raw_type)

pub record UncompressedFrameHeader : Type 0 where
  pub bytes : Bytes
  pub type : MessageType
  pub payload_size : ℕ

unfoldable pub receive_uncompressed_frame_header : ℕ → Act Socket UncompressedFrameHeader
receive_uncompressed_frame_header max_frame_bytes = do
  bytes ← receiving (read_all frame_header_bytes)
  type ← lift (checked_message_type (read_little_u32 bytes))
  if payload_exceeds max_frame_bytes (read_little_u64 (drop 4 bytes))
      then fail frame_too_large
      else return
          (record { bytes = bytes; type = type; payload_size = read_little_u64 (drop 4 bytes) })

unfoldable pub receive_uncompressed_frame_body : UncompressedFrameHeader → Act Socket Received
receive_uncompressed_frame_body header = do
  payload ← receiving (read_all header.payload_size)
  lift (checked_frame (bare_stats (length (header.bytes ++ payload))) (header.bytes ++ payload))

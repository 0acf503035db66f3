-- ===== src/Protocol/Framing.antt =====
-- Frames: a 12-byte header with the type and the payload's size, then the payload.
use mcpd.Base.{ℕ, ◌-◌, ◌^◌, Bool, Option, none, some, ◌++◌, length, take, drop}
use mcpd.Base.{leb, ◌==◌, if◌then◌else◌}
use mcpd.Wire.{Bytes, Result, ok, err, and_then, M, ◌>>=◌, ◌>>◌, pure, throw, require}
use mcpd.Wire.{run_writer, run_reader, write_u32, write_u64, read_u32, read_u64, require_done}
use mcpd.Wire.{
  frame_header_truncated, unknown_message_type, payload_too_large, payload_size_mismatch,
}
use mcpd.Wire.{unexpected_message_type, view_out_of_bounds}
use mcpd.Protocol.Messages.{
  MessageType, Frame, hello, partition_package, ready, solve_round_request,
}
use mcpd.Protocol.Messages.{solve_round_result, scale_objective, alpha_update, stop, error}
use mcpd.Protocol.Messages.{solve_round_batch_request, solve_round_batch_result}

abbrev pub frame_header_bytes : ℕ
frame_header_bytes = 12

-- The values of the enum.
abbrev pub type_code : MessageType → ℕ
type_code hello = 1
type_code partition_package = 2
type_code ready = 3
type_code solve_round_request = 4
type_code solve_round_result = 5
type_code scale_objective = 6
type_code alpha_update = 7
type_code stop = 8
type_code error = 9
type_code solve_round_batch_request = 10
type_code solve_round_batch_result = 11

-- isKnownMessageType together with the cast of a known value.
unfoldable pub known_message_type : ℕ → Option MessageType
known_message_type value =
    if value == 1
    then some hello
    else if value == 2
    then some partition_package
    else if value == 3
    then some ready
    else if value == 4
    then some solve_round_request
    else if value == 5
    then some solve_round_result
    else if value == 6
    then some scale_objective
    else if value == 7
    then some alpha_update
    else if value == 8
    then some stop
    else if value == 9
    then some error
    else if value == 10
    then some solve_round_batch_request
    else if value == 11
    then some solve_round_batch_result
    else none

unfoldable pub checked_type : Option MessageType → M MessageType
checked_type none = throw unknown_message_type
checked_type (some type) = pure type

unfoldable pub encode_frame : MessageType → Bytes → Result Bytes
encode_frame type payload =
    and_then (run_writer (do write_u32 (type_code type); write_u64 (length payload)))
      (λ bytes. ok (bytes ++ payload))

pub record DecodedFrameView : Type 0 where
  pub type : MessageType
  pub payload_offset : ℕ
  pub payload_size : ℕ

-- The body of decodeFrameView, for a buffer of `size` bytes.
unfoldable pub read_frame_view : ℕ → M DecodedFrameView
read_frame_view size = do
  require (leb frame_header_bytes size) frame_header_truncated
  raw_type ← read_u32
  type ← checked_type (known_message_type raw_type)
  payload_size ← read_u64
  require (leb payload_size (2 ^ 64 - 1)) payload_too_large
  require (size - frame_header_bytes == payload_size) payload_size_mismatch
  pure (record { type = type; payload_offset = frame_header_bytes; payload_size = payload_size })

unfoldable pub decode_frame_view : Bytes → Result DecodedFrameView
decode_frame_view bytes = run_reader (read_frame_view (length bytes)) bytes

-- The bytes of `bytes` that a view selects.
abbrev pub payload_of : Bytes → DecodedFrameView → Bytes
payload_of bytes view = take view.payload_size (drop view.payload_offset bytes)

unfoldable pub decode_frame : Bytes → Result Frame
decode_frame bytes =
    and_then (decode_frame_view bytes)
      (λ view. ok (record { type = view.type; payload = payload_of bytes view }))

unfoldable pub decode_frame_type : Bytes → Result MessageType
decode_frame_type bytes = and_then (decode_frame_view bytes) (λ view. ok view.type)

abbrev pub expected : MessageType → MessageType → Bool
expected type wanted = type_code type == type_code wanted

abbrev pub expect : {A : Type 0} → MessageType → MessageType → A → Result A
expect type wanted a = if expected type wanted then ok a else err unexpected_message_type

unfoldable pub decode_expected_frame : Bytes → MessageType → Result Frame
decode_expected_frame frame wanted =
    and_then (decode_frame frame) (λ decoded. expect decoded.type wanted decoded)

unfoldable pub decode_expected_frame_view : Bytes → MessageType → Result DecodedFrameView
decode_expected_frame_view frame wanted =
    and_then (decode_frame_view frame) (λ view. expect view.type wanted view)

-- How the encoders end: `Writer writer; body; return encodeFrame(type, writer.bytes());`
unfoldable pub encode_message : MessageType → M (Unit {0}) → Result Bytes
encode_message type body = and_then (run_writer body) (encode_frame type)

abbrev pub whole : {A : Type 0} → M A → M A
whole body = do message ← body; require_done; pure message

-- What the decoders share: the expected frame, a Reader of its payload, the body, requireDone.
unfoldable pub decode_message : {A : Type 0} → MessageType → M A → Bytes → Result A
decode_message wanted body frame =
    and_then (decode_expected_frame frame wanted)
      (λ decoded. run_reader (whole body) decoded.payload)

-- Reader(bytes, offset, size), whose constructor checks the bounds.
unfoldable pub run_reader_at : {A : Type 0} → M A → Bytes → ℕ → ℕ → Result A
run_reader_at body bytes offset size =
    if leb offset (length bytes)
    then (if leb size (length bytes - offset)
        then run_reader body (take size (drop offset bytes))
        else err view_out_of_bounds)
    else err view_out_of_bounds

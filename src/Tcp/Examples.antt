-- ===== src/Tcp/Examples.antt =====
-- The theorems about the loops at a short message and a connection that is interrupted.
use mcpd.Base.{
  ℕ, zero, suc, refl, sym, ap, Bool, true, false, ◌&&◌, ◌==◌, ==_iff, Bool-cases, inl, inr, Option,
  none, some, map, if◌then◌else◌, ◌+◌, ◌≤◌, length, ◌≡◌, List, [], ◌∷◌, ◌++◌, arith,
}
use mcpd.Protocol.{MessageType, ready, encode_frame, decode_frame_type}
use mcpd.Tcp.Sockets.{Socket}
use mcpd.Tcp.Transport.{
  Snappy, no_compression, snappy, bare_stats, send_frame_bytes, envelope_header_bytes,
}
use mcpd.Tcp.Receive.{receive_frame_bytes}
use mcpd.Tcp.Transfers.{Sends, Takes, Arrives}
use mcpd.Tcp.RoundTrip.{send_frame_bytes-receive_frame_bytes}
use mcpd.Tcp.Envelopes.{
  IsSnappy, sent_stats, wire_of, compresses, send_compressed-receive_frame_bytes,
}
use mcpd.Wire.{Bytes, ok}
use mcpd.Tcp.Streams.{
  Event, interrupted, failed, moves, stream, write_loop, read_loop, write_all_buffers,
}
use mcpd.Tcp.Views.{write_all_buffers-progress}
use mcpd.Protocol.{join_buffers}
use mcpd.Tcp.Delivery.{progress, write_loop-progress, read_loop-progress}

abbrev events : List Event
events = moves 2 ∷ interrupted ∷ moves 9 ∷ moves 1 ∷ failed [] ∷ []

abbrev message : Bytes
message = 5 ∷ 6 ∷ 7 ∷ []

abbrev long_events : List Event
long_events = interrupted ∷ moves 2 ∷ moves 1 ∷ moves 5 ∷ moves 1 ∷ moves 1 ∷ moves 1 ∷ []

write_loop-progress_example :
    (left : List Event) × (write_loop events message (4 ∷ []) ≡ (ok tt, stream left (4 ∷ message)))
    × (progress events ≤ progress left + length message)
write_loop-progress_example = write_loop-progress events message (4 ∷ []) (omega arith)

read_loop-progress_example :
    (left : List Event) × (read_loop events 3 (message ++ (8 ∷ [])) []
      ≡ (ok message, stream left (8 ∷ [])))
    × (progress events ≤ progress left + length message)
read_loop-progress_example = read_loop-progress events message (8 ∷ []) [] (omega arith)

write_all_buffers-progress_example :
    (left : List Event) × (write_all_buffers 2
        (message ∷ [] ∷ message ∷ [])
        (record { events = long_events; bytes = 4 ∷ [] })
      ≡ (ok tt, stream left (4 ∷ (message ++ message))))
    × (progress long_events ≤ progress left + length (message ++ message))
unfolding join_buffers
write_all_buffers-progress_example =
    write_all_buffers-progress 1 (message ∷ [] ∷ message ∷ [])
      (record { events = long_events; bytes = 4 ∷ [] }) (omega arith)

-- A library that knows one text by heart and stores the others behind a mark.
same_bytes : Bytes → Bytes → Bool
same_bytes [] [] = true
same_bytes [] (b ∷ bs) = false
same_bytes (a ∷ as') [] = false
same_bytes (a ∷ as') (b ∷ bs) = (a == b) && same_bytes as' bs

same_bytes-true : (as' bs : Bytes) → same_bytes as' bs ≡ true → as' ≡ bs
unfolding same_bytes
same_bytes-true [] [] h = refl
same_bytes-true [] (b ∷ bs) h = absurd (ground arith)
same_bytes-true (a ∷ as') [] h = absurd (ground arith)
same_bytes-true (a ∷ as') (b ∷ bs) h =
    cc (same_bytes-true as' bs (ground (arith, h)), (==_iff a b).0 (ground (arith, h)))

abbrev zeros : ℕ → Bytes
zeros zero = []
zeros (suc n) = 0 ∷ zeros n

abbrev payload : Bytes
payload = zeros 40

-- A frame of type READY with this payload.
abbrev frame : Bytes
frame = 3 ∷ 0 ∷ 0 ∷ 0 ∷ 40 ∷ 0 ∷ 0 ∷ 0 ∷ 0 ∷ 0 ∷ 0 ∷ 0 ∷ payload

abbrev restore : Bytes → Option Bytes
restore [] = none
restore (zero ∷ text) = some text
restore (suc mark ∷ text) = some frame

abbrev measure : Option Bytes → Option ℕ
measure none = none
measure (some text) = some (length text)

pack : Bytes → Bytes
pack text = if same_bytes text frame then 1 ∷ [] else 0 ∷ text

abbrev library : Snappy
library = record {
  available = true;
  compress = pack;
  uncompressed_length = λ packed. measure (restore packed);
  uncompress = restore;
}

restores : (text : Bytes) → restore (pack text) ≡ some text
unfolding pack
restores text = elim (Bool-cases (same_bytes text frame)) [
  | inl e ↦ rw e (ap some (sym (same_bytes-true text frame e)))
  | inr e ↦ rw e refl
]

library-IsSnappy : IsSnappy library
library-IsSnappy = record {
  built = refl;
  measures = λ text. ap measure (restores text);
  restores = restores;
}

frame_lem : encode_frame ready payload ≡ ok frame
unfolding encode_frame mcpd.Wire.run_writer mcpd.Wire.◌>>=◌ mcpd.Wire.write_u32
    mcpd.Wire.write_shifts mcpd.Wire.write_u8 mcpd.Wire.pure mcpd.Wire.write_u64
frame_lem = refl

typed : decode_frame_type frame ≡ ok ready
unfolding decode_frame_type mcpd.Protocol.decode_frame_view mcpd.Wire.run_reader
    mcpd.Protocol.read_frame_view mcpd.Wire.◌>>=◌ mcpd.Wire.require mcpd.Wire.read_u32
    mcpd.Wire.require_remaining mcpd.Wire.read_shifts mcpd.Wire.next_byte mcpd.Protocol.checked_type
    mcpd.Protocol.known_message_type mcpd.Wire.read_u64
typed = refl

abbrev open_socket : Socket
open_socket = record {
  valid = true;
  incoming = stream [] [];
  outgoing = stream (interrupted ∷ map moves (map (λ b. 60) frame)) (9 ∷ []);
}

send_frame_bytes-receive_frame_bytes_example :
    Sends (send_frame_bytes library 3 frame no_compression 100) (bare_stats 52) frame open_socket
    × ((later : Bytes) (r : Socket)
        → Arrives frame later r
        → Takes
            (receive_frame_bytes library 4 100 no_compression)
            (frame, bare_stats 52)
            frame
            later
            r)
send_frame_bytes-receive_frame_bytes_example =
    send_frame_bytes-receive_frame_bytes library 3 4 100 frame payload ready open_socket
      (omega arith) frame_lem refl (omega arith) (omega arith)

send_compressed-receive_frame_bytes_example :
    Sends
      (send_frame_bytes library 3 frame snappy 100)
      (sent_stats library 3 frame)
      (wire_of library 3 frame)
      open_socket
    × (length (wire_of library 3 frame) ≤ envelope_header_bytes + length frame)
    × ((later : Bytes) (r : Socket)
        → Arrives (wire_of library 3 frame) later r
        → Takes
            (receive_frame_bytes library 4 100 snappy)
            (
              frame,
              record (sent_stats library 3 frame) {
                compression_wall_us = 0;
                decompression_wall_us = if compresses library 3 frame then 4 else 0;
              },
            )
            (wire_of library 3 frame)
            later
            r)
unfolding pack same_bytes mcpd.Tcp.Transport.append_little_u32 mcpd.Tcp.Transport.append_little_u64
    mcpd.Wire.little_bytes
send_compressed-receive_frame_bytes_example =
    send_compressed-receive_frame_bytes library 3 4 100 frame ready open_socket library-IsSnappy
      typed refl (omega arith) (omega arith) (omega arith)

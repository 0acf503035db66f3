-- ===== src/Runtime/Arrival.antt =====
-- What the loop of a worker has received when a frame arrived, in both modes of the transport.
use mcpd.Base.{
  List, if◌then◌else◌, ℕ, ◌+◌, ◌≤◌, ◌≡◌, refl, sym, ap, subst, ◌∙◌, arith, Bool, false, ◌++◌,
  length, drop, length-append,
}
use mcpd.Wire.{Bytes, ok, frame_too_large}
use mcpd.Wire.Act.{Act, ◌>>=◌, return, fail, lift, >>=-ok, on-ok, lift-ok}
use mcpd.Protocol.{
  MessageType, decode_frame_type, expected, partition_package, frame_header_bytes, type_code,
}
use mcpd.Protocol.RoundTrip.Frames.{known-type_code}
use mcpd.Tcp.{
  Socket, Snappy, TransportCompression, no_compression, snappy, receiving, read_all, bare_stats,
  default_max_frame_bytes, read_little_u32, read_little_u64, payload_exceeds, stream, Event,
  with_incoming, Received,
}
use mcpd.Tcp.Frames.{IsFrame}
use mcpd.Tcp.Transfers.{Takes, Arrives, Arrives-then}
use mcpd.Tcp.RoundTrip.{Takes-last, Arrives-front, checked_frame_lem}
use mcpd.Tcp.Channels.{Serves, on_wire, receiver_stats, Takes-channel}
use mcpd.Runtime.Direct.{
  UncompressedFrameHeader, receive_uncompressed_frame_header, receive_uncompressed_frame_body,
  checked_message_type, checked,
}
use mcpd.Runtime.Sessions.{Times}
use mcpd.Runtime.Worker.{PartitionWorker, WorkerRuntime, Incoming, frame_bytes, on_socket}
use mcpd.Runtime.Loop.{receive_next, receive_by_type}

checked-type_code :
    (type : MessageType) (n : ℕ) → n ≡ type_code type → checked_message_type n ≡ ok type
unfolding checked_message_type
checked-type_code type n h = ap (λ k. checked_message_type k) h ∙ ap checked (known-type_code type)

module _ (frame payload : Bytes) (type : MessageType) (x : IsFrame frame type payload) where
  -- The header that is read from a frame.
  abbrev header_of : UncompressedFrameHeader
  header_of = record { bytes = x.head; type = type; payload_size = read_little_u64 (drop 4 x.head) }

  fits-header :
      (max : ℕ) → length frame ≤ max → payload_exceeds max (read_little_u64 (drop 4 x.head)) ≡ false
  unfolding payload_exceeds
  fits-header max h =
      ground (arith, x.size_of, x.sized, h, ap length x.splits, length-append {0} x.head payload)

  pub Takes-header :
      (max : ℕ) (later : Bytes) (s : Socket)
      → length frame ≤ max
      → Arrives x.head later s
      → Takes (receive_uncompressed_frame_header max) header_of x.head later s
  unfolding receive_uncompressed_frame_header
  Takes-header max later s h a = Takes-last 12 _ x.head later s x.sized a (λ s'.
      >>=-ok (lift (checked_message_type (read_little_u32 x.head))) _ s' s' type
        (unfold lift in ap (λ r. (r, s')) (checked-type_code type _ x.code_of))
      ∙ passes (payload_exceeds max (read_little_u64 (drop 4 x.head))) _ s' (fits-header max h))
    where
      passes :
          (b : Bool) (header : UncompressedFrameHeader) (s' : Socket)
          → b ≡ false
          → (if b then fail frame_too_large else return header) s' ≡ (ok header, s')
      passes b header s' e = rw e (unfold return in refl)

  pub Takes-body :
      (later : Bytes) (s : Socket)
      → Arrives payload later s
      → Takes
          (receive_uncompressed_frame_body header_of)
          (frame, bare_stats (length frame))
          payload
          later
          s
  unfolding receive_uncompressed_frame_body
  Takes-body later s a =
      Takes-last (read_little_u64 (drop 4 x.head)) _ payload later s (sym x.size_of) a (λ s'.
        subst
          (λ t.
            lift (mcpd.Tcp.checked_frame (bare_stats (length t)) t) s'
            ≡ (ok (frame, bare_stats (length frame)), s'))
          x.splits (checked_frame_lem frame type (bare_stats (length frame)) s' x.typed))

-- A call on the socket of a worker.
on_socket-Takes :
    {S A : Type 0} {m : Act Socket A} {a : A} {wire later : Bytes} (w : WorkerRuntime S)
    → (x : Takes m a wire later w.socket)
    → on_socket m w ≡ (ok a, record w { socket = with_incoming w.socket (stream x.left later) })
on_socket-Takes {m} {a} w x = on-ok _ _ m w (ok a) _ x.does

module _ {S : Type 0} (lib : Snappy) (solver : PartitionWorker S) (worker_name : Bytes)
    (times : Times) where
  -- A frame that carries no package.
  abbrev pub incoming_of : TransportCompression → MessageType → Bytes → Incoming
  incoming_of compression type frame = record {
    type = type;
    arrived = frame_bytes frame;
    frame_logical_bytes = length frame;
    transfer = receiver_stats lib compression times.decompression frame;
  }

  body_case :
      (compression : TransportCompression) (type : MessageType) (header : UncompressedFrameHeader)
      → expected type partition_package ≡ false
      → receive_by_type lib solver worker_name compression times type header ≡ (do
        received ← on_socket (receive_uncompressed_frame_body header)
        return (record {
          type = header.type;
          arrived = frame_bytes received.0;
          frame_logical_bytes = frame_header_bytes + header.payload_size;
          transfer = received.1;
        }))
  unfolding receive_by_type
  body_case mode partition_package header h = absurd (ground arith)
  body_case mode type header h = refl

  -- A bare frame, in its two steps.
  bare_next :
      (frame payload later : Bytes) (type : MessageType) (w : WorkerRuntime S)
      → expected type partition_package ≡ false
      → IsFrame frame type payload
      → length frame ≤ default_max_frame_bytes
      → Arrives frame later w.socket
      → (left : List Event) × (receive_next lib solver worker_name no_compression times w ≡ (
        ok (incoming_of no_compression type frame),
        record w { socket = with_incoming w.socket (stream left later) },
      ))
  unfolding receive_next
  bare_next frame payload later type w k x h a =
      let b : Arrives (x.head ++ payload) later w.socket =
        subst (λ t. Arrives t later w.socket) x.splits a in
      let first =
        Takes-header frame payload type x default_max_frame_bytes (payload ++ later) w.socket h
          (Arrives-front x.head payload later w.socket b) in
      let w' : WorkerRuntime S = record w {
        socket = with_incoming w.socket (stream first.left (payload ++ later));
      } in
      let second =
        Takes-body frame payload type x later w'.socket
          (Arrives-then x.head payload later w.socket b first) in
      (
        second.left,
        >>=-ok (on_socket (receive_uncompressed_frame_header default_max_frame_bytes)) _ w w' _
              (on_socket-Takes w first)
            ∙ ap (λ m. m w') (body_case no_compression type (header_of frame payload type x) k)
            ∙ >>=-ok (on_socket (receive_uncompressed_frame_body (header_of frame payload type x)))
                _ w' _ _ (on_socket-Takes w' second)
            ∙ (unfold return in
                ap
                  (λ (n : ℕ). (
                    ok (record (incoming_of no_compression type frame) { frame_logical_bytes = n }),
                    record w { socket = with_incoming w.socket (stream second.left later) },
                  ))
                  (omega (
                    arith,
                    x.size_of,
                    x.sized,
                    ap length x.splits,
                    length-append {0} x.head payload,
                  ))),
      )

  -- A frame that carries no package is in, and nothing else has changed.
  pub receive_next-frame :
      (compression : TransportCompression) (frame payload later : Bytes) (type : MessageType)
      (w : WorkerRuntime S)
      → Serves compression lib
      → expected type partition_package ≡ false
      → IsFrame frame type payload
      → length frame ≤ default_max_frame_bytes
      → Arrives (on_wire lib compression frame) later w.socket
      → (left : List Event) × (receive_next lib solver worker_name compression times w ≡ (
        ok (incoming_of compression type frame),
        record w { socket = with_incoming w.socket (stream left later) },
      ))
  unfolding receive_next
  receive_next-frame no_compression frame payload later type w l k x h a =
      bare_next frame payload later type w k x h a
  receive_next-frame snappy frame payload later type w l k x h a =
      let t =
        Takes-channel lib snappy times.decompression default_max_frame_bytes frame payload later
          type w.socket l x h (omega arith) a in
      (
        t.left,
        >>=-ok _ _ w _ _ (on_socket-Takes w t)
            ∙ lift-ok (decode_frame_type frame) _ _ type x.typed
            ∙ (unfold return in refl),
      )

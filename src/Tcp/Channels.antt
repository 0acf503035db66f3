-- ===== src/Tcp/Channels.antt =====
-- Both modes of the transport at once: what a frame is on the wire, and what the two ends record.
use mcpd.Base.{ℕ, ◌^◌, ◌<◌, ◌≤◌, ◌≡◌, true, length, if◌then◌else◌}
use mcpd.Wire.{Bytes}
use mcpd.Protocol.{MessageType}
use mcpd.Tcp.Sockets.{Socket}
use mcpd.Tcp.Transport.{
  Snappy, FrameTransferStats, TransportCompression, no_compression, snappy, bare_stats,
  send_frame_bytes,
}
use mcpd.Tcp.Receive.{receive_frame_bytes}
use mcpd.Tcp.Frames.{IsFrame}
use mcpd.Tcp.Transfers.{Sends, Takes, Arrives, CanSend}
use mcpd.Tcp.RoundTrip.{Sends-frame, Takes-frame}
use mcpd.Tcp.Envelopes.{IsSnappy, Sends-compressed, wire_of, sent_stats, compresses, Takes-sent}

-- What the mode needs of the library.
abbrev pub Serves : TransportCompression → Snappy → Type 0
Serves no_compression lib = Unit {0}
Serves snappy lib = IsSnappy lib

module _ (lib : Snappy) (compression : TransportCompression) where
  abbrev pub on_wire : Bytes → Bytes
  on_wire frame = elim compression [ no_compression ↦ frame | snappy ↦ wire_of lib 0 frame ]

  abbrev pub sender_stats : ℕ → Bytes → FrameTransferStats
  sender_stats us frame = elim compression [
    | no_compression ↦ bare_stats (length frame)
    | snappy ↦ sent_stats lib us frame
  ]

  abbrev pub receiver_stats : ℕ → Bytes → FrameTransferStats
  receiver_stats us frame = elim compression [
    | no_compression ↦ bare_stats (length frame)
    | snappy ↦ record (sent_stats lib 0 frame) {
      compression_wall_us = 0;
      decompression_wall_us = if compresses lib 0 frame then us else 0;
    }
  ]

pub Sends-channel :
    (lib : Snappy) (compression : TransportCompression) (us max : ℕ) (frame : Bytes) (s : Socket)
    → Serves compression lib
    → s.valid ≡ true
    → length frame ≤ max
    → CanSend (length (on_wire lib compression frame)) s
    → Sends
        (send_frame_bytes lib us frame compression max)
        (sender_stats lib compression us frame)
        (on_wire lib compression frame)
        s
Sends-channel lib no_compression us max frame s h v l c = Sends-frame lib us max frame s v l c
Sends-channel lib snappy us max frame s h v l c = Sends-compressed lib us frame max s h v l c

pub Takes-channel :
    (lib : Snappy) (compression : TransportCompression) (us max : ℕ) (frame payload later : Bytes)
    (type : MessageType) (s : Socket)
    → Serves compression lib
    → IsFrame frame type payload
    → length frame ≤ max
    → max < 2 ^ 64
    → Arrives (on_wire lib compression frame) later s
    → Takes
        (receive_frame_bytes lib us max compression)
        (frame, receiver_stats lib compression us frame)
        (on_wire lib compression frame)
        later
        s
Takes-channel lib no_compression us max frame payload later type s h x l w a =
    Takes-frame lib us max frame payload later type s x l a
Takes-channel lib snappy us max frame payload later type s h x l w a =
    Takes-sent lib 0 us max frame type h x.typed l w later s a

-- ===== src/Tcp/RoundTrip.antt =====
-- A frame that one end sends is the frame that the other end receives, bare and in an envelope.
use mcpd.Base.{ℕ, ◌^◌, ◌<◌, ◌≤◌, ◌≡◌, sym, ap, subst, ◌∙◌, arith, Bool, true, false, not}
use mcpd.Base.{◌++◌, length, length-append, drop, append_assoc, ltb, if◌then◌else◌}
use mcpd.Wire.{Bytes, ok, frame_too_large}
use mcpd.Wire.Act.{Act, ◌>>=◌, >>=-ok, lift, fail}
use mcpd.Protocol.{MessageType, decode_frame_type, encode_frame}
use mcpd.Tcp.Streams.{read_all}
use mcpd.Tcp.Sockets.{Socket, receiving}
use mcpd.Tcp.Transport.{
  Snappy, FrameTransferStats, no_compression, bare_stats, send_frame_bytes, read_little_u64,
}
use mcpd.Tcp.Receive.{receive_frame_bytes, receive_rest, payload_exceeds, checked_frame}
use mcpd.Tcp.Frames.{IsFrame, encode_frame-IsFrame}
use mcpd.Tcp.Transfers.{
  Sends, Takes, Arrives, CanSend, Sends-write_all, Sends-return, Takes-read_all, Arrives-then,
  Takes-then,
}

-- A test that comes out false, before the rest of a call.
pub Takes-test :
    {A : Type 0} (failure : Act Socket A) {m : Act Socket A} {a : A} {wire later : Bytes}
    {s : Socket} (b : Bool)
    → b ≡ false
    → Takes m a wire later s
    → Takes (if b then failure else m) a wire later s
Takes-test failure {m} {a} {wire} {later} {s} b h x = rw h x

-- A read of `n` bytes when these are the next ones.
pub Takes-read :
    (n : ℕ) (wire later : Bytes) (s : Socket)
    → length wire ≡ n
    → Arrives wire later s
    → Takes (receiving (read_all n)) wire wire later s
Takes-read n wire later s h x =
    subst (λ k. Takes (receiving (read_all k)) wire wire later s) h (Takes-read_all wire later s x)

-- The first part of what arrives.
pub Arrives-front :
    (wire wire' later : Bytes) (s : Socket)
    → Arrives (wire ++ wire') later s
    → Arrives wire (wire' ++ later) s
Arrives-front wire wire' later s h = record {
  bytes = h.bytes ∙ append_assoc wire wire' later;
  enough = omega (arith, h.enough, length-append {0} wire wire');
}

-- A read of the first part, then the rest.
pub Takes-front :
    {A : Type 0} (n : ℕ) (f : Bytes → Act Socket A) {a : A} (wire wire' later : Bytes) (s : Socket)
    → length wire ≡ n
    → Arrives (wire ++ wire') later s
    → ((s' : Socket) → Arrives wire' later s' → Takes (f wire) a wire' later s')
    → Takes (receiving (read_all n) >>= f) a (wire ++ wire') later s
Takes-front n f wire wire' later s h x rest =
    let first = Takes-read n wire (wire' ++ later) s h (Arrives-front wire wire' later s x) in
    Takes-then f wire wire' later s first (rest _ (Arrives-then wire wire' later s x first))

-- A read of the last part, and what can be checked of it without reading.
pub Takes-last :
    {A : Type 0} (n : ℕ) (f : Bytes → Act Socket A) {a : A} (wire later : Bytes) (s : Socket)
    → length wire ≡ n
    → Arrives wire later s
    → ((s' : Socket) → f wire s' ≡ (ok a, s'))
    → Takes (receiving (read_all n) >>= f) a wire later s
Takes-last n f wire later s h x e =
    let first = Takes-read n wire later s h x in
    record {
      left = first.left;
      does = >>=-ok (receiving (read_all n)) f s _ wire first.does ∙ e _;
      spends = first.spends;
    }

pub checked_frame_lem :
    (frame : Bytes) (type : MessageType) (stats : FrameTransferStats) (s : Socket)
    → decode_frame_type frame ≡ ok type
    → lift (checked_frame stats frame) s ≡ (ok (frame, stats), s)
unfolding lift
checked_frame_lem frame type stats s h = rw h

-- Two guards that let a call pass.
pub guards_pass :
    {A : Type 0} (valid large : Bool) (x y z : A)
    → valid ≡ true
    → large ≡ false
    → (if not valid then x else if large then y else z) ≡ z
guards_pass valid large x y z h k = rw (h, k)

module _ (lib : Snappy) (us : ℕ) (max : ℕ) where
  -- The payload and its checks, once the header has been read.
  pub Takes-rest :
      (frame payload later : Bytes) (type : MessageType) (s : Socket)
      (x : IsFrame frame type payload)
      → length frame ≤ max
      → Arrives payload later s
      → Takes (receive_rest lib us max x.head) (frame, bare_stats (length frame)) payload later s
  unfolding receive_rest payload_exceeds
  Takes-rest frame payload later type s x h a =
      Takes-test (fail frame_too_large) (payload_exceeds max (read_little_u64 (drop 4 x.head)))
        (ground
          (arith, x.size_of, x.sized, h, ap length x.splits, length-append {0} x.head payload))
        (Takes-last (read_little_u64 (drop 4 x.head)) _ payload later s (sym x.size_of) a (λ s'.
          subst
            (λ t.
              lift (checked_frame (bare_stats (length t)) t) s'
              ≡ (ok (frame, bare_stats (length frame)), s'))
            x.splits (checked_frame_lem frame type (bare_stats (length frame)) s' x.typed)))

  pub Takes-frame :
      (frame payload later : Bytes) (type : MessageType) (s : Socket)
      → IsFrame frame type payload
      → length frame ≤ max
      → Arrives frame later s
      → Takes
          (receive_frame_bytes lib us max no_compression)
          (frame, bare_stats (length frame))
          frame
          later
          s
  unfolding receive_frame_bytes
  Takes-frame frame payload later type s x h a =
      subst
        (λ wire.
          Takes (receive_frame_bytes lib us max no_compression) (frame, bare_stats (length frame))
            wire later s)
        (sym x.splits)
        (Takes-front 12 (receive_rest lib us max) x.head payload later s x.sized
          (subst (λ wire. Arrives wire later s) x.splits a)
          (λ s' b. Takes-rest frame payload later type s' x h b))

  pub Sends-frame :
      (frame : Bytes) (s : Socket)
      → s.valid ≡ true
      → length frame ≤ max
      → CanSend (length frame) s
      → Sends (send_frame_bytes lib us frame no_compression max) (bare_stats (length frame)) frame s
  unfolding send_frame_bytes
  Sends-frame frame s v h c =
      let x = Sends-return (bare_stats (length frame)) (Sends-write_all frame s c) in
      record {
        left = x.left;
        does = guards_pass s.valid (ltb max (length frame)) _ _ _ v (ground (arith, h)) ∙ x.does;
        spends = x.spends;
      }

-- Let the sender's socket be valid, the frame be encoded from a type and a payload of less than 2^64 bytes and be no longer
-- than the limit of both ends, and enough calls get through. Then sendFrameBytes without compression sends exactly the
-- bytes of the frame, and whenever these bytes arrive, receiveFrameBytes takes exactly them and returns the frame. Both
-- ends record its size.
pub send_frame_bytes-receive_frame_bytes :
    (lib : Snappy) (us us' max : ℕ) (frame payload : Bytes) (type : MessageType) (s : Socket)
    → length payload < 2 ^ 64
    → encode_frame type payload ≡ ok frame
    → s.valid ≡ true
    → length frame ≤ max
    → CanSend (length frame) s
    → Sends (send_frame_bytes lib us frame no_compression max) (bare_stats (length frame)) frame s
      × ((later : Bytes) (r : Socket)
          → Arrives frame later r
          → Takes
              (receive_frame_bytes lib us' max no_compression)
              (frame, bare_stats (length frame))
              frame
              later
              r)
send_frame_bytes-receive_frame_bytes lib us us' max frame payload type s h e v l c = (
  Sends-frame lib us max frame s v l c,
  λ later r a.
      Takes-frame lib us' max frame payload later type r
        (encode_frame-IsFrame type payload frame h e) l a,
)

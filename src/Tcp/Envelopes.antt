-- ===== src/Tcp/Envelopes.antt =====
-- The same for the envelope of the compressed transport, whichever codec the sender chose.
use mcpd.Base.{
  ℕ, ◌+◌, ◌^◌, ◌<◌, ◌≤◌, ◌≡◌, refl, sym, ap, subst, ◌∙◌, arith, Bool, true, false, not, Bool-cases,
  inl, inr,
}
use mcpd.Base.{◌++◌, length, length-append, drop, some, ltb, ◌==◌, if◌then◌else◌}
use mcpd.Wire.{Bytes, Result, ok, bad_magic, frame_too_large, transport_too_large}
use mcpd.Wire.Act.{◌>>=◌, lift, fail, >>=-ok}
use mcpd.Protocol.{MessageType, decode_frame_type}
use mcpd.Tcp.Sockets.{Socket}
use mcpd.Tcp.Transport.{
  Snappy, FrameTransferStats, snappy, envelope, magic, stored, snappy_codec, envelope_header_bytes,
  send_frame_bytes, send_compressed, read_little_u32, read_little_u64,
}
use mcpd.Tcp.Receive.{
  receive_frame_bytes, receive_envelope, open_payload, checked_frame, envelope_stats,
}
use mcpd.Tcp.Transfers.{Sends, Takes, Arrives, CanSend, Sends-write_all, Sends-return}
use mcpd.Tcp.RoundTrip.{Takes-test, Takes-front, Takes-last, guards_pass, checked_frame_lem}
use mcpd.Tcp.Heads.{head_of, head-length, head-magic, head-codec, head-logical, head-size}

-- What the receiver records of an envelope.
abbrev pub received_stats : ℕ → Bool → ℕ → ℕ → FrameTransferStats
received_stats us compressed logical_size size = record {
  logical_bytes = logical_size;
  wire_bytes = envelope_header_bytes + size;
  compression_wall_us = 0;
  decompression_wall_us = if compressed then us else 0;
  compression_requested = true;
  compressed = compressed;
}

abbrev codec_of : Bool → ℕ
codec_of compressed = if compressed then snappy_codec else stored

codec_of-lt : (b : Bool) → codec_of b < 2 ^ 32
codec_of-lt true = omega arith
codec_of-lt false = omega arith

same_stats :
    (us : ℕ) (b : Bool) (codec logical size logical' size' : ℕ)
    → codec ≡ codec_of b
    → logical ≡ logical'
    → size ≡ size'
    → record {
      logical_bytes = logical;
      wire_bytes = envelope_header_bytes + size;
      compression_wall_us = 0;
      decompression_wall_us = if codec == stored then 0 else us;
      compression_requested = true;
      compressed = codec == snappy_codec;
    }
      ≡ received_stats us b logical' size'
same_stats us true codec logical size logical' size' e f g = rw (e, f, g)
same_stats us false codec logical size logical' size' e f g = rw (e, f, g)

module _ (lib : Snappy) (us : ℕ) (max : ℕ) (frame packed : Bytes) (compressed : Bool) where
  abbrev head : Bytes
  head = head_of (codec_of compressed) (length frame) (length packed)

  module _ (type : MessageType) (typed : decode_frame_type frame ≡ ok type)
      (opens : open_payload lib (codec_of compressed) (length frame) packed ≡ ok frame)
      (small : length frame ≤ max) (small' : length packed ≤ max) (word : max < 2 ^ 64) where
    opened :
        (s : Socket)
        → (lift (
                open_payload lib
                  (read_little_u32 (drop 4 head))
                  (read_little_u64 (drop 8 head))
                  packed)
              >>= λ f. lift (checked_frame (envelope_stats lib us max head) f))
            s
          ≡ (ok (frame, received_stats us compressed (length frame) (length packed)), s)
    opened s =
        let c =
          head-codec (codec_of compressed) (length frame) (length packed)
            (codec_of-lt compressed) in
        let l =
          head-logical (codec_of compressed) (length frame) (length packed)
            (omega (arith, small, word)) in
        let z =
          head-size (codec_of compressed) (length frame) (length packed)
            (omega (arith, small', word)) in
        >>=-ok
          (lift (
            open_payload lib (read_little_u32 (drop 4 head)) (read_little_u64 (drop 8 head))
              packed))
          _ s s frame (unfold lift in rw (c, l, opens) refl)
        ∙ checked_frame_lem frame type _ s typed
        ∙ ap (λ t. (ok (frame, t), s)) (same_stats us compressed _ _ _ _ _ c l z)

    Takes-payload :
        (later : Bytes) (s : Socket)
        → Arrives packed later s
        → Takes
            (receive_envelope lib us max head)
            (frame, received_stats us compressed (length frame) (length packed))
            packed
            later
            s
    unfolding receive_envelope
    Takes-payload later s a =
        let m = head-magic (codec_of compressed) (length frame) (length packed) in
        let l =
          head-logical (codec_of compressed) (length frame) (length packed)
            (omega (arith, small, word)) in
        let z =
          head-size (codec_of compressed) (length frame) (length packed)
            (omega (arith, small', word)) in
        Takes-test (fail bad_magic) (not (read_little_u32 head == magic)) (rw m refl) (
          Takes-test (fail frame_too_large) (ltb max (read_little_u64 (drop 8 head)))
            (ground (arith, l, small))
            (Takes-test (fail transport_too_large) (ltb max (read_little_u64 (drop 16 head)))
              (ground (arith, z, small'))
              (Takes-last (read_little_u64 (drop 16 head)) _ packed later s (sym z) a opened)))

    pub Takes-envelope :
        (later : Bytes) (s : Socket)
        → Arrives (head ++ packed) later s
        → Takes
            (receive_frame_bytes lib us max snappy)
            (frame, received_stats us compressed (length frame) (length packed))
            (head ++ packed)
            later
            s
    unfolding receive_frame_bytes
    Takes-envelope later s a =
        Takes-front 24 (receive_envelope lib us max) head packed later s
          (head-length (codec_of compressed) (length frame) (length packed)) a
          (λ s' b. Takes-payload later s' b)

-- What the receiver needs of the snappy library: it is built in, and a compressed text has the length of the text
-- and is uncompressed to it.
pub record IsSnappy (lib : Snappy) : Type 0 where
  pub built : lib.available ≡ true
  pub measures : (text : Bytes) → lib.uncompressed_length (lib.compress text) ≡ some (length text)
  pub restores : (text : Bytes) → lib.uncompress (lib.compress text) ≡ some text

module _ (lib : Snappy) (us : ℕ) (frame : Bytes) where
  -- Whether the sender compresses, and what it then sends.
  abbrev pub compresses : Bool
  compresses = ltb (length (lib.compress frame) + envelope_header_bytes) (length frame)

  abbrev packed_of : Bytes
  packed_of = if compresses then lib.compress frame else frame

  abbrev pub wire_of : Bytes
  wire_of = envelope (codec_of compresses) (length frame) packed_of

  abbrev pub sent_stats : FrameTransferStats
  sent_stats = record {
    logical_bytes = length frame;
    wire_bytes = length wire_of;
    compression_wall_us = us;
    decompression_wall_us = 0;
    compression_requested = true;
    compressed = compresses;
  }

  packed-le : length packed_of ≤ length frame
  packed-le = elim (Bool-cases compresses) [
    | inl e ↦ rw e (ground (arith, e))
    | inr e ↦ rw e (omega arith)
  ]

  wire_length : envelope_header_bytes + length packed_of ≡ length wire_of
  wire_length = omega (
    arith,
    length-append {0} (head_of (codec_of compresses) (length frame) (length packed_of)) packed_of,
    head-length (codec_of compresses) (length frame) (length packed_of),
  )

  pub wire-le : length wire_of ≤ envelope_header_bytes + length frame
  wire-le = omega (arith, packed-le, wire_length)

  packed-opens :
      IsSnappy lib → open_payload lib (codec_of compresses) (length frame) packed_of ≡ ok frame
  unfolding open_payload
  packed-opens h = elim (Bool-cases compresses) [
    | inl e ↦ rw (e, h.built, h.measures frame, h.restores frame) (ground arith)
    | inr e ↦ rw e (ground arith)
  ]

  pub Sends-compressed :
      (max : ℕ) (s : Socket)
      → IsSnappy lib
      → s.valid ≡ true
      → length frame ≤ max
      → CanSend (length wire_of) s
      → Sends (send_frame_bytes lib us frame snappy max) sent_stats wire_of s
  unfolding send_frame_bytes send_compressed
  Sends-compressed max s h v l c =
      let x = Sends-return sent_stats (Sends-write_all wire_of s c) in
      record {
        left = x.left;
        does =
            guards_pass s.valid (ltb max (length frame)) _ _ _ v (ground (arith, l))
            ∙ built lib.available _ _ h.built
            ∙ x.does;
        spends = x.spends;
      }
    where
      built :
          (b : Bool) (x y : Result FrameTransferStats × Socket)
          → b ≡ true
          → (if b then x else y) ≡ x
      built b x y e = rw e

pub Takes-sent :
    (lib : Snappy) (us us' max : ℕ) (frame : Bytes) (type : MessageType)
    → IsSnappy lib
    → decode_frame_type frame ≡ ok type
    → length frame ≤ max
    → max < 2 ^ 64
    → (later : Bytes) (r : Socket) → Arrives (wire_of lib us frame) later r
    → Takes
        (receive_frame_bytes lib us' max snappy)
        (
          frame,
          record (sent_stats lib us frame) {
            compression_wall_us = 0;
            decompression_wall_us = if compresses lib us frame then us' else 0;
          },
        )
        (wire_of lib us frame)
        later
        r
Takes-sent lib us us' max frame type h t l w later r a =
    subst
      (λ n.
        Takes (receive_frame_bytes lib us' max snappy)
          (
            frame,
            record (received_stats us' (compresses lib us frame) (length frame) 0) {
              wire_bytes = n;
            },
          )
          (wire_of lib us frame) later r)
      (wire_length lib us frame)
      (Takes-envelope lib us' max frame (packed_of lib us frame) (compresses lib us frame) type t
        (packed-opens lib us frame h) l (omega (arith, l, packed-le lib us frame)) w later r a)

-- Let the snappy library be built in and give back what it compressed, the sender's socket be valid, the frame be
-- no longer than the limit of both ends, which is a 64-bit number, and enough calls get through. Then
-- sendFrameBytes in the compressed mode sends an envelope that is at most 24 bytes longer than the frame,
-- and whenever these bytes arrive, receiveFrameBytes takes exactly them and returns the frame. Both ends record the
-- same sizes and whether the frame was compressed.
pub send_compressed-receive_frame_bytes :
    (lib : Snappy) (us us' max : ℕ) (frame : Bytes) (type : MessageType) (s : Socket)
    → IsSnappy lib
    → decode_frame_type frame ≡ ok type
    → s.valid ≡ true
    → length frame ≤ max
    → max < 2 ^ 64
    → CanSend (length (wire_of lib us frame)) s
    → Sends
        (send_frame_bytes lib us frame snappy max)
        (sent_stats lib us frame)
        (wire_of lib us frame)
        s
      × (length (wire_of lib us frame) ≤ envelope_header_bytes + length frame)
      × ((later : Bytes) (r : Socket)
          → Arrives (wire_of lib us frame) later r
          → Takes
              (receive_frame_bytes lib us' max snappy)
              (
                frame,
                record (sent_stats lib us frame) {
                  compression_wall_us = 0;
                  decompression_wall_us = if compresses lib us frame then us' else 0;
                },
              )
              (wire_of lib us frame)
              later
              r)
send_compressed-receive_frame_bytes lib us us' max frame type s h t v l w c = (
  Sends-compressed lib us frame max s h v l c,
  wire-le lib us frame,
  Takes-sent lib us us' max frame type h t l w,
)

-- ===== src/Tcp/Frames.antt =====
-- Where the size and the type of a frame stand.
use mcpd.Base.{
  ℕ, ◌^◌, ◌<◌, ◌≤◌, ◌≡◌, refl, sym, ap, ◌∙◌, arith, ◌++◌, [], length, length-append, drop,
}
use mcpd.Wire.{
  Bytes, Result, ok, err, ◌>>◌, write_u32, write_u64, run_writer, little_bytes, shifts_32,
  shifts_64,
}
use mcpd.Wire.Reads.{>>=-ok}
use mcpd.Wire.Reads.Scalars.{write_shifts_lem, read_shifts_32, read_shifts_64}
use mcpd.Protocol.{MessageType, type_code, decode_frame_type, encode_frame}
use mcpd.Protocol.RoundTrip.Frames.{
  header, header-Reads, type_code-lt, decode_frame_view_lem, encode_frame_lem,
}
use mcpd.Tcp.Transport.{read_little_u32, read_little_u64}

pub read_little_u32_lem :
    (v : ℕ) (rest : Bytes) → v < 2 ^ 32 → read_little_u32 (little_bytes shifts_32 v ++ rest) ≡ v
unfolding read_little_u32
read_little_u32_lem v rest h = rw (read_shifts_32 v rest) (omega (arith, h))

pub read_little_u64_lem :
    (v : ℕ) (rest : Bytes) → v < 2 ^ 64 → read_little_u64 (little_bytes shifts_64 v ++ rest) ≡ v
unfolding read_little_u64
read_little_u64_lem v rest h = rw (read_shifts_64 v rest) (omega (arith, h))

abbrev written_bytes : Result (Unit {0} × Bytes) → Bytes
written_bytes (ok (u, bytes)) = bytes
written_bytes (err e) = []

header_written :
    (type : MessageType) (n : ℕ)
    → (write_u32 (type_code type) >> write_u64 n) []
      ≡ ok (tt, little_bytes shifts_32 (type_code type) ++ little_bytes shifts_64 n)
header_written type n =
    >>=-ok (write_u32 (type_code type)) _ [] (little_bytes shifts_32 (type_code type)) tt
      (unfold write_u32 in write_shifts_lem shifts_32 (type_code type) [])
    ∙ (unfold write_u64 in write_shifts_lem shifts_64 n (little_bytes shifts_32 (type_code type)))

pub header_lem :
    (type : MessageType) (n : ℕ) (h : n < 2 ^ 64)
    → header type n h ≡ little_bytes shifts_32 (type_code type) ++ little_bytes shifts_64 n
unfolding little_bytes
header_lem type n h =
    ap written_bytes (sym ((header-Reads type n h).written []) ∙ header_written type n)

-- The bytes of a frame, with what its header says.
pub record IsFrame (frame : Bytes) (type : MessageType) (payload : Bytes) : Type 0 where
  pub head : Bytes
  pub fits : length payload < 2 ^ 64
  pub splits : frame ≡ head ++ payload
  pub sized : length head ≡ 12
  pub code_of : read_little_u32 head ≡ type_code type
  pub size_of : read_little_u64 (drop 4 head) ≡ length payload
  pub typed : decode_frame_type frame ≡ ok type

pub encode_frame-IsFrame :
    (type : MessageType) (payload frame : Bytes)
    → length payload < 2 ^ 64
    → encode_frame type payload ≡ ok frame
    → IsFrame frame type payload
encode_frame-IsFrame type payload frame h e = record {
  head = header type (length payload) h;
  fits = h;
  splits = same;
  sized = (header-Reads type (length payload) h).sized;
  code_of =
      ap read_little_u32 (header_lem type (length payload) h)
      ∙ read_little_u32_lem (type_code type) _ (type_code-lt type);
  size_of =
      ap (λ bs. read_little_u64 (drop 4 bs)) (header_lem type (length payload) h)
      ∙ (unfold little_bytes in read_little_u64_lem (length payload) [] h);
  typed =
      ap decode_frame_type same
      ∙ (unfold decode_frame_type in rw (decode_frame_view_lem type payload h) refl);
}
  where
    same : frame ≡ header type (length payload) h ++ payload
    same = cc (e, encode_frame_lem type payload h)

-- A frame is longer than its payload.
pub length-encode_frame :
    (type : MessageType) (payload frame : Bytes)
    → encode_frame type payload ≡ ok frame
    → length payload ≤ length frame
unfolding encode_frame run_writer
length-encode_frame type payload frame e =
    omega (arith, ap length same, length-append {0} head payload)
  where
    head : Bytes
    head = little_bytes shifts_32 (type_code type) ++ little_bytes shifts_64 (length payload)

    written : encode_frame type payload ≡ ok (head ++ payload)
    written = rw (header_written type (length payload)) refl

    same : head ++ payload ≡ frame
    same = cc (e, written)

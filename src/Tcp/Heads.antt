-- ===== src/Tcp/Heads.antt =====
-- Where the sizes and the codec stand in the header of an envelope.
use mcpd.Base.{ℕ, ◌^◌, ◌<◌, ◌≡◌, refl, arith}
use mcpd.Base.{[], length, drop}
use mcpd.Wire.{Bytes, little_bytes}
use mcpd.Tcp.Transport.{
  magic, read_little_u32, read_little_u64, append_little_u32, append_little_u64,
}
use mcpd.Tcp.Frames.{read_little_u32_lem, read_little_u64_lem}

-- The first 24 bytes of an envelope, and what stands where in them.
abbrev pub head_of : ℕ → ℕ → ℕ → Bytes
head_of codec logical_size size =
    append_little_u64
      (append_little_u64 (append_little_u32 (append_little_u32 [] magic) codec) logical_size) size

module _ (codec logical_size size : ℕ) where
  pub head-length : length (head_of codec logical_size size) ≡ 24
  unfolding append_little_u32 append_little_u64 little_bytes
  head-length = refl

  pub head-magic : read_little_u32 (head_of codec logical_size size) ≡ magic
  unfolding append_little_u32 append_little_u64 little_bytes
  head-magic = read_little_u32_lem magic _ (omega arith)

  pub head-codec :
      codec < 2 ^ 32 → read_little_u32 (drop 4 (head_of codec logical_size size)) ≡ codec
  unfolding append_little_u32 append_little_u64 little_bytes
  head-codec h = read_little_u32_lem codec _ h

  pub head-logical :
      logical_size < 2 ^ 64
      → read_little_u64 (drop 8 (head_of codec logical_size size)) ≡ logical_size
  unfolding append_little_u32 append_little_u64 little_bytes
  head-logical h = read_little_u64_lem logical_size _ h

  pub head-size : size < 2 ^ 64 → read_little_u64 (drop 16 (head_of codec logical_size size)) ≡ size
  unfolding append_little_u32 append_little_u64 little_bytes
  head-size h = read_little_u64_lem size [] h

-- ===== src/Protocol/RoundTrip/Frames.antt =====
-- Frames: src/protocol.cpp, encodeFrame and decodeFrame.
use mcpd.Base.{ℕ, ◌+◌, ◌-◌, ◌^◌, ◌<◌, ◌≡◌, refl, ap, ◌∙◌, some, [], ◌++◌, length, take, arith}
use mcpd.Base.{length-append}
use mcpd.Base.{
  leb, ◌==◌, Bool, true, false, Bool-cases, inl, inr, ==_iff, drop-append, take-length_self, ◌≢◌,
}
use mcpd.Wire.{Bytes, Error, Result, ok, err, M, ◌>>=◌, ◌>>◌, pure, require, run_reader}
use mcpd.Wire.{write_u32, write_u64, unexpected_message_type, empty, require_done}
use mcpd.Wire.Reads.{Reads, Reads-seq, Reads-after, Reads-check, >>=-ok, run_writer-Reads}
use mcpd.Wire.Reads.Ends.{Ends, Ends-of}
use mcpd.Wire.Reads.Scalars.{Reads-u32, Reads-u64}
use mcpd.Protocol.{MessageType, type_code, known_message_type, checked_type, encode_frame}
use mcpd.Protocol.{DecodedFrameView, read_frame_view, decode_frame_view, decode_frame}
use mcpd.Protocol.{
  decode_expected_frame, encode_message, decode_message, expected, whole, payload_of,
}
use mcpd.Protocol.{hello}

-- The codes are known, and no two types share one.
pub known-type_code : (type : MessageType) → known_message_type (type_code type) ≡ some type
unfolding known_message_type
known-type_code hello = refl
known-type_code type = refl

pub type_code-lt : (type : MessageType) → type_code type < 2 ^ 32
type_code-lt hello = omega arith
type_code-lt type = omega arith

require-true : (b : Bool) (e : Error) (rest : Bytes) → b ≡ true → require b e rest ≡ ok (tt, rest)
unfolding require pure
require-true b e rest h = rw h

abbrev pub view_of : MessageType → ℕ → DecodedFrameView
view_of type n = record { type = type; payload_offset = 12; payload_size = n }

checked-type_code :
    (type : MessageType) (rest : Bytes)
    → checked_type (known_message_type (type_code type)) rest ≡ ok (type, rest)
unfolding checked_type pure
checked-type_code type rest = rw known-type_code

-- The header that is written is the header that is read.
pub header-Reads :
    (type : MessageType) (n : ℕ)
    → n < 2 ^ 64
    → Reads
        (write_u32 (type_code type) >> write_u64 n)
        (read_frame_view (12 + n))
        (view_of type n)
        12
unfolding read_frame_view
header-Reads type n h =
    Reads-after _ (λ bs. require-true _ _ bs (ground arith))
      (Reads-seq _ (Reads-u32 (type_code type) (type_code-lt type)) (
        Reads-after _ (checked-type_code type) (
          Reads-check _ (Reads-u64 n h) (λ rest.
            >>=-ok (require (leb n (2 ^ 64 - 1)) _) _ rest rest tt
              (require-true _ _ rest (ground arith))
            ∙ >>=-ok (require (12 + n - 12 == n) _) _ rest rest tt
                (require-true _ _ rest (ground arith))
            ∙ (unfold pure in refl)))))

-- A frame of `payload` is its header, then the payload.
abbrev pub header : (type : MessageType) (n : ℕ) → n < 2 ^ 64 → Bytes
header type n h = (header-Reads type n h).bytes

pub encode_frame_lem :
    (type : MessageType) (payload : Bytes) (h : length payload < 2 ^ 64)
    → encode_frame type payload ≡ ok (header type (length payload) h ++ payload)
unfolding encode_frame
encode_frame_lem type payload h = rw (run_writer-Reads (header-Reads type (length payload) h))

pub length-frame :
    (type : MessageType) (payload : Bytes) (h : length payload < 2 ^ 64)
    → length (header type (length payload) h ++ payload) ≡ 12 + length payload
length-frame type payload h =
    let x = header-Reads type (length payload) h in
    omega (arith, length-append {0} x.bytes payload, x.sized)

pub decode_frame_view_lem :
    (type : MessageType) (payload : Bytes) (h : length payload < 2 ^ 64)
    → decode_frame_view (header type (length payload) h ++ payload)
      ≡ ok (view_of type (length payload))
unfolding decode_frame_view run_reader
decode_frame_view_lem type payload h =
    rw (length-frame type payload h, (header-Reads type (length payload) h).reads payload) refl

pub payload_of-frame :
    (type : MessageType) (payload : Bytes) (h : length payload < 2 ^ 64)
    → payload_of (header type (length payload) h ++ payload) (view_of type (length payload))
      ≡ payload
payload_of-frame type payload h =
    ap (take (length payload))
      (drop-append 12 _ payload ((header-Reads type (length payload) h).sized))
    ∙ take-length_self payload

decode_frame_lem :
    (type : MessageType) (payload : Bytes) (h : length payload < 2 ^ 64)
    → decode_frame (header type (length payload) h ++ payload)
      ≡ ok (record { type = type; payload = payload })
unfolding decode_frame
decode_frame_lem type payload h =
    rw (decode_frame_view_lem type payload h) (
      ap (λ (p : Bytes). ok (record { type = type; payload = p }))
        (payload_of-frame type payload h))

-- Some frame of `size` bytes is what `encoded` gives, and `decode` reads `a` from it.
abbrev pub Travels : {A : Type 0} → Result Bytes → (Bytes → Result A) → A → ℕ → Type 0
Travels encoded decode a size =
    (frame : Bytes) × (encoded ≡ ok frame) × (length frame ≡ size) × (decode frame ≡ ok a)

-- Every payload below 2^64 bytes is framed with 12 bytes more, and decodeFrame gives back the type
-- and the payload.
pub decode_frame-encode_frame :
    (type : MessageType) (payload : Bytes)
    → length payload < 2 ^ 64
    → Travels
        (encode_frame type payload)
        decode_frame
        (record { type = type; payload = payload })
        (12 + length payload)
decode_frame-encode_frame type payload h = (
  header type (length payload) h ++ payload,
  encode_frame_lem type payload h,
  length-frame type payload h,
  decode_frame_lem type payload h,
)

pub require_done_lem : require_done [] ≡ ok (tt, [])
unfolding require_done ◌>>=◌ empty require pure
require_done_lem = refl

pub run_reader-Ends :
    {A : Type 0} {w : M (Unit {0})} {r : M A} {a : A} {n : ℕ} (x : Ends w r a n)
    → run_reader (whole r) x.bytes ≡ ok a
run_reader-Ends {A} {w} {r} {a} x = unfold run_reader in rw done
  where
    done : (whole r) x.bytes ≡ ok (a, [])
    done =
        >>=-ok r _ x.bytes [] a x.reads
        ∙ >>=-ok require_done (λ _. pure a) [] [] tt require_done_lem
        ∙ (unfold pure in refl)

type_code_injective :
    (type wanted : MessageType) → type_code type ≡ type_code wanted → type ≡ wanted
type_code_injective type wanted e =
    cc (known-type_code type, known-type_code wanted, ap known_message_type e)

type_ne : (type wanted : MessageType) → type ≢ wanted → expected type wanted ≡ false
type_ne type wanted h = elim (Bool-cases (expected type wanted)) [
  | inl e ↦ absurd (h (type_code_injective type wanted ((==_iff _ _).0 e)))
  | inr e ↦ e
]

pub type_eq_self : (type : MessageType) → expected type type ≡ true
type_eq_self hello = refl
type_eq_self type = refl

-- How the decoders of single messages follow: the body reads back what the body wrote.
pub Travels-message :
    {A : Type 0} (type : MessageType) {body : M (Unit {0})} {read : M A} {a : A} {n : ℕ}
    → n < 2 ^ 64
    → Reads body read a n
    → Travels (encode_message type body) (decode_message type read) a (12 + n)
Travels-message type {body} {read} {a} {n} h x = (
  frame,
  (unfold encode_message in rw (run_writer-Reads x) (encode_frame_lem type x.bytes h')),
  length-frame type x.bytes h' ∙ ap (λ (t : ℕ). 12 + t) x.sized,
  (unfold decode_message decode_expected_frame Ends-of in
      rw (decode_frame_lem type x.bytes h', type_eq_self type) (run_reader-Ends (Ends-of x))),
)
  where
    h' : length x.bytes < 2 ^ 64
    h' = omega (arith, x.sized)

    frame : Bytes
    frame = header type (length x.bytes) h' ++ x.bytes

-- A frame of another type than the wanted one is refused, whatever its payload of fewer than 2^64 bytes
-- and whatever would read it.
pub decode_message_other_type :
    {A : Type 0} (type wanted : MessageType) (payload frame : Bytes) (read : M A)
    → length payload < 2 ^ 64
    → type ≢ wanted
    → encode_frame type payload ≡ ok frame
    → decode_message wanted read frame ≡ err unexpected_message_type
unfolding decode_message decode_expected_frame
decode_message_other_type type wanted payload frame read h ne e =
    rw (frame_eq, decode_frame_lem type payload h, type_ne type wanted ne) refl
  where
    frame_eq : frame ≡ header type (length payload) h ++ payload
    frame_eq = cc (e, encode_frame_lem type payload h)

-- ===== src/Wire/Defs.antt =====
-- Bytes, the exceptions that the sources throw (one constructor for each message), and the monad.
use mcpd.Base.{ℕ, ◌<◌, Bool, true, false, List}

-- A std::vector<std::uint8_t>, or a std::string, which the protocol treats as bytes.
abbrev pub Bytes : Type 0
Bytes = List ℕ

abbrev pub IsByte : ℕ → Type 0
IsByte b = b < 256

pub data Error : Type 0 where
  -- protocol.cpp, delta_codec.cpp
  truncated_payload invalid_boolean trailing_bytes : Error
  integer_out_of_range container_too_large : Error
  view_out_of_bounds frame_header_truncated unknown_message_type : Error
  payload_too_large payload_size_mismatch unexpected_message_type : Error
  truncated_endpoints arc_capacity_count arc_capacity_out_of_range : Error
  varint_too_large varint_too_long alpha_delta_overflow alpha_sum_overflow : Error
  label_not_binary duplicate_label delta_before_full_sync missing_label : Error
  -- tcp.cpp
  buffers_too_large invalid_socket frame_too_large : Error
  write_failed read_failed : Bytes → Error
  closed_during_write closed_during_read : Error
  snappy_unavailable received_without_snappy bad_magic transport_too_large stored_size_mismatch :
      Error
  snappy_length_failed snappy_size_mismatch snappy_failed unknown_codec : Error
  -- runtime.cpp
  unsupported_version big_endian_worker hello_without_snappy worker_without_snappy : Error
  expected_hello expected_ready expected_result expected_batch_result : Error
  remote_error : Bytes → Error
  -- What any other code throws, by its text.
  other_error : Bytes → Error

pub data Result {ℓ} (A : Type ℓ) : Type ℓ where
  ok : A → Result A
  err : Error → Result A

-- What follows a call that may throw.
abbrev pub and_then {ℓ κ} : {A : Type ℓ} {B : Type κ} → Result A → (A → Result B) → Result B
and_then (ok a) f = f a
and_then (err e) f = err e

abbrev pub M : Type 0 → Type 0
M A = Bytes → Result (A × Bytes)

abbrev after : {A B : Type 0} → (A → M B) → A × Bytes → Result (B × Bytes)
after f (a, bs) = f a bs

infixl 5 ◌>>=◌ ◌>>◌
unfoldable pub ◌>>=◌ : {A B : Type 0} → M A → (A → M B) → M B
◌>>=◌ m f bs = and_then (m bs) (after f)

abbrev pub ◌>>◌ : {A B : Type 0} → M A → M B → M B
m >> n = m >>= λ _. n

unfoldable pub pure : {A : Type 0} → A → M A
pure a bs = ok (a, bs)

unfoldable pub throw : {A : Type 0} → Error → M A
throw e bs = err e

-- require(condition, message)
unfoldable pub require : Bool → Error → M (Unit {0})
unfolding pure throw
require true e = pure tt
require false e = throw e

abbrev state_of : {A : Type 0} → A × Bytes → Result Bytes
state_of (a, bs) = ok bs

abbrev value_of : {A : Type 0} → A × Bytes → Result A
value_of (a, bs) = ok a

-- `Writer writer; body; writer.bytes()`
unfoldable pub run_writer : M (Unit {0}) → Result Bytes
run_writer body = and_then (body List.[]) state_of

-- `Reader reader(payload); body`
unfoldable pub run_reader : {A : Type 0} → M A → Bytes → Result A
run_reader body payload = and_then (body payload) value_of

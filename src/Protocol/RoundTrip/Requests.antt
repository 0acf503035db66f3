-- ===== src/Protocol/RoundTrip/Requests.antt =====
-- The stateless encodings of solve requests and of alpha updates.
use mcpd.Base.{ℕ, ◌+◌, ◌*◌, ◌^◌, ◌<◌, List, map, length, All, arith}
use mcpd.Base.Int.{IsI32, IsI64}
use mcpd.Wire.{write_vector, read_vector}
use mcpd.Wire.Reads.{Reads, Reads-seq, Reads-last, Reads-resize}
use mcpd.Wire.Reads.Scalars.{Reads-i32, Reads-long}
use mcpd.Wire.Reads.Vectors.{total, total-const, Reads-vector}
use mcpd.Protocol.{AlphaUpdate, AlphaUpdateMessage, PartitionSolveRequest}
use mcpd.Protocol.{alpha_update, solve_round_request, solve_round_batch_request}
use mcpd.Protocol.{write_alpha_update, read_alpha_update}
use mcpd.Protocol.{write_request_payload}
use mcpd.Protocol.{read_request_payload}
use mcpd.Protocol.{write_alpha_update_message}
use mcpd.Protocol.{
  read_alpha_update_message, encode_solve_round_request, decode_solve_round_request,
}
use mcpd.Protocol.{encode_solve_round_batch_request, decode_solve_round_batch_request}
use mcpd.Protocol.{encode_alpha_update, decode_alpha_update}
use mcpd.Protocol.RoundTrip.Frames.{Travels, Travels-message}

abbrev pub IsAlphaUpdate : AlphaUpdate → Type 0
IsAlphaUpdate u = IsI32 u.constraint_id × IsI64 u.alpha

pub record IsRequest (m : PartitionSolveRequest) : Type 0 where
  pub round : IsI64 m.round_id
  pub partition : IsI32 m.partition_id
  pub scale : IsI64 m.scale
  pub strength : IsI32 m.regularization_strength
  pub count : length m.alpha_updates < 2 ^ 32
  pub updates : All IsAlphaUpdate m.alpha_updates

-- What arrives: the fields that travel, over those of a default-constructed struct.
abbrev pub received_update : AlphaUpdate → AlphaUpdate → AlphaUpdate
received_update blank u = record blank { constraint_id = u.constraint_id; alpha = u.alpha }

abbrev pub received_request : AlphaUpdate → PartitionSolveRequest → PartitionSolveRequest
received_request blank m = record m { alpha_updates = map (received_update blank) m.alpha_updates }

abbrev pub request_size : PartitionSolveRequest → ℕ
request_size m = 28 + length m.alpha_updates * 12

module _ (blank : AlphaUpdate) where
  Reads-update :
      (u : AlphaUpdate)
      → IsAlphaUpdate u
      → Reads (write_alpha_update u) (read_alpha_update blank) (received_update blank u) 12
  unfolding write_alpha_update read_alpha_update
  Reads-update u v =
      Reads-seq _ (Reads-i32 u.constraint_id v.0) (Reads-last _ (Reads-long u.alpha v.1))

  Reads-updates :
      (us : List AlphaUpdate)
      → length us < 2 ^ 32
      → All IsAlphaUpdate us
      → Reads
          (write_vector us write_alpha_update)
          (read_vector (read_alpha_update blank))
          (map (received_update blank) us)
          (4 + length us * 12)
  Reads-updates us n v = Reads-resize _ (omega (arith, total-const {0} 12 us)) (
      Reads-vector IsAlphaUpdate write_alpha_update (read_alpha_update blank)
        (received_update blank) (λ _. 12) Reads-update us n v)

  pub Reads-request :
      (m : PartitionSolveRequest)
      → IsRequest m
      → Reads
          (write_request_payload m)
          (read_request_payload blank)
          (received_request blank m)
          (request_size m)
  unfolding write_request_payload read_request_payload
  Reads-request m v = Reads-resize _ (omega arith) (
      Reads-seq _ (Reads-long m.round_id v.round) (
        Reads-seq _ (Reads-i32 m.partition_id v.partition) (
          Reads-seq _ (Reads-long m.scale v.scale) (
            Reads-seq _ (Reads-i32 m.regularization_strength v.strength)
              (Reads-last _ (Reads-updates m.alpha_updates v.count v.updates))))))

-- A request whose fields fit is encoded in 40 bytes and 12 for each alpha update; decoding gives back
-- every field but `last_alpha` and `alpha_momentum` of the updates, which have their defaults.
pub decode_request-encode_request :
    (blank : AlphaUpdate) (m : PartitionSolveRequest)
    → IsRequest m
    → Travels
        (encode_solve_round_request m)
        (decode_solve_round_request blank)
        (received_request blank m)
        (12 + request_size m)
unfolding encode_solve_round_request decode_solve_round_request
decode_request-encode_request blank m v =
    Travels-message solve_round_request (omega (arith, v.count)) (Reads-request blank m v)

-- A batch of fewer than 2^32 requests that fit, of fewer than 2^64 bytes together, comes back with
-- its requests in their order, each as it would come back alone.
pub decode_batch_request-encode_batch_request :
    (blank : AlphaUpdate) (ms : List PartitionSolveRequest)
    → length ms < 2 ^ 32
    → 4 + total request_size ms < 2 ^ 64
    → All IsRequest ms
    → Travels
        (encode_solve_round_batch_request ms)
        (decode_solve_round_batch_request blank)
        (map (received_request blank) ms)
        (12 + (4 + total request_size ms))
unfolding encode_solve_round_batch_request decode_solve_round_batch_request
decode_batch_request-encode_batch_request blank ms n t v =
    Travels-message solve_round_batch_request t (
      Reads-vector IsRequest write_request_payload (read_request_payload blank)
        (received_request blank) request_size (Reads-request blank) ms n v)

-- An ALPHA_UPDATE whose fields fit, with fewer than 2^32 updates, comes back with its partition and its
-- updates, as a request's updates do.
pub decode_alpha_update-encode_alpha_update :
    (blank : AlphaUpdate) (m : AlphaUpdateMessage)
    → IsI32 m.partition_id
    → length m.alpha_updates < 2 ^ 32
    → All IsAlphaUpdate m.alpha_updates
    → Travels
        (encode_alpha_update m)
        (decode_alpha_update blank)
        (record m { alpha_updates = map (received_update blank) m.alpha_updates })
        (12 + (4 + (4 + length m.alpha_updates * 12)))
unfolding encode_alpha_update decode_alpha_update write_alpha_update_message
    read_alpha_update_message
decode_alpha_update-encode_alpha_update blank m p n v = Travels-message alpha_update (omega arith) (
    Reads-seq _ (Reads-i32 m.partition_id p)
      (Reads-last _ (Reads-updates blank m.alpha_updates n v)))

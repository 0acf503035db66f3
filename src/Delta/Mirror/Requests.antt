-- ===== src/Delta/Mirror/Requests.antt =====
-- Solve requests: the frame that one end encodes is decoded by the other, and both update their baselines.
use mcpd.Delta.Mirror.Differences.{DifferencesFit, Encodes-DifferencesFit}
use mcpd.Base.{ℕ, ◌+◌, ◌*◌, ◌^◌, ◌≤◌, ◌<◌, ◌≡◌, sym, ap, subst, arith, List, [], ◌∷◌, All, length}
use mcpd.Base.Int.{IsI32, IsI64}
use mcpd.Wire.{Result, ok, err, read_vector, write_vector}
use mcpd.Wire.Reads.{Reads, Reads-seq, Reads-last}
use mcpd.Wire.Reads.Scalars.{Reads-i32, Reads-long}
use mcpd.Wire.Reads.Vectors.{total, Reads-vector, map-same}
use mcpd.Protocol.{PartitionSolveRequest}
use mcpd.Delta.Varint.{zig_zag_encode}
use mcpd.Delta.State.{TemporalPartitionState, TemporalSolveCodecState}
use mcpd.Delta.Alphas.{
  EncodedAlphaUpdate, write_encoded_alpha, read_encoded_alpha, encode_alphas, decode_alphas,
}
use mcpd.Delta.Mirror.Frames.{Reaches, Reaches-Mirrors}
use mcpd.Protocol.{solve_round_request}
use mcpd.Delta.Messages.{
  encode_delta_solve_round_request, decode_delta_solve_round_request, write_request, read_request,
}
use mcpd.Delta.Mirror.Groups.{var_size, var_size-le, Reads-var_i64}
use mcpd.Delta.Mirror.Alphas.{
  IsAlpha, IsEncodedAlpha, latest, changed, length-changed, mirrored_lem,
}
use mcpd.Delta.Mirror.Actions.{Mirrors, Mirrors-resize, Mirrors-plain, Mirrors-exchange, store}

abbrev pub encoded_size : EncodedAlphaUpdate → ℕ
encoded_size e = 4 + var_size 10 (zig_zag_encode e.value)

Reads-encoded_alpha :
    (e : EncodedAlphaUpdate)
    → IsEncodedAlpha e
    → Reads (write_encoded_alpha e) read_encoded_alpha e (encoded_size e)
unfolding write_encoded_alpha read_encoded_alpha
Reads-encoded_alpha e h =
    Reads-seq _ (Reads-i32 e.constraint_id h.0) (Reads-last _ (Reads-var_i64 e.value h.1))

Reads-encoded_alphas :
    (es : List EncodedAlphaUpdate)
    → length es < 2 ^ 32
    → All IsEncodedAlpha es
    → Reads
        (write_vector es write_encoded_alpha)
        (read_vector read_encoded_alpha)
        es
        (4 + total encoded_size es)
Reads-encoded_alphas es n h =
    subst
      (λ xs.
        Reads (write_vector es write_encoded_alpha) (read_vector read_encoded_alpha) xs
          (4 + total encoded_size es))
      (map-same es)
      (Reads-vector IsEncodedAlpha write_encoded_alpha read_encoded_alpha (λ e. e) encoded_size
        Reads-encoded_alpha es n h)

pub record IsRequestHead (m : PartitionSolveRequest) : Type 0 where
  pub round : IsI64 m.round_id
  pub partition : IsI32 m.partition_id
  pub scale : IsI64 m.scale
  pub strength : IsI32 m.regularization_strength
  pub updates : All IsAlpha m.alpha_updates
  pub count : length m.alpha_updates < 2 ^ 32

abbrev pub partition_of : PartitionSolveRequest → TemporalSolveCodecState → TemporalPartitionState
partition_of m s = s.partitions m.partition_id

-- What the worker hands on: the updates that changed a baseline, without last_alpha and alpha_momentum.
abbrev pub received_request :
    PartitionSolveRequest → TemporalSolveCodecState → PartitionSolveRequest
received_request m s = record m { alpha_updates = changed m.alpha_updates (partition_of m s) }

-- The baselines after the request: the last alpha of every constraint that it names.
abbrev pub after_request : PartitionSolveRequest → TemporalSolveCodecState → TemporalSolveCodecState
after_request m s = store s m.partition_id (record (partition_of m s) {
  alpha_by_constraint = latest m.alpha_updates (partition_of m s).alpha_by_constraint;
})

pub Mirrors-request :
    (m : PartitionSolveRequest) (s : TemporalSolveCodecState) (es : List EncodedAlphaUpdate)
    (p : TemporalPartitionState)
    → IsRequestHead m
    → encode_alphas m.alpha_updates (partition_of m s) ≡ (ok es, p)
    → Mirrors
        (write_request m)
        read_request
        (received_request m s)
        s
        (after_request m s)
        (24 + (4 + total encoded_size es))
unfolding write_request read_request
Mirrors-request m s es p h e =
    let (d, q, i, k) = mirrored_lem m.alpha_updates (partition_of m s) p es h.updates e in
    Mirrors-resize _ (omega arith) (
      subst
        (λ p'.
          Mirrors (write_request m) read_request (received_request m s) s
            (store s m.partition_id p') (8 + (4 + (8 + (4 + (4 + total encoded_size es))))))
        q
        (Mirrors-plain _ (Reads-long m.round_id h.round) (
          Mirrors-plain _ (Reads-i32 m.partition_id h.partition) (
            Mirrors-plain _ (Reads-long m.scale h.scale) (
              Mirrors-plain _ (Reads-i32 m.regularization_strength h.strength) (
                Mirrors-exchange m.partition_id (encode_alphas m.alpha_updates)
                  (λ encoded. write_vector encoded write_encoded_alpha)
                  (read_vector read_encoded_alpha) decode_alphas _ e
                  (Reads-encoded_alphas es
                    (omega (arith, k, length-changed m.alpha_updates (partition_of m s), h.count))
                    i)
                  d))))))

encoded_size-le : (es : List EncodedAlphaUpdate) → total encoded_size es ≤ length es * 15
encoded_size-le [] = omega arith
encoded_size-le (e ∷ es) =
    omega (arith, encoded_size-le es, var_size-le 10 (zig_zag_encode e.value))

-- What the other end does with a request whose alphas were encoded to `es`.
pub Reaches-request :
    (m : PartitionSolveRequest) (s : TemporalSolveCodecState) (es : List EncodedAlphaUpdate)
    (p : TemporalPartitionState)
    → IsRequestHead m
    → encode_alphas m.alpha_updates (partition_of m s) ≡ (ok es, p)
    → Reaches
        (encode_delta_solve_round_request m)
        decode_delta_solve_round_request
        (received_request m s)
        s
        (after_request m s)
        (12 + (24 + (4 + total encoded_size es)))
unfolding encode_delta_solve_round_request decode_delta_solve_round_request
Reaches-request m s es p h e =
    let k = (mirrored_lem m.alpha_updates (partition_of m s) p es h.updates e).3 in
    Reaches-Mirrors solve_round_request
      (omega
        (arith, k, h.count, encoded_size-le es, length-changed m.alpha_updates (partition_of m s)))
      (Mirrors-request m s es p h e)

-- A request fits its fields, and no difference of an alpha to the one it replaces leaves the 64 bits.
abbrev pub IsSendable : PartitionSolveRequest → TemporalSolveCodecState → Type 0
IsSendable m s =
    IsRequestHead m × DifferencesFit m.alpha_updates (partition_of m s).alpha_by_constraint

abbrev pub encoded_total : Result (List EncodedAlphaUpdate) → ℕ
encoded_total (ok es) = total encoded_size es
encoded_total (err e) = 0

abbrev pub delta_request_size : PartitionSolveRequest → TemporalSolveCodecState → ℕ
delta_request_size m s =
    24 + (4 + encoded_total (encode_alphas m.alpha_updates (partition_of m s)).0)

pub Mirrors-sendable :
    (m : PartitionSolveRequest) (s : TemporalSolveCodecState)
    → IsSendable m s
    → Mirrors
        (write_request m)
        read_request
        (received_request m s)
        s
        (after_request m s)
        (delta_request_size m s)
Mirrors-sendable m s (h, d) =
    let (es, p, e) = Encodes-DifferencesFit m.alpha_updates (partition_of m s) h.updates d in
    Mirrors-resize _ (ap (λ r. 24 + (4 + encoded_total r.0)) (sym e)) (Mirrors-request m s es p h e)

-- Let a request fit its fields, and no difference of an alpha to the one it replaces leave the 64 bits. Then
-- encoding succeeds, and the frame is decoded by a receiver with the same baselines to a request with the same
-- numbers and with the updates that change a baseline, in order: each has its constraint_id and full alpha, but 0
-- for last_alpha and alpha_momentum, which the encoding drops. Both ends come to the same baselines, with the
-- last alpha of each constraint that the request names.
pub decode_delta_request-encode_delta_request :
    (m : PartitionSolveRequest) (s : TemporalSolveCodecState)
    → IsSendable m s
    → Reaches
        (encode_delta_solve_round_request m)
        decode_delta_solve_round_request
        (received_request m s)
        s
        (after_request m s)
        (12 + delta_request_size m s)
decode_delta_request-encode_delta_request m s (h, d) =
    let (es, p, e) = Encodes-DifferencesFit m.alpha_updates (partition_of m s) h.updates d in
    subst
      (Reaches (encode_delta_solve_round_request m) decode_delta_solve_round_request
        (received_request m s) s (after_request m s))
      (ap (λ r. 12 + (24 + (4 + encoded_total r.0))) (sym e)) (Reaches-request m s es p h e)

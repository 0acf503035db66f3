-- ===== src/Delta/Mirror/Batches.antt =====
-- Batches: several messages in one frame, each over the baselines that the ones before it left.
use mcpd.Base.{ℕ, ◌+◌, ◌^◌, ◌<◌, List, [], ◌∷◌, length}
use mcpd.Wire.{checked_size}
use mcpd.Wire.Reads.Scalars.{Reads-u32, checked_size_lem}
use mcpd.Protocol.{
  PartitionSolveRequest, PartitionSolveResult, solve_round_batch_request, solve_round_batch_result,
}
use mcpd.Protocol.RoundTrip.Results.{Reads-timing}
use mcpd.Delta.State.{TemporalSolveCodecState, T}
use mcpd.Delta.Messages.{
  write_all, read_all, write_batch, read_batch, write_request, read_request, write_result,
  read_result,
}
use mcpd.Delta.Messages.{
  encode_delta_solve_round_batch_request, decode_delta_solve_round_batch_request,
}
use mcpd.Delta.Messages.{
  encode_delta_solve_round_batch_result_with_timing, decode_delta_timed_solve_round_batch_result,
  read_timed_batch,
}
use mcpd.Delta.Mirror.Actions.{
  Mirrors, Mirrors-plain, Mirrors-then, Mirrors-last, Mirrors-map, Mirrors-return, Mirrors-before,
}
use mcpd.Delta.Mirror.Frames.{Reaches, Reaches-Mirrors}
use mcpd.Delta.Mirror.Requests.{
  IsSendable, received_request, after_request, delta_request_size, Mirrors-sendable,
}
use mcpd.Delta.Mirror.Results.{
  IsResultHead, KeepsOrder, received_result, after_result, delta_result_size, Mirrors-result,
}

module _ {A B : Type 0} (Fits : A → TemporalSolveCodecState → Type 0)
    (after : A → TemporalSolveCodecState → TemporalSolveCodecState)
    (got : A → TemporalSolveCodecState → B) (size : A → TemporalSolveCodecState → ℕ) where
  -- Each message fits over the baselines at its turn.
  abbrev pub FitInTurn : List A → TemporalSolveCodecState → Type 0
  FitInTurn [] s = Unit
  FitInTurn (a ∷ as') s = Fits a s × FitInTurn as' (after a s)

  abbrev pub after_all : List A → TemporalSolveCodecState → TemporalSolveCodecState
  after_all [] s = s
  after_all (a ∷ as') s = after_all as' (after a s)

  abbrev pub got_all : List A → TemporalSolveCodecState → List B
  got_all [] s = []
  got_all (a ∷ as') s = got a s ∷ got_all as' (after a s)

  abbrev pub size_all : List A → TemporalSolveCodecState → ℕ
  size_all [] s = 0
  size_all (a ∷ as') s = size a s + size_all as' (after a s)

  module _ (write_one : A → T (Unit {0})) (read_one : T B)
      (one : (a : A) (s : TemporalSolveCodecState)
        → Fits a s
        → Mirrors (write_one a) read_one (got a s) s (after a s) (size a s)) where
    Mirrors-all :
        (as' : List A) (s : TemporalSolveCodecState)
        → FitInTurn as' s
        → Mirrors
            (write_all write_one as')
            (read_all (length as') read_one)
            (got_all as' s)
            s
            (after_all as' s)
            (size_all as' s)
    unfolding write_all read_all
    Mirrors-all [] s h = Mirrors-return [] s
    Mirrors-all (a ∷ as') s h =
        Mirrors-then _ (one a s h.0)
          (Mirrors-map (λ bs. got a s ∷ bs) (Mirrors-all as' (after a s) h.1))

    pub Mirrors-batch :
        (as' : List A) (s : TemporalSolveCodecState)
        → length as' < 2 ^ 32
        → FitInTurn as' s
        → Mirrors
            (write_batch as' write_one)
            (read_batch read_one)
            (got_all as' s)
            s
            (after_all as' s)
            (4 + size_all as' s)
    unfolding write_batch read_batch
    Mirrors-batch as' s n h =
        Mirrors-before (checked_size (length as')) _ (λ w. checked_size_lem (length as') w n)
          (Mirrors-plain _ (Reads-u32 (length as') n) (Mirrors-all as' s h))

module _ (ms : List PartitionSolveRequest) (s : TemporalSolveCodecState) where
  abbrev pub RequestsFit : Type 0
  RequestsFit = FitInTurn IsSendable after_request received_request delta_request_size ms s

  abbrev pub received_requests : List PartitionSolveRequest
  received_requests = got_all IsSendable after_request received_request delta_request_size ms s

  abbrev pub after_requests : TemporalSolveCodecState
  after_requests = after_all IsSendable after_request received_request delta_request_size ms s

  abbrev pub delta_requests_size : ℕ
  delta_requests_size =
      4 + size_all IsSendable after_request received_request delta_request_size ms s

-- Let a batch have less than 2^32 requests and less than 2^64 payload bytes, and let each request fit its fields
-- and no difference of its alphas to those they replace, at its turn, leave the 64 bits. Then encoding succeeds,
-- and the frame is decoded by an end with the same baselines to the requests with the updates that change a baseline
-- at their turn, each with its constraint_id and full alpha, but with 0 for last_alpha and alpha_momentum, which
-- the encoding drops; and both ends come to the same baselines.
pub decode_delta_batch_request-encode_delta_batch_request :
    (ms : List PartitionSolveRequest) (s : TemporalSolveCodecState)
    → length ms < 2 ^ 32
    → delta_requests_size ms s < 2 ^ 64
    → RequestsFit ms s
    → Reaches
        (encode_delta_solve_round_batch_request ms)
        decode_delta_solve_round_batch_request
        (received_requests ms s)
        s
        (after_requests ms s)
        (12 + delta_requests_size ms s)
unfolding encode_delta_solve_round_batch_request decode_delta_solve_round_batch_request
decode_delta_batch_request-encode_delta_batch_request ms s n k h =
    Reaches-Mirrors solve_round_batch_request k
      (Mirrors-batch _ _ _ _ write_request read_request Mirrors-sendable ms s n h)

abbrev pub IsResult : PartitionSolveResult → TemporalSolveCodecState → Type 0
IsResult m s = IsResultHead m × KeepsOrder m s

module _ (ms : List PartitionSolveResult) (s : TemporalSolveCodecState) where
  abbrev pub ResultsFit : Type 0
  ResultsFit = FitInTurn IsResult after_result received_result delta_result_size ms s

  abbrev pub received_results : List PartitionSolveResult
  received_results = got_all IsResult after_result received_result delta_result_size ms s

  abbrev pub after_results : TemporalSolveCodecState
  after_results = after_all IsResult after_result received_result delta_result_size ms s

  abbrev pub delta_results_size : ℕ
  delta_results_size = 4 + size_all IsResult after_result received_result delta_result_size ms s + 8

-- Let a batch have less than 2^32 results and less than 2^64 payload bytes, and let each result fit its
-- fields, its labels be binary and of distinct constraints, and a delta find the constraints in the order
-- of the baselines that the results before it left. Then encoding succeeds, and the frame is decoded by an
-- end with the same baselines to the time and the results in order, each with a label for every label of
-- the original, with its constraint_id and label, but with -1 for global_node_id and local_index, which the
-- encoding drops; and both ends come to the same baselines.
pub decode_delta_batch_result-encode_delta_batch_result :
    (ms : List PartitionSolveResult) (us : ℕ) (s : TemporalSolveCodecState)
    → us < 2 ^ 64
    → length ms < 2 ^ 32
    → delta_results_size ms s < 2 ^ 64
    → ResultsFit ms s
    → Reaches
        (encode_delta_solve_round_batch_result_with_timing ms us)
        decode_delta_timed_solve_round_batch_result
        (record { results = received_results ms s; worker_solve_wall_us = us })
        s
        (after_results ms s)
        (12 + delta_results_size ms s)
unfolding encode_delta_solve_round_batch_result_with_timing
    decode_delta_timed_solve_round_batch_result read_timed_batch
decode_delta_batch_result-encode_delta_batch_result ms us s b n k h =
    Reaches-Mirrors solve_round_batch_result k (
      Mirrors-then _
        (Mirrors-batch _ _ _ _ write_result read_result (λ m t x. Mirrors-result m t x.0 x.1) ms s n
          h)
        (Mirrors-last _ (Reads-timing us b)))

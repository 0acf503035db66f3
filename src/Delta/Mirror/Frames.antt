-- ===== src/Delta/Mirror/Frames.antt =====
-- A frame with a stateful payload reaches the other end, and both ends have the same baselines then.
use mcpd.Base.{ℕ, ◌+◌, ◌^◌, ◌<◌, ◌≡◌, refl, sym, ap, ◌∙◌, arith, length, [], append-nil}
use mcpd.Wire.{Bytes, Result, ok, require_done}
use mcpd.Protocol.{MessageType, decode_expected_frame}
use mcpd.Protocol.RoundTrip.Frames.{decode_frame-encode_frame, type_eq_self, require_done_lem}
use mcpd.Delta.State.{TemporalSolveCodecState, T, ◌>>=◌, ◌>>◌, plain, return}
use mcpd.Delta.Messages.{encode_delta, decode_delta}
use mcpd.Delta.Mirror.Actions.{Mirrors, >>=-step, plain-step}

-- The encoder's call makes a frame of this size and leaves the baselines `s'`; the decoder's call, from the
-- same `s`, hands out `a` and leaves the same `s'`.
abbrev pub Reaches :
    {A : Type 0}
    → (TemporalSolveCodecState → Result Bytes × TemporalSolveCodecState)
    → (Bytes → TemporalSolveCodecState → Result A × TemporalSolveCodecState)
    → A
    → TemporalSolveCodecState
    → TemporalSolveCodecState
    → ℕ
    → Type 0
Reaches encode decode a s s' size =
    (frame : Bytes) × (encode s ≡ (ok frame, s'))
    × (length frame ≡ size)
    × (decode frame s ≡ (ok a, s'))

finish :
    {A : Type 0} (read : T A) (a : A) (s s' : TemporalSolveCodecState) (bs : Bytes)
    → read s bs ≡ (ok (a, []), s')
    → (read >>= λ message. plain require_done >> return message) s bs ≡ (ok (a, []), s')
finish read a s s' bs h =
    >>=-step s read (λ message. plain require_done >> return message) s' bs [] a h
    ∙ plain-step s' require_done (λ _. return a) [] [] tt require_done_lem
    ∙ (unfold return in refl)

pub Reaches-Mirrors :
    {A : Type 0} (type : MessageType) {body : T (Unit {0})} {read : T A} {a : A}
    {s s' : TemporalSolveCodecState} {n : ℕ}
    → n < 2 ^ 64
    → Mirrors body read a s s' n
    → Reaches (encode_delta type body) (decode_delta type read) a s s' (12 + n)
Reaches-Mirrors type {body} {read} {a} {s} {s'} {n} h x =
    let (frame, e, l, d) = decode_frame-encode_frame type x.bytes (omega (arith, x.sized)) in
    (
      frame,
      (unfold encode_delta in rw (x.written [], e)),
      omega (arith, l, x.sized),
      (unfold decode_delta decode_expected_frame in
          rw (
            d,
            type_eq_self type,
            finish read a s s' x.bytes (ap (read s) (sym (append-nil x.bytes)) ∙ x.reads []),
          )),
    )

-- ===== src/Delta/Mirror/Differences.antt =====
-- When encodeAlphaUpdatesForPartition does not throw: no difference may leave the 64 bits.
use mcpd.Base.{◌≡◌, sym, subst, List, [], ◌∷◌, Option, none, some, All, length}
use mcpd.Base.{Bool, true, false, refl}
use mcpd.Base.Int.{ℤ, ◌-ℤ◌, IsI64}
use mcpd.Wire.{ok}
use mcpd.Protocol.{AlphaUpdate}
use mcpd.Delta.Varint.{checked_integer_cast, checked_long_difference}
use mcpd.Delta.State.{TemporalPartitionState, update}
use mcpd.Delta.Alphas.{
  EncodedAlphaUpdate, set_alpha, unchanged, wire_value, encode_alphas, decode_alphas,
}
use mcpd.Delta.Mirror.Alphas.{
  IsAlpha, IsEncodedAlpha, latest, changed, in_long-ok, unchanged-eq, update-same, mirrored_lem,
}

-- The difference to the alpha that is replaced, if there is one, is a 64-bit number.
abbrev pub DifferenceFits : Option ℤ → ℤ → Type 0
DifferenceFits none alpha = Unit
DifferenceFits (some old) alpha = IsI64 (alpha -ℤ old)

-- Each update's does, over the alphas that the ones before it left.
abbrev pub DifferencesFit : List AlphaUpdate → (ℤ → Option ℤ) → Type 0
DifferencesFit [] known = Unit
DifferencesFit (u ∷ us) known =
    DifferenceFits (known u.constraint_id) u.alpha
    × DifferencesFit us (update known u.constraint_id (some u.alpha))

wire_value-ok :
    (old : Option ℤ) (alpha : ℤ)
    → IsI64 alpha
    → DifferenceFits old alpha
    → (value : ℤ) × (wire_value old alpha ≡ ok value)
unfolding wire_value checked_integer_cast checked_long_difference
wire_value-ok none alpha h d = (alpha, in_long-ok alpha _ h)
wire_value-ok (some old) alpha h d = (alpha -ℤ old, in_long-ok (alpha -ℤ old) _ d)

abbrev Encodes : List AlphaUpdate → TemporalPartitionState → Type 0
Encodes us p =
    (es : List EncodedAlphaUpdate) × (p' : TemporalPartitionState) × (encode_alphas us p
      ≡ (ok es, p'))

-- One round of the encoder's loop, by its test.
module _ (u : AlphaUpdate) (us : List AlphaUpdate) (p : TemporalPartitionState) (value : ℤ)
    (w : wire_value (p.alpha_by_constraint u.constraint_id) u.alpha ≡ ok value)
    (skip : unchanged (p.alpha_by_constraint u.constraint_id) u.alpha ≡ true → Encodes us p)
    (send : Encodes us (set_alpha p u.constraint_id u.alpha)) where
  Encodes-step :
      (b : Bool)
      → unchanged (p.alpha_by_constraint u.constraint_id) u.alpha ≡ b
      → Encodes (u ∷ us) p
  unfolding encode_alphas
  Encodes-step true h = let (es, p', e) = skip h in (es, p', rw (h, e))
  Encodes-step false h =
      let (es, p', e) = send in
      (record { constraint_id = u.constraint_id; value = value } ∷ es, p', rw (h, w, e))

pub Encodes-DifferencesFit :
    (us : List AlphaUpdate) (p : TemporalPartitionState)
    → All IsAlpha us
    → DifferencesFit us p.alpha_by_constraint
    → Encodes us p
Encodes-DifferencesFit [] p i d = ([], p, unfold encode_alphas in refl)
Encodes-DifferencesFit (u ∷ us) p i d =
    let (value, w) = wire_value-ok _ u.alpha i.0.1 d.0 in
    Encodes-step u us p value w
      (λ e. Encodes-DifferencesFit us p i.1 (
        subst (DifferencesFit us) (sym (update-same _ u.constraint_id _ (unchanged-eq _ u.alpha e)))
          d.1))
      (Encodes-DifferencesFit us (set_alpha p u.constraint_id u.alpha) i.1 d.1) _ refl

-- Let the alphas of a round of updates be 64-bit numbers, and no difference to the alpha that one replaces leave the
-- 64 bits. Then encoding succeeds, and the other end, from the same baselines, decodes one update for each that
-- changed a baseline, in order, with its constraint_id and full alpha, but with 0 for last_alpha and
-- alpha_momentum, which the encoding drops. Both ends then hold the last alpha of every updated constraint; what
-- travels fits its fields, and as many updates travel as are decoded.
pub decode_alphas-encode_alphas :
    (us : List AlphaUpdate) (p : TemporalPartitionState)
    → All IsAlpha us
    → DifferencesFit us p.alpha_by_constraint
    → (es : List EncodedAlphaUpdate) × (p' : TemporalPartitionState) × (encode_alphas us p
        ≡ (ok es, p'))
      × (decode_alphas es p ≡ (ok (changed us p), p'))
      × (p' ≡ record p { alpha_by_constraint = latest us p.alpha_by_constraint })
      × All IsEncodedAlpha es
      × (length es ≡ length (changed us p))
decode_alphas-encode_alphas us p i d =
    let (es, p', e) = Encodes-DifferencesFit us p i d in
    let (x, y, z, w) = mirrored_lem us p p' es i e in (es, p', e, x, y, z, w)

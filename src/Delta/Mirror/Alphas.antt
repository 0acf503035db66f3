-- ===== src/Delta/Mirror/Alphas.antt =====
-- One partition's alpha updates: what decoding does with what encoding produced.
use mcpd.Base.{
  ℕ, ◌≤◌, ◌≡◌, refl, sym, ap, subst, fun_ext, ◌∙◌, arith, List, [], ◌∷◌, Option, none, some, All,
  length, suc,
}
use mcpd.Base.{Bool, true, false, if◌then◌else◌}
use mcpd.Base.Int.{ℤ, pos, negsuc, ◌+ℤ◌, ◌-ℤ◌, eq_ℤ, eq_ℤ_iff, IsI32, IsI64}
use mcpd.Wire.{Error, Result, ok, err, alpha_sum_overflow}
use mcpd.Protocol.{AlphaUpdate}
use mcpd.Delta.Varint.{in_long, checked_integer_cast, checked_long_difference, checked_long_sum}
use mcpd.Delta.State.{TemporalPartitionState, update}
use mcpd.Delta.Alphas.{
  EncodedAlphaUpdate, set_alpha, unchanged, wire_value, cons_first, encode_alphas,
}
use mcpd.Delta.Alphas.{reconstruct, plain_update, decode_alphas}

pub in_long-ok : (z : ℤ) (e : Error) → IsI64 z → in_long z e ≡ ok z
in_long-ok (pos n) e h = ground arith
in_long-ok (negsuc n) e h = ground arith

in_long-IsI64 : (z v : ℤ) (e : Error) → in_long z e ≡ ok v → (z ≡ v) × IsI64 v
in_long-IsI64 (pos n) v e h = ground arith
in_long-IsI64 (negsuc n) v e h = ground arith

add-sub : (old alpha : ℤ) → old +ℤ (alpha -ℤ old) ≡ alpha
unfolding ◌+ℤ◌ ◌-ℤ◌
add-sub (pos a) (pos b) = ground arith
add-sub (pos a) (negsuc b) = ground arith
add-sub (negsuc a) (pos b) = ground arith
add-sub (negsuc a) (negsuc b) = ground arith

-- The value that travels fits and gives the alpha back over the same baseline.
wire_value-reconstruct :
    (old : Option ℤ) (alpha value : ℤ)
    → IsI64 alpha
    → wire_value old alpha ≡ ok value
    → (reconstruct old value ≡ ok alpha) × IsI64 value
unfolding wire_value reconstruct checked_integer_cast checked_long_difference checked_long_sum
wire_value-reconstruct none alpha value h e =
    let (p, i) = in_long-IsI64 alpha value _ e in
    (ap (λ (z : ℤ). checked_integer_cast z) (sym p) ∙ in_long-ok alpha _ h, i)
wire_value-reconstruct (some old) alpha value h e =
    let (p, i) = in_long-IsI64 (alpha -ℤ old) value _ e in
    (
      ap (λ (z : ℤ). checked_long_sum old z) (sym p)
          ∙ ap (λ (z : ℤ). in_long z alpha_sum_overflow) (add-sub old alpha)
          ∙ in_long-ok alpha _ h,
      i,
    )

-- The baselines that a list of updates leaves: for each constraint its last alpha.
abbrev pub latest : List AlphaUpdate → (ℤ → Option ℤ) → ℤ → Option ℤ
latest [] known = known
latest (u ∷ us) known = latest us (update known u.constraint_id (some u.alpha))

-- The updates that change a baseline when they come, as the decoder hands them out.
abbrev pub changed : List AlphaUpdate → TemporalPartitionState → List AlphaUpdate
changed [] p = []
changed (u ∷ us) p =
    let skip = changed us p in
    let send =
      plain_update u.constraint_id u.alpha ∷ changed us (set_alpha p u.constraint_id u.alpha) in
    if unchanged (p.alpha_by_constraint u.constraint_id) u.alpha then skip else send

abbrev pub IsEncodedAlpha : EncodedAlphaUpdate → Type 0
IsEncodedAlpha e = IsI32 e.constraint_id × IsI64 e.value

-- What the other end needs from an encoding of `us` over `p`.
abbrev Mirrored :
    List AlphaUpdate
    → (ℤ → Option ℤ)
    → TemporalPartitionState
    → Result (List EncodedAlphaUpdate) × TemporalPartitionState
    → Type 0
Mirrored received known p (ok es, p') =
    (decode_alphas es p ≡ (ok received, p'))
    × (p' ≡ record p { alpha_by_constraint = known })
    × All IsEncodedAlpha es
    × (length es ≡ length received)
Mirrored received known p (err e, p') = Unit

pub unchanged-eq : (old : Option ℤ) (alpha : ℤ) → unchanged old alpha ≡ true → old ≡ some alpha
unchanged-eq none alpha h = ground arith
unchanged-eq (some old) alpha h = ap some ((eq_ℤ_iff old alpha).0 h)

choose-same : {A : Type 0} (b : Bool) (x v : A) → (b ≡ true → x ≡ v) → x ≡ (if b then v else x)
choose-same true x v h = h refl
choose-same false x v h = refl

-- Storing what is stored already changes nothing.
pub update-same :
    (known : ℤ → Option ℤ) (k : ℤ) (v : Option ℤ) → known k ≡ v → known ≡ update known k v
update-same known k v h =
    fun_ext (λ j. choose-same (eq_ℤ k j) (known j) v (λ e. ap known (sym ((eq_ℤ_iff k j).0 e)) ∙ h))

decode_alphas-cons :
    (e : EncodedAlphaUpdate) (es : List EncodedAlphaUpdate) (p : TemporalPartitionState) (alpha : ℤ)
    → reconstruct (p.alpha_by_constraint e.constraint_id) e.value ≡ ok alpha
    → decode_alphas (e ∷ es) p
      ≡ cons_first
          (plain_update e.constraint_id alpha)
          (decode_alphas es (set_alpha p e.constraint_id alpha))
unfolding decode_alphas
decode_alphas-cons e es p alpha h = rw (h, decode_alphas)

module _ (p : TemporalPartitionState) (constraint_id alpha value : ℤ) where
  Mirrored-cons :
      (received : List AlphaUpdate) (known : ℤ → Option ℤ)
      (r : Result (List EncodedAlphaUpdate) × TemporalPartitionState)
      → reconstruct (p.alpha_by_constraint constraint_id) value ≡ ok alpha
      → IsI32 constraint_id × IsI64 value
      → Mirrored received known (set_alpha p constraint_id alpha) r
      → Mirrored
          (plain_update constraint_id alpha ∷ received)
          known
          p
          (cons_first (record { constraint_id = constraint_id; value = value }) r)
  Mirrored-cons received known (err e, p') h i m = tt
  Mirrored-cons received known (ok es, p') h i m = (
    decode_alphas-cons _ es p alpha h ∙ ap (cons_first (plain_update constraint_id alpha)) m.0,
    m.1,
    (i, m.2),
    ap suc m.3,
  )

abbrev pub IsAlpha : AlphaUpdate → Type 0
IsAlpha u = IsI32 u.constraint_id × IsI64 u.alpha

-- One round of the encoder's loop, by its test and by the value it computes.
module _ (u : AlphaUpdate) (us : List AlphaUpdate) (p : TemporalPartitionState) (i : IsAlpha u)
    (skip : Mirrored (changed us p) (latest us p.alpha_by_constraint) p (encode_alphas us p))
    (send : Mirrored
      (changed us (set_alpha p u.constraint_id u.alpha))
      (latest us (update p.alpha_by_constraint u.constraint_id (some u.alpha)))
      (set_alpha p u.constraint_id u.alpha)
      (encode_alphas us (set_alpha p u.constraint_id u.alpha))) where
  encode_step :
      (b : Bool) (r : Result ℤ)
      → unchanged (p.alpha_by_constraint u.constraint_id) u.alpha ≡ b
      → wire_value (p.alpha_by_constraint u.constraint_id) u.alpha ≡ r
      → Mirrored
          (if b
            then changed us p
            else plain_update u.constraint_id u.alpha
              ∷ changed us (set_alpha p u.constraint_id u.alpha))
          (latest (u ∷ us) p.alpha_by_constraint)
          p
          (if b then encode_alphas us p else elim r [
            | err e ↦ (err e, p)
            | ok value ↦
                cons_first
                  (record { constraint_id = u.constraint_id; value = value })
                  (encode_alphas us (set_alpha p u.constraint_id u.alpha))
          ])
  encode_step true r h w =
      subst (λ known. Mirrored (changed us p) (latest us known) p (encode_alphas us p))
        (update-same _ u.constraint_id _ (unchanged-eq _ u.alpha h)) skip
  encode_step false (err e) h w = tt
  encode_step false (ok value) h w =
      let (c, j) = wire_value-reconstruct _ u.alpha value i.1 w in
      Mirrored-cons p u.constraint_id u.alpha value _ _ _ c (i.0, j) send

encode_alphas-Mirrored :
    (us : List AlphaUpdate) (p : TemporalPartitionState)
    → All IsAlpha us
    → Mirrored (changed us p) (latest us p.alpha_by_constraint) p (encode_alphas us p)
unfolding encode_alphas
encode_alphas-Mirrored [] p h = (unfold decode_alphas in refl, refl, tt, refl)
encode_alphas-Mirrored (u ∷ us) p h =
    encode_step u us p h.0 (encode_alphas-Mirrored us p h.1)
      (encode_alphas-Mirrored us (set_alpha p u.constraint_id u.alpha) h.1) _ _ refl refl

-- What the other end does with a list of updates that was encoded.
pub mirrored_lem :
    (us : List AlphaUpdate) (p p' : TemporalPartitionState) (es : List EncodedAlphaUpdate)
    → All IsAlpha us
    → encode_alphas us p ≡ (ok es, p')
    → (decode_alphas es p ≡ (ok (changed us p), p'))
      × (p' ≡ record p { alpha_by_constraint = latest us p.alpha_by_constraint })
      × All IsEncodedAlpha es
      × (length es ≡ length (changed us p))
mirrored_lem us p p' es h e =
    subst (Mirrored (changed us p) (latest us p.alpha_by_constraint) p) e
      (encode_alphas-Mirrored us p h)

length-choose :
    {A : Type 0} (b : Bool) (x y : List A) (n : ℕ)
    → length x ≤ n
    → length y ≤ n
    → length (if b then x else y) ≤ n
length-choose true x y n h k = h
length-choose false x y n h k = k

pub length-changed :
    (us : List AlphaUpdate) (p : TemporalPartitionState) → length (changed us p) ≤ length us
length-changed [] p = omega arith
length-changed (u ∷ us) p =
    length-choose (unchanged (p.alpha_by_constraint u.constraint_id) u.alpha) _ _ (length (u ∷ us))
      (omega (arith, length-changed us p))
      (omega (arith, length-changed us (set_alpha p u.constraint_id u.alpha)))

-- ===== src/Delta/Mirror/Rounds.antt =====
-- From the second round on, the labels of the same constraints travel as deltas.
use mcpd.Base.{map}
use mcpd.Base.Int.{eq_ℤ}
use mcpd.Wire.{ok}
use mcpd.Delta.Labels.{EncodedConstraintLabel, wire_label, encode_labels, decode_labels}
use mcpd.Delta.Mirror.Baselines.{Avoids, received_label}
use mcpd.Delta.Mirror.Labels.{IsLabel, kept}
use mcpd.Delta.Mirror.Sync.{sent_labels, encode_labels_lem, decode_by}
use mcpd.Base.{◌≡◌, refl, sym, ap, subst, ◌∙◌, List, [], ◌∷◌, All, length, length-map}
use mcpd.Base.{Bool, true, false, not, ◌||◌, ◌==◌, ==_iff, Option, some}
use mcpd.Base.Int.{ℤ}
use mcpd.Protocol.{ConstraintLabel}
use mcpd.Delta.State.{TemporalPartitionState}
use mcpd.Delta.Labels.{is_some, some_unknown, needs_full_sync}
use mcpd.Delta.Mirror.Baselines.{puts, constraint_ids, AreDistinct, puts-AreDistinct}
use mcpd.Delta.Mirror.Sync.{synced, known_before}

-- Whether a label is unknown depends on its constraint only.
module _ (p : TemporalPartitionState) where
  some_unknown-ids :
      (ls : List ConstraintLabel)
      → All (λ c. is_some (p.label_by_constraint c) ≡ true) (constraint_ids ls)
      → some_unknown ls p ≡ false
  unfolding some_unknown
  some_unknown-ids [] h = refl
  some_unknown-ids (l ∷ ls) h = rw (h.0, some_unknown-ids ls h.1)

known-ids :
    (known : ℤ → Option ℤ) (ls : List ConstraintLabel)
    → All (λ l. known l.constraint_id ≡ some l.label) ls
    → All (λ c. is_some (known c) ≡ true) (constraint_ids ls)
known-ids known [] h = tt
known-ids known (l ∷ ls) h = (ap is_some h.0, known-ids known ls h.1)

delta_allowed : (a b : Bool) → a ≡ true → b ≡ false → (not a || b) ≡ false
delta_allowed a b h k = rw (h, k)

-- Labels of the constraints that were exchanged last need no full sync.
needs_full_sync-synced :
    (full : Bool) (ls ls' : List ConstraintLabel) (p : TemporalPartitionState)
    → AreDistinct ls
    → constraint_ids ls' ≡ constraint_ids ls
    → needs_full_sync ls' (synced full ls p) ≡ false
unfolding needs_full_sync
needs_full_sync-synced full ls ls' p d e =
    delta_allowed _ _ lengths (some_unknown-ids (synced full ls p) ls' known)
  where
    known : All (λ c. is_some (puts ls (known_before full p) c) ≡ true) (constraint_ids ls')
    known =
        subst (All (λ c. is_some (puts ls (known_before full p) c) ≡ true)) (sym e) (
          known-ids (puts ls (known_before full p)) ls
            (puts-AreDistinct ls (known_before full p) d))

    lengths : (length (constraint_ids ls) == length ls') ≡ true
    lengths = (==_iff _ _).1 (ap length (sym e) ∙ length-map _ ls')

Avoids-ids :
    (c : ℤ) (ls ls' : List ConstraintLabel)
    → constraint_ids ls' ≡ constraint_ids ls
    → Avoids c ls
    → Avoids c ls'
Avoids-ids c [] [] e h = tt
Avoids-ids c (l ∷ ls) [] e h = tt
Avoids-ids c [] (l' ∷ ls') e h = absurd (cc e)
Avoids-ids c (l ∷ ls) (l' ∷ ls') e h =
    (ap (λ d. eq_ℤ d c) (cc e) ∙ h.0, Avoids-ids c ls ls' (cc e) h.1)

AreDistinct-ids :
    (ls ls' : List ConstraintLabel)
    → constraint_ids ls' ≡ constraint_ids ls
    → AreDistinct ls
    → AreDistinct ls'
AreDistinct-ids [] [] e d = tt
AreDistinct-ids (l ∷ ls) [] e d = tt
AreDistinct-ids [] (l' ∷ ls') e d = absurd (cc e)
AreDistinct-ids (l ∷ ls) (l' ∷ ls') e d =
    let head : l.constraint_id ≡ l'.constraint_id = cc e in
    (
      subst (λ c. Avoids c ls') head (Avoids-ids l.constraint_id ls ls' (cc e) d.0),
      AreDistinct-ids ls ls' (cc e) d.1,
    )

-- In each of these rounds the encoder chooses a delta and sends the labels that differ from the baseline, and
-- the decoder hands out the round's labels and comes to the encoder's baselines.
abbrev pub Deltas : List (List ConstraintLabel) → TemporalPartitionState → Type 0
Deltas [] p = Unit
Deltas (ls ∷ lss) p =
    (p' : TemporalPartitionState) × (encode_labels ls p
      ≡ (ok (false, map wire_label (kept ls p.label_by_constraint)), p'))
    × (decode_labels false (map wire_label (kept ls p.label_by_constraint)) p
        ≡ (ok (map received_label ls), p'))
    × Deltas lss p'

-- Labels of the same constraints, in the same order, with any of the two values.
abbrev pub SameConstraints : List ConstraintLabel → List ConstraintLabel → Type 0
SameConstraints ls ls' = All IsLabel ls' × (constraint_ids ls' ≡ constraint_ids ls)

Deltas-synced :
    (full : Bool) (first ls : List ConstraintLabel) (lss : List (List ConstraintLabel))
    (p : TemporalPartitionState)
    → AreDistinct ls
    → constraint_ids ls ≡ constraint_ids first
    → All (SameConstraints first) lss
    → Deltas lss (synced full ls p)
Deltas-synced full first ls [] p d e h = tt
Deltas-synced full first ls (ls' ∷ lss) p d e h =
    let q = synced full ls p in
    let same : constraint_ids ls' ≡ constraint_ids ls = h.0.1 ∙ sym e in
    let d' = AreDistinct-ids ls ls' same d in
    let delta = needs_full_sync-synced full ls ls' p d same in
    (
      synced false ls' q,
      subst
          (λ b.
            encode_labels ls' q ≡ (ok (b, map wire_label (sent_labels b ls' q)), synced b ls' q))
          delta (encode_labels_lem ls' q h.0.0 d' (λ k. sym same)),
      decode_by ls' q h.0.0 d' (λ k. sym same) false (sym delta),
      Deltas-synced false first ls' lss q d' h.0.1 h.1,
    )

-- Let labels of distinct constraints be encoded, in whichever mode; the labels are binary, and a delta finds the
-- constraints in the order of the baseline. Then every later round of binary labels of the same constraints in
-- the same order, with any values, is encoded as a delta over the baselines that the rounds before it left, never
-- as a full sync again; only the labels that differ from the baseline are sent; and decoding over the same
-- baselines gives a label for every label of the round, with its constraint_id and label and with -1 for
-- global_node_id and local_index, and comes to the baselines that the encoder came to.
pub Deltas-encode_labels :
    (ls : List ConstraintLabel) (lss : List (List ConstraintLabel)) (p p' : TemporalPartitionState)
    (full : Bool) (es : List EncodedConstraintLabel)
    → All IsLabel ls
    → AreDistinct ls
    → (needs_full_sync ls p ≡ false → p.label_order ≡ constraint_ids ls)
    → encode_labels ls p ≡ (ok (full, es), p')
    → All (SameConstraints ls) lss
    → Deltas lss p'
Deltas-encode_labels ls lss p p' full es i d o e h =
    subst (Deltas lss) (ap (λ r. r.1) (sym (encode_labels_lem ls p i d o) ∙ e))
      (Deltas-synced (needs_full_sync ls p) ls ls lss p d refl h)

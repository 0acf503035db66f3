-- ===== src/Delta/Mirror/Labels.antt =====
-- One partition's labels: what decoding does with what encoding produced.
use mcpd.Base.{◌≡◌, refl, sym, ap, ◌∙◌, arith, List, [], ◌∷◌, map, All}
use mcpd.Base.{Option, none, some, Bool, true, false, not, ◌||◌, if◌then◌else◌}
use mcpd.Base.Int.{ℤ, eq_ℤ, IsI32}
use mcpd.Wire.{ok}
use mcpd.Protocol.{ConstraintLabel}
use mcpd.Delta.State.{TemporalPartitionState, update}
use mcpd.Delta.Alphas.{unchanged}
use mcpd.Delta.Labels.{is_binary, is_some, set_label, add_label, wire_label, store_labels}
use mcpd.Delta.Labels.{encode_all, encode_changed, some_unknown}
use mcpd.Delta.Mirror.Alphas.{update-same, unchanged-eq}
use mcpd.Delta.Mirror.Baselines.{AreDistinct, AreKnown, AreFresh, stored}
use mcpd.Delta.Mirror.Baselines.{store-known, store-fresh}
use mcpd.Delta.Mirror.Baselines.{AreKnown-update, AreFresh-update}

abbrev pub IsLabel : ConstraintLabel → Type 0
IsLabel l = IsI32 l.constraint_id × (is_binary l.label ≡ true)

pub encode_all-AreFresh :
    (ls : List ConstraintLabel) (p : TemporalPartitionState)
    → All IsLabel ls
    → AreDistinct ls
    → AreFresh p.label_by_constraint ls
    → encode_all ls p ≡ (ok (map wire_label ls), stored ls p)
unfolding encode_all
encode_all-AreFresh [] p i d h = unfold store_labels in refl
encode_all-AreFresh (l ∷ ls) p i d h = rw (
  i.0.1,
  h.0,
  encode_all,
  encode_all-AreFresh ls (add_label p l.constraint_id l.label) i.1 d.1
      (AreFresh-update _ _ _ ls d.0 h.1),
  store-fresh (wire_label l) (map wire_label ls) p h.0,
)

-- The labels that differ from the baseline when they come.
abbrev pub kept : List ConstraintLabel → (ℤ → Option ℤ) → List ConstraintLabel
kept [] known = []
kept (l ∷ ls) known =
    let skip = kept ls known in
    let send = l ∷ kept ls (update known l.constraint_id (some l.label)) in
    if unchanged (known l.constraint_id) l.label then skip else send

-- What the other end needs from the delta encoding of `ls` over `p`.
abbrev pub Synced : List ConstraintLabel → List ConstraintLabel → TemporalPartitionState → Type 0
Synced sent ls p =
    (encode_changed ls p ≡ (ok (map wire_label sent), stored ls p)) × (stored sent p ≡ stored ls p)

module _ (l : ConstraintLabel) (ls : List ConstraintLabel) (p : TemporalPartitionState) (old : ℤ)
    (binary : is_binary l.label ≡ true) (h : p.label_by_constraint l.constraint_id ≡ some old) where
  stored-known :
      (xs : List ConstraintLabel)
      → stored (l ∷ xs) p ≡ stored xs (set_label p l.constraint_id l.label)
  stored-known xs = store-known (wire_label l) (map wire_label xs) p (ap is_some h)

  set_label-same : eq_ℤ old l.label ≡ true → set_label p l.constraint_id l.label ≡ p
  set_label-same e =
      ap (λ (f : ℤ → Option ℤ). record p { label_by_constraint = f })
        (sym (
          update-same p.label_by_constraint l.constraint_id (some l.label)
            (h ∙ unchanged-eq (some old) l.label e)))

  stored-skip : eq_ℤ old l.label ≡ true → stored ls p ≡ stored (l ∷ ls) p
  stored-skip e = ap (stored ls) (sym (set_label-same e)) ∙ sym (stored-known ls)

  Synced-skip :
      (sent : List ConstraintLabel)
      → eq_ℤ old l.label ≡ true
      → Synced sent ls p
      → Synced sent (l ∷ ls) p
  unfolding encode_changed
  Synced-skip sent e s =
      (rw (binary, h, e, encode_changed, s.0) (rw (stored-skip e)), s.1 ∙ stored-skip e)

  Synced-send :
      (sent : List ConstraintLabel)
      → eq_ℤ old l.label ≡ false
      → Synced sent ls (set_label p l.constraint_id l.label)
      → Synced (l ∷ sent) (l ∷ ls) p
  unfolding encode_changed
  Synced-send sent e s = (
    rw (binary, h, e, encode_changed, s.0) (rw (stored-known ls)),
    stored-known sent ∙ s.1 ∙ sym (stored-known ls),
  )

-- One round of the delta loop, by the baseline that it finds and by its test.
module _ (l : ConstraintLabel) (ls : List ConstraintLabel) (p : TemporalPartitionState)
    (binary : is_binary l.label ≡ true)
    (known : is_some (p.label_by_constraint l.constraint_id) ≡ true)
    (skip : Synced (kept ls p.label_by_constraint) ls p)
    (send : Synced
      (kept ls (update p.label_by_constraint l.constraint_id (some l.label)))
      ls
      (set_label p l.constraint_id l.label)) where
  Synced-step :
      (o : Option ℤ) (b : Bool)
      → p.label_by_constraint l.constraint_id ≡ o
      → unchanged o l.label ≡ b
      → Synced
          (if b
            then kept ls p.label_by_constraint
            else l ∷ kept ls (update p.label_by_constraint l.constraint_id (some l.label)))
          (l ∷ ls)
          p
  Synced-step none b h e = absurd (ground arith)
  Synced-step (some old) true h e = Synced-skip l ls p old binary h _ e skip
  Synced-step (some old) false h e = Synced-send l ls p old binary h _ e send

pub Synced-AreKnown :
    (ls : List ConstraintLabel) (p : TemporalPartitionState)
    → All IsLabel ls
    → AreKnown p.label_by_constraint ls
    → Synced (kept ls p.label_by_constraint) ls p
Synced-AreKnown [] p i h = (unfold encode_changed store_labels in refl, refl)
Synced-AreKnown (l ∷ ls) p i h =
    Synced-step l ls p i.0.1 h.0 (Synced-AreKnown ls p i.1 h.1)
      (Synced-AreKnown ls (set_label p l.constraint_id l.label) i.1 (AreKnown-update _ _ _ ls h.1))
      _ _ refl refl

pub neither : (a b : Bool) → (not a || b) ≡ false → (a ≡ true) × (b ≡ false)
neither true b h = (refl, h)
neither false b h = absurd (ground arith)

pub some_unknown-false :
    (ls : List ConstraintLabel) (p : TemporalPartitionState)
    → some_unknown ls p ≡ false
    → AreKnown p.label_by_constraint ls
unfolding some_unknown
some_unknown-false [] p h = tt
some_unknown-false (l ∷ ls) p h =
    let (known, rest) =
      neither (is_some (p.label_by_constraint l.constraint_id)) (some_unknown ls p) h in
    (known, some_unknown-false ls p rest)

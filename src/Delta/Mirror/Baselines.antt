-- ===== src/Delta/Mirror/Baselines.antt =====
-- What storing a list of labels does to a partition's baselines.
use mcpd.Base.{◌≡◌, refl, sym, ap, ◌∙◌, arith, List, [], ◌∷◌, ◌++◌, map, All}
use mcpd.Base.{Option, none, some, Bool, true, false, if◌then◌else◌, append-nil, append_assoc}
use mcpd.Base.Int.{ℤ, eq_ℤ, eq_ℤ_iff}
use mcpd.Wire.{ok}
use mcpd.Protocol.{ConstraintLabel}
use mcpd.Delta.State.{TemporalPartitionState, update}
use mcpd.Delta.Labels.{
  EncodedConstraintLabel, is_some, set_label, add_label, wire_label, store_labels,
}
use mcpd.Delta.Labels.{plain_label, gather_labels}

-- The labels of a list over those that were known.
abbrev pub puts : List ConstraintLabel → (ℤ → Option ℤ) → ℤ → Option ℤ
puts [] known = known
puts (l ∷ ls) known = puts ls (update known l.constraint_id (some l.label))

abbrev pub constraint_ids : List ConstraintLabel → List ℤ
constraint_ids ls = map (λ l. l.constraint_id) ls

abbrev pub Avoids : ℤ → List ConstraintLabel → Type 0
Avoids c ls = All (λ l. eq_ℤ l.constraint_id c ≡ false) ls

-- No two labels are of one constraint.
abbrev pub AreDistinct : List ConstraintLabel → Type 0
AreDistinct [] = Unit
AreDistinct (l ∷ ls) = Avoids l.constraint_id ls × AreDistinct ls

abbrev pub AreKnown : (ℤ → Option ℤ) → List ConstraintLabel → Type 0
AreKnown known ls = All (λ l. is_some (known l.constraint_id) ≡ true) ls

abbrev pub AreFresh : (ℤ → Option ℤ) → List ConstraintLabel → Type 0
AreFresh known ls = All (λ l. known l.constraint_id ≡ none) ls

update-eq : {A : Type 0} (f : ℤ → A) (k : ℤ) (v : A) → update f k v k ≡ v
update-eq f k v = rw ((eq_ℤ_iff k k).1 refl)

update-ne : {A : Type 0} (f : ℤ → A) (k j : ℤ) (v : A) → eq_ℤ k j ≡ false → update f k v j ≡ f j
update-ne f k j v h = rw h

puts-Avoids :
    (ls : List ConstraintLabel) (known : ℤ → Option ℤ) (c : ℤ)
    → Avoids c ls
    → puts ls known c ≡ known c
puts-Avoids [] known c h = refl
puts-Avoids (l ∷ ls) known c h =
    puts-Avoids ls (update known l.constraint_id (some l.label)) c h.1
    ∙ update-ne known l.constraint_id c (some l.label) h.0

pub puts-AreDistinct :
    (ls : List ConstraintLabel) (known : ℤ → Option ℤ)
    → AreDistinct ls
    → All (λ l. puts ls known l.constraint_id ≡ some l.label) ls
puts-AreDistinct [] known h = tt
puts-AreDistinct (l ∷ ls) known h = (
  puts-Avoids ls _ l.constraint_id h.0 ∙ update-eq known l.constraint_id (some l.label),
  puts-AreDistinct ls _ h.1,
)

abbrev pub received_label : ConstraintLabel → ConstraintLabel
received_label l = plain_label l.constraint_id l.label

gather_labels-ids :
    (ls : List ConstraintLabel) (known : ℤ → Option ℤ)
    → All (λ l. known l.constraint_id ≡ some l.label) ls
    → gather_labels (constraint_ids ls) known ≡ ok (map received_label ls)
unfolding gather_labels
gather_labels-ids [] known h = refl
gather_labels-ids (l ∷ ls) known h = rw (h.0, gather_labels-ids ls known h.1, gather_labels)

-- Every constraint is found again with its label.
pub gather_labels-puts :
    (ls : List ConstraintLabel) (known : ℤ → Option ℤ)
    → AreDistinct ls
    → gather_labels (constraint_ids ls) (puts ls known) ≡ ok (map received_label ls)
gather_labels-puts ls known h = gather_labels-ids ls (puts ls known) (puts-AreDistinct ls known h)

-- The baselines after all labels of a list are stored.
abbrev pub stored : List ConstraintLabel → TemporalPartitionState → TemporalPartitionState
stored ls p = store_labels (map wire_label ls) p

is_some-choose :
    (b : Bool) (v : ℤ) (o : Option ℤ) → is_some o ≡ true → is_some (if b then some v else o) ≡ true
is_some-choose true v o h = refl
is_some-choose false v o h = h

is_some-update :
    (known : ℤ → Option ℤ) (k v j : ℤ)
    → is_some (known j) ≡ true
    → is_some (update known k (some v) j) ≡ true
is_some-update known k v j h = is_some-choose (eq_ℤ k j) v (known j) h

pub AreKnown-update :
    (known : ℤ → Option ℤ) (k v : ℤ) (ls : List ConstraintLabel)
    → AreKnown known ls
    → AreKnown (update known k (some v)) ls
AreKnown-update known k v [] h = tt
AreKnown-update known k v (l ∷ ls) h =
    (is_some-update known k v l.constraint_id h.0, AreKnown-update known k v ls h.1)

eq_ℤ-swap : (a b : ℤ) → eq_ℤ a b ≡ false → eq_ℤ b a ≡ false
eq_ℤ-swap a b h = ground (arith, eq_ℤ_iff a b, eq_ℤ_iff b a)

pub AreFresh-update :
    (known : ℤ → Option ℤ) (k : ℤ) (v : Option ℤ) (ls : List ConstraintLabel)
    → All (λ l. eq_ℤ l.constraint_id k ≡ false) ls
    → AreFresh known ls
    → AreFresh (update known k v) ls
AreFresh-update known k v [] d h = tt
AreFresh-update known k v (l ∷ ls) d h = (
  update-ne known k l.constraint_id v (eq_ℤ-swap l.constraint_id k d.0) ∙ h.0,
  AreFresh-update known k v ls d.1 h.1,
)

known_case :
    (o : Option ℤ) (x y : TemporalPartitionState)
    → is_some o ≡ true
    → (elim o as (λ z. TemporalPartitionState) [ none ↦ x | some old ↦ y ]) ≡ y
known_case none x y h = ground arith
known_case (some old) x y h = refl

pub store-known :
    (l : EncodedConstraintLabel) (ls : List EncodedConstraintLabel) (p : TemporalPartitionState)
    → is_some (p.label_by_constraint l.constraint_id) ≡ true
    → store_labels (l ∷ ls) p ≡ store_labels ls (set_label p l.constraint_id l.label)
unfolding store_labels
store-known l ls p h = ap (store_labels ls) (
    known_case (p.label_by_constraint l.constraint_id) (add_label p l.constraint_id l.label)
      (set_label p l.constraint_id l.label) h)

pub store-fresh :
    (l : EncodedConstraintLabel) (ls : List EncodedConstraintLabel) (p : TemporalPartitionState)
    → p.label_by_constraint l.constraint_id ≡ none
    → store_labels (l ∷ ls) p ≡ store_labels ls (add_label p l.constraint_id l.label)
unfolding store_labels
store-fresh l ls p h = rw (h, store_labels)

pub stored-AreKnown :
    (ls : List ConstraintLabel) (p : TemporalPartitionState)
    → AreKnown p.label_by_constraint ls
    → stored ls p ≡ record p { label_by_constraint = puts ls p.label_by_constraint }
unfolding store_labels
stored-AreKnown [] p h = refl
stored-AreKnown (l ∷ ls) p h =
    store-known (wire_label l) (map wire_label ls) p h.0
    ∙ stored-AreKnown ls (set_label p l.constraint_id l.label) (AreKnown-update _ _ _ ls h.1)

pub stored-AreFresh :
    (ls : List ConstraintLabel) (p : TemporalPartitionState)
    → AreDistinct ls
    → AreFresh p.label_by_constraint ls
    → stored ls p ≡ record p {
      label_by_constraint = puts ls p.label_by_constraint;
      label_order = p.label_order ++ constraint_ids ls;
    }
unfolding store_labels
stored-AreFresh [] p d h =
    ap (λ (o : List ℤ). record p { label_order = o }) (sym (append-nil p.label_order))
stored-AreFresh (l ∷ ls) p d h =
    store-fresh (wire_label l) (map wire_label ls) p h.0
    ∙ stored-AreFresh ls (add_label p l.constraint_id l.label) d.1
        (AreFresh-update _ _ _ ls d.0 h.1)
    ∙ ap
        (λ (o : List ℤ). record p {
          label_by_constraint = puts (l ∷ ls) p.label_by_constraint;
          label_order = o;
        })
        (append_assoc p.label_order (l.constraint_id ∷ []) (constraint_ids ls))

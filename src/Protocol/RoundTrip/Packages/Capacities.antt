-- ===== src/Protocol/RoundTrip/Packages/Capacities.antt =====
-- Directed arc capacities: one signed number for each pair, and the pairs again.
use mcpd.Base.{
  ◌*◌, ◌≤◌, ◌<◌, ◌≡◌, refl, Bool, true, false, not, ◌||◌, ◌&&◌, List, [], ◌∷◌, length, All, arith,
}
use mcpd.Base.{if◌then◌else◌, Bool-cases, inl, inr}
use mcpd.Base.Int.{ℤ, pos, negsuc, IsI32, eq_ℤ, ltb_ℤ, ◌-ℤ◌}
use mcpd.Wire.{ok}
use mcpd.Protocol.{PartitionPackage, Mode, full, worker_load, pairs_are_directed, compact_pairs}
use mcpd.Protocol.{can_compact_directed_arc_capacities, expand_each, expand_compact_arc_capacities}
use mcpd.Protocol.{wire_capacities, is_empty}

abbrev signed_pair : ℤ → ℤ → ℤ
signed_pair forward backward = if not (eq_ℤ backward (pos 0)) then pos 0 -ℤ backward else forward

abbrev pair_is_directed : ℤ → ℤ → Bool
pair_is_directed forward backward =
    if ltb_ℤ forward (pos 0) || ltb_ℤ backward (pos 0)
    then false
    else if not (eq_ℤ forward (pos 0)) && not (eq_ℤ backward (pos 0))
    then false
    else true

expand_pair :
    (forward backward : ℤ) (rest expanded : List ℤ)
    → pair_is_directed forward backward ≡ true
    → IsI32 forward
    → IsI32 backward
    → expand_each rest ≡ ok expanded
    → expand_each (signed_pair forward backward ∷ rest) ≡ ok (forward ∷ (backward ∷ expanded))
unfolding expand_each ◌-ℤ◌
expand_pair (pos a) (pos b) rest expanded d f g h = ground arith
expand_pair (pos a) (negsuc b) rest expanded d f g h = ground arith
expand_pair (negsuc a) (pos b) rest expanded d f g h = ground arith
expand_pair (negsuc a) (negsuc b) rest expanded d f g h = ground arith

pub expand-compact :
    (capacities : List ℤ)
    → pairs_are_directed capacities ≡ true
    → All IsI32 capacities
    → expand_each (compact_pairs capacities) ≡ ok capacities
unfolding pairs_are_directed compact_pairs
expand-compact [] d v = unfold expand_each in refl
expand-compact (forward ∷ []) d v = cc
expand-compact (forward ∷ (backward ∷ capacities)) d v =
    expand_pair forward backward (compact_pairs capacities) capacities (ground arith) v.0 v.1.0
      (expand-compact capacities (ground arith) v.1.1)

pub length-compact :
    (capacities : List ℤ)
    → pairs_are_directed capacities ≡ true
    → length capacities ≡ length (compact_pairs capacities) * 2
unfolding pairs_are_directed compact_pairs
length-compact [] d = refl
length-compact (forward ∷ []) d = cc
length-compact (forward ∷ (backward ∷ capacities)) d =
    omega (arith, length-compact capacities (ground arith))

compact-IsI32 :
    (capacities : List ℤ)
    → pairs_are_directed capacities ≡ true
    → All IsI32 capacities
    → All IsI32 (compact_pairs capacities)
unfolding pairs_are_directed compact_pairs ◌-ℤ◌
compact-IsI32 [] d v = tt
compact-IsI32 (forward ∷ []) d v = tt
compact-IsI32 (forward ∷ (backward ∷ capacities)) d v =
    (ground arith, compact-IsI32 capacities (ground arith) v.1.1)

is_empty-false : (xs : List ℤ) → is_empty xs ≡ false → 0 < length xs
is_empty-false [] h = cc
is_empty-false (x ∷ xs) h = omega arith

-- What the test says of the capacities.
compacts :
    (m : PartitionPackage)
    → can_compact_directed_arc_capacities m worker_load ≡ true
    → (pairs_are_directed m.arc_capacities ≡ true) × (0 < length m.arc_capacities)
unfolding can_compact_directed_arc_capacities
compacts m h = ground (arith, is_empty-false m.arc_capacities)

-- The count that travels is at most the count of the capacities, and they stay ints.
pub wire_capacities-IsI32 :
    (m : PartitionPackage) (mode : Mode)
    → All IsI32 m.arc_capacities
    → All IsI32 (wire_capacities m mode)
      × (length (wire_capacities m mode) ≤ length m.arc_capacities)
unfolding wire_capacities
wire_capacities-IsI32 m full v = unfold can_compact_directed_arc_capacities in (v, omega arith)
wire_capacities-IsI32 m worker_load v =
    elim (Bool-cases (can_compact_directed_arc_capacities m worker_load)) [
      | inl e ↦ rw e (
          let (d, n) = compacts m e in
          (compact-IsI32 m.arc_capacities d v, omega (arith, length-compact m.arc_capacities d)))
      | inr e ↦ rw e (v, omega arith)
    ]

-- Where there is a capacity for each arc, what travels is expanded to the capacities again.
pub expand-wire :
    (m : PartitionPackage) (mode : Mode)
    → length m.arc_capacities ≡ length m.arcs
    → All IsI32 m.arc_capacities
    → expand_compact_arc_capacities m.arcs (wire_capacities m mode) ≡ ok m.arc_capacities
unfolding wire_capacities expand_compact_arc_capacities
expand-wire m full h v = unfold can_compact_directed_arc_capacities in ground arith
expand-wire m worker_load h v =
    elim (Bool-cases (can_compact_directed_arc_capacities m worker_load)) [
      | inl e ↦ rw e (
          let (d, n) = compacts m e in
          ground (arith, length-compact m.arc_capacities d, expand-compact m.arc_capacities d v))
      | inr e ↦ rw e (ground arith)
    ]

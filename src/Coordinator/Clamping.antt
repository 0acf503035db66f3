-- ===== src/Coordinator/Clamping.antt =====
-- Scaling is multiplication, cut to the range of int when the caller asks for it.
use mcpd.Base.{
  ℕ, suc, zero, ◌+◌, ◌-◌, ◌*◌, ◌^◌, ◌≤◌, ◌<◌, ◌≡◌, refl, ap, ◌∙◌, arith, Bool, true, false, ◌||◌,
  ◌&&◌, not, List, [], ◌∷◌, map, ltb, ◌==◌, if◌then◌else◌,
}
use mcpd.Base.Int.{ℤ, pos, negsuc, int_min, int_max, ltb_ℤ, sub_ℕ}
use mcpd.Wire.{Result, ok, err}
use mcpd.Wire.Act.{Act, ◌>>=◌, ◌>>◌, return, fail, modify, >>=-ok, on-then}
use mcpd.Coordinator.Scale.{
  ObjectiveScaleStats, MinCutGraph, scaled, scale_overflow, would_overflow_int_scale,
  scale_int_capacity, scale_each, scale_graph,
}
use native.Mathlib.Nat.{div-lt_iff_lt-mul}

-- Whether a number is no int.
abbrev pub outside : ℤ → Bool
outside z = ltb_ℤ int_max z || ltb_ℤ z int_min

-- The nearest int.
abbrev pub clamp : ℤ → ℤ
clamp z = if ltb_ℤ int_max z then int_max else if ltb_ℤ z int_min then int_min else z

below_case :
    (q m p : ℕ) → (q < m → 2 ^ 31 < p) → (2 ^ 31 < p → q < m) → ltb q m ≡ outside (sub_ℕ 0 p)
below_case q m zero f g = ground (arith, f, g)
below_case q m (suc p) f g = ground (arith, f, g)

-- What the test computes without multiplying is whether the product is no int.
would_overflow-outside :
    (value : ℤ) (factor : ℕ)
    → 1 ≤ factor
    → would_overflow_int_scale value factor ≡ outside (scaled value factor)
unfolding would_overflow_int_scale
would_overflow-outside (pos n) factor h =
    let (f, g) = div-lt_iff_lt-mul {k = factor} {x = 2 ^ 31 - 1} {y = n} h in ground (arith, f, g)
would_overflow-outside (negsuc n) factor h =
    let (f, g) = div-lt_iff_lt-mul {k = factor} {x = 2 ^ 31} {y = suc n} h in below_case _ _ _ f g

-- Below zero, the product is too.
clamped :
    (value : ℤ) (factor : ℕ)
    → 1 ≤ factor
    → outside (scaled value factor) ≡ true
    → (if ltb_ℤ value (pos 0) then int_min else int_max) ≡ clamp (scaled value factor)
clamped (pos n) factor h o = ground (arith, o)
clamped (negsuc n) factor h o = below ∙ negative (suc n * factor) o
  where
    below : (if ltb_ℤ (negsuc n) (pos 0) then int_min else int_max) ≡ int_min
    below = ground arith

    negative : (p : ℕ) → outside (sub_ℕ 0 p) ≡ true → int_min ≡ clamp (sub_ℕ 0 p)
    negative zero o = absurd (ground (arith, o))
    negative (suc p) o = ground (arith, o)

kept : (z : ℤ) → outside z ≡ false → z ≡ clamp z
kept z o = ground (arith, o)

-- The branches of scaleIntCapacity, once its tests are known.
branches :
    (w o saturate : Bool) (bound cut product : ℤ) (count : ℕ)
    → w ≡ o
    → (o ≡ true → bound ≡ cut)
    → (o ≡ false → product ≡ cut)
    → (if w
          then (if saturate then modify suc >> return bound else fail scale_overflow)
          else if o
          then fail scale_overflow
          else return product)
        count
      ≡ (if o && not saturate
          then (err scale_overflow, count)
          else (ok cut, (if o then suc count else count)))
unfolding ◌>>=◌ return fail modify
branches w true true bound cut product count e f g = rw (e, f refl)
branches w true false bound cut product count e f g = rw e refl
branches w false saturate bound cut product count e f g = rw (e, g refl)

-- For every factor from 1 on, scaling an int either gives the product, when that is an int, or the nearest int
-- and counts it, or, when that is not asked for, throws. Neither the rounding of the division nor the second check
-- of the range makes a difference.
pub scale_int_capacity-clamp :
    (value : ℤ) (factor : ℕ) (saturate : Bool) (count : ℕ)
    → 1 ≤ factor
    → scale_int_capacity factor saturate value count ≡ (
        if outside (scaled value factor) && not saturate then (err scale_overflow, count) else (
          ok (clamp (scaled value factor)),
          (if outside (scaled value factor) then suc count else count),
        ))
unfolding scale_int_capacity
scale_int_capacity-clamp value factor saturate count h =
    branches _ (outside (scaled value factor)) saturate _ (clamp (scaled value factor)) _ count
      (would_overflow-outside value factor h) (clamped value factor h) (kept (scaled value factor))

-- How many of the products are no ints.
abbrev pub cut_count : ℕ → List ℤ → ℕ
cut_count factor [] = 0
cut_count factor (value ∷ values) =
    let rest = cut_count factor values in if outside (scaled value factor) then suc rest else rest

some_then :
    (b : Bool) (c : ℤ) (n k : ℕ) (rest : Act ℕ (List ℤ)) (cs : List ℤ)
    → rest (if b then suc n else n) ≡ (ok cs, (if b then suc n else n) + k)
    → ((rest >>= λ t. return (c ∷ t)) (if b then suc n else n))
      ≡ (ok (c ∷ cs), n + (if b then suc k else k))
unfolding ◌>>=◌ return
some_then true c n k rest cs h = rw h (ap (λ (t : ℕ). (ok (c ∷ cs), t)) (omega arith))
some_then false c n k rest cs h = rw h refl

scale_each-clamp :
    (factor : ℕ) (values : List ℤ) (count : ℕ)
    → 1 ≤ factor
    → scale_each factor true values count
      ≡ (ok (map (λ v. clamp (scaled v factor)) values), count + cut_count factor values)
unfolding scale_each
scale_each-clamp factor [] count h = unfold return in ap (λ (t : ℕ). (ok [], t)) (omega arith)
scale_each-clamp factor (value ∷ values) count h =
    >>=-ok (scale_int_capacity factor true value) _ count _ (clamp (scaled value factor))
      (scale_int_capacity-clamp value factor true count h ∙ never (outside (scaled value factor)))
    ∙ some_then (outside (scaled value factor)) _ count _ _ _ (scale_each-clamp factor values _ h)
  where
    never :
        (b : Bool)
        → ◌≡◌ {A = Result ℤ × ℕ}
            (if b && not true
              then (err scale_overflow, count)
              else (ok (clamp (scaled value factor)), (if b then suc count else count)))
            (ok (clamp (scaled value factor)), (if b then suc count else count))
    never true = refl
    never false = refl

-- When the coordinator may cut, scaling a graph by a factor other than 1 does not throw: every arc and
-- every terminal capacity becomes the int nearest to its product with the factor, and the two counters grow by the
-- numbers of capacities that were cut.
pub scale_graph-clamp :
    (factor : ℕ) (graph : MinCutGraph) (stats : ObjectiveScaleStats)
    → 1 ≤ factor
    → (factor == 1) ≡ false
    → scale_graph factor true graph stats ≡ (
      ok (record {
        arc_capacities = map (λ v. clamp (scaled v factor)) graph.arc_capacities;
        terminal_capacities = map (λ v. clamp (scaled v factor)) graph.terminal_capacities;
      }),
      record {
        arc_saturation_count = stats.arc_saturation_count + cut_count factor graph.arc_capacities;
        terminal_saturation_count =
            stats.terminal_saturation_count + cut_count factor graph.terminal_capacities;
      },
    )
unfolding scale_graph
scale_graph-clamp factor graph stats h k = rw k (
    on-then _ _ (scale_each factor true graph.arc_capacities) _ stats _ _
      (scale_each-clamp factor graph.arc_capacities stats.arc_saturation_count h)
    ∙ on-then _ _ (scale_each factor true graph.terminal_capacities) _ _ _ _
        (scale_each-clamp factor graph.terminal_capacities stats.terminal_saturation_count h)
    ∙ (unfold return in refl))

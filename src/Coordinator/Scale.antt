-- ===== src/Coordinator/Scale.antt =====
-- The scaling of capacities by the objective scale. parseLong only lets positive factors through, so a factor
-- is a natural number.
use mcpd.Base.{ℕ, suc, ◌-◌, ◌*◌, ◌/◌, ◌^◌, Bool, ◌||◌, List, [], ◌∷◌, ltb, ◌==◌, if◌then◌else◌}
use mcpd.Base.Int.{ℤ, pos, negsuc, int_min, int_max, ltb_ℤ, sub_ℕ}
use mcpd.Base.Text.{codes}
use mcpd.Wire.{Error, other_error}
use mcpd.Wire.Act.{Act, ◌>>=◌, ◌>>◌, return, fail, modify, on}

pub record ObjectiveScaleStats : Type 0 where
  pub arc_saturation_count : ℕ
  pub terminal_saturation_count : ℕ

-- mcpd3::MinCutGraph, with the fields that are scaled.
pub record MinCutGraph : Type 0 where
  pub arc_capacities : List ℤ
  pub terminal_capacities : List ℤ

-- `static_cast<long>(value) * factor`
abbrev pub scaled : ℤ → ℕ → ℤ
scaled (pos n) factor = pos (n * factor)
scaled (negsuc n) factor = sub_ℕ 0 (suc n * factor)

abbrev pub scale_overflow : Error
scale_overflow = other_error (codes "objective scale exceeds int range")

-- The division rounds towards zero: INT_MIN / factor is -(2^31 / factor).
unfoldable pub would_overflow_int_scale : ℤ → ℕ → Bool
would_overflow_int_scale (pos n) factor = ltb ((2 ^ 31 - 1) / factor) n
would_overflow_int_scale (negsuc n) factor = ltb (2 ^ 31 / factor) (suc n)

-- The state is the counter that is passed by its address.
unfoldable pub scale_int_capacity : ℕ → Bool → ℤ → Act ℕ ℤ
scale_int_capacity factor saturate_overflow value =
    if would_overflow_int_scale value factor
    then (if saturate_overflow
        then modify suc >> return (if ltb_ℤ value (pos 0) then int_min else int_max)
        else fail scale_overflow)
    else if ltb_ℤ int_max (scaled value factor) || ltb_ℤ (scaled value factor) int_min
    then fail scale_overflow
    else return (scaled value factor)

unfoldable pub scale_each : ℕ → Bool → List ℤ → Act ℕ (List ℤ)
scale_each factor saturate_overflow [] = return []
scale_each factor saturate_overflow (capacity ∷ capacities) = do
  capacity' ← scale_int_capacity factor saturate_overflow capacity
  capacities' ← scale_each factor saturate_overflow capacities
  return (capacity' ∷ capacities')

-- The graph is changed in place; one whose scaling throws is not used any more.
unfoldable pub scale_graph : ℕ → Bool → MinCutGraph → Act ObjectiveScaleStats MinCutGraph
scale_graph factor saturate_capacity_overflow graph = if factor == 1 then return graph else (do
  arcs ←
      on (λ s. s.arc_saturation_count) (λ s n. record s { arc_saturation_count = n })
        (scale_each factor saturate_capacity_overflow graph.arc_capacities)
  terminals ←
      on (λ s. s.terminal_saturation_count) (λ s n. record s { terminal_saturation_count = n })
        (scale_each factor saturate_capacity_overflow graph.terminal_capacities)
  return (record { arc_capacities = arcs; terminal_capacities = terminals }))

-- ===== src/Coordinator/Examples.antt =====
-- The theorems about the coordinator's program at a small graph and a command line.
use mcpd.Base.{◌++◌, some}
use mcpd.Runtime.{RpcByteStats, blank_rpc_bytes}
use mcpd.Runtime.Tallies.{IsTallied}
use mcpd.Coordinator.{csv_value, sum_rpc_byte_stats}
use mcpd.Coordinator.Rows.{read_field, read_field-csv_value, sum_rpc_byte_stats-IsTallied}
use mcpd.Base.{
  ◌+◌, ◌≡◌, refl, arith, true, false, suc, List, [], ◌∷◌, map, not, ◌&&◌, if◌then◌else◌,
}
use mcpd.Base.Int.{pos, negsuc}
use mcpd.Base.Text.{codes}
use mcpd.Wire.{Bytes, ok, err}
use mcpd.Coordinator.{
  MinCutGraph, ObjectiveScaleStats, scaled, scale_overflow, scale_int_capacity, scale_graph, Config,
  default_config, parse_args,
}
use mcpd.Coordinator.Clamping.{
  outside, clamp, cut_count, scale_int_capacity-clamp, scale_graph-clamp,
}
use mcpd.Coordinator.Ranges.{IsConfig}
use mcpd.Coordinator.Validity.{parse_args-IsConfig}

scale_int_capacity-clamp_example : scale_int_capacity 3 false (negsuc 715827882) 4 ≡ (
    if outside (scaled (negsuc 715827882) 3) && not false then (err scale_overflow, 4) else (
      ok (clamp (scaled (negsuc 715827882) 3)),
      (if outside (scaled (negsuc 715827882) 3) then suc 4 else 4),
    ))
scale_int_capacity-clamp_example =
    scale_int_capacity-clamp (negsuc 715827882) 3 false 4 (omega arith)

-- The second arc capacity leaves the range.
abbrev graph : MinCutGraph
graph = record { arc_capacities = pos 5 ∷ pos 2000000000 ∷ []; terminal_capacities = negsuc 6 ∷ [] }

abbrev counted : ObjectiveScaleStats
counted = record { arc_saturation_count = 0; terminal_saturation_count = 0 }

scale_graph-clamp_example : scale_graph 2 true graph counted ≡ (
  ok (record {
    arc_capacities = map (λ v. clamp (scaled v 2)) graph.arc_capacities;
    terminal_capacities = map (λ v. clamp (scaled v 2)) graph.terminal_capacities;
  }),
  record {
    arc_saturation_count = 0 + cut_count 2 graph.arc_capacities;
    terminal_saturation_count = 0 + cut_count 2 graph.terminal_capacities;
  },
)
scale_graph-clamp_example = scale_graph-clamp 2 graph counted (omega arith) refl

abbrev arguments : List Bytes
arguments =
    codes "graph.max"
    ∷ codes "--port"
    ∷ codes " 9000x"
    ∷ codes "--directed"
    ∷ codes "--num-scales"
    ∷ codes "+7"
    ∷ []

abbrev config : Config
config = record (default_config (codes "graph.max")) {
  port = 9000;
  schedule_levels = 7;
  directed = true;
}

arguments_lem : parse_args false arguments ≡ ok config
unfolding parse_args mcpd.Coordinator.parse_loop mcpd.Coordinator.value_options
    mcpd.Coordinator.parse_port mcpd.Coordinator.parse_long mcpd.Coordinator.stol
    mcpd.Coordinator.parse_int
arguments_lem = refl

parse_args-IsConfig_example : IsConfig false config
parse_args-IsConfig_example = parse_args-IsConfig false arguments config arguments_lem

-- A text with a quote and a comma in it, before the next field.
read_field-csv_value_example :
    read_field (csv_value (65 ∷ 34 ∷ 44 ∷ []) ++ (44 ∷ 66 ∷ []))
    ≡ some (65 ∷ 34 ∷ 44 ∷ [], 44 ∷ 66 ∷ [])
read_field-csv_value_example = read_field-csv_value (65 ∷ 34 ∷ 44 ∷ []) (44 ∷ 66 ∷ []) refl

abbrev greeted : RpcByteStats
greeted = record blank_rpc_bytes { rx_bytes_total = 7; hello_rx_bytes = 7 }

sum_rpc_byte_stats-IsTallied_example :
    IsTallied (sum_rpc_byte_stats blank_rpc_bytes (greeted ∷ greeted ∷ []))
sum_rpc_byte_stats-IsTallied_example =
    sum_rpc_byte_stats-IsTallied (greeted ∷ greeted ∷ []) blank_rpc_bytes
      (
        record { tx = omega arith; rx = omega arith },
        (record { tx = omega arith; rx = omega arith }, tt),
      )
      (record { tx = omega arith; rx = omega arith })

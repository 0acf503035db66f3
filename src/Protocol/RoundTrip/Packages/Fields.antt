-- ===== src/Protocol/RoundTrip/Packages/Fields.antt =====
-- The fields of a package behind the frame's header, for both modes, and what reading makes of them.
use mcpd.Base.{ℕ, ◌+◌, ◌*◌, ◌^◌, ◌<◌, ◌≡◌, List, [], map, length, All, arith}
use mcpd.Base.Int.{ℤ, IsI32}
use mcpd.Wire.{M, ok, ◌>>◌, write_i32, write_i32_vector, write_vector, Bytes, Result}
use mcpd.Wire.Reads.Scalars.{Reads-i32}
use mcpd.Wire.Reads.Vectors.{Reads-i32_vector}
use mcpd.Wire.Reads.Ends.{Ends, Ends-seq, Ends-after, Ends-last}
use mcpd.Protocol.{PartitionPackage, Mode, full, worker_load, endpoint_bytes, write_endpoint}
use mcpd.Protocol.{wire_capacities, read_partition_package, lift}
use mcpd.Protocol.RoundTrip.Packages.Capacities.{wire_capacities-IsI32, expand-wire}
use mcpd.Protocol.RoundTrip.Packages.Endpoints.{IsEndpoint, received_endpoint, Ends-endpoints}

-- A package whose numbers fit, with a capacity for each arc.
pub record IsPackage (m : PartitionPackage) : Type 0 where
  pub partition : IsI32 m.partition_id
  pub nodes : IsI32 m.local_node_count
  pub arcs : All IsI32 m.arcs
  pub arc_count : length m.arcs < 2 ^ 32
  pub capacities : All IsI32 m.arc_capacities
  pub capacity_count : length m.arc_capacities ≡ length m.arcs
  pub terminals : All IsI32 m.terminal_capacities
  pub terminal_count : length m.terminal_capacities < 2 ^ 32
  pub globals : All IsI32 m.local_to_global
  pub global_count : length m.local_to_global < 2 ^ 32
  pub endpoints : All IsEndpoint m.constraint_endpoints
  pub endpoint_count : length m.constraint_endpoints < 2 ^ 32

abbrev pub travelling_nodes : Mode → PartitionPackage → List ℤ
travelling_nodes worker_load m = []
travelling_nodes full m = m.local_to_global

-- What arrives: everything, or a package without the global numbering.
abbrev pub received_package : Mode → PartitionPackage → PartitionPackage
received_package mode m = record m {
  local_to_global = travelling_nodes mode m;
  constraint_endpoints = map (received_endpoint mode) m.constraint_endpoints;
}

unfoldable pub write_fields : PartitionPackage → Mode → M (Unit {0})
write_fields m mode = do
  write_i32 m.partition_id
  write_i32 m.local_node_count
  write_i32_vector m.arcs
  write_i32_vector (wire_capacities m mode)
  write_i32_vector m.terminal_capacities
  write_i32_vector (travelling_nodes mode m)
  write_vector m.constraint_endpoints (write_endpoint mode)

abbrev pub fields_size : PartitionPackage → Mode → ℕ
fields_size m mode =
    4
    + (4
        + (4
            + length m.arcs * 4
            + (4
                + length (wire_capacities m mode) * 4
                + (4
                    + length m.terminal_capacities * 4
                    + (4
                        + length (travelling_nodes mode m) * 4
                        + (4 + length m.constraint_endpoints * endpoint_bytes mode))))))

travelling_IsI32 :
    (mode : Mode) (m : PartitionPackage)
    → IsPackage m
    → All IsI32 (travelling_nodes mode m) × (length (travelling_nodes mode m) < 2 ^ 32)
travelling_IsI32 worker_load m v = (tt, omega arith)
travelling_IsI32 full m v = (v.globals, v.global_count)

lift_lem : {A : Type 0} (r : Result A) (a : A) (bs : Bytes) → r ≡ ok a → lift r bs ≡ ok (a, bs)
unfolding lift
lift_lem r a bs h = rw h

pub Ends-fields :
    (m : PartitionPackage) (mode : Mode)
    → IsPackage m
    → Ends
        (write_fields m mode)
        read_partition_package
        (received_package mode m)
        (fields_size m mode)
unfolding write_fields read_partition_package
Ends-fields m mode v =
    let (caps, count) = wire_capacities-IsI32 m mode v.capacities in
    let (nodes, node_count) = travelling_IsI32 mode m v in
    Ends-seq _ (Reads-i32 m.partition_id v.partition) (
      Ends-seq _ (Reads-i32 m.local_node_count v.nodes) (
        Ends-seq _ (Reads-i32_vector m.arcs v.arc_count v.arcs) (
          Ends-seq _
            (Reads-i32_vector (wire_capacities m mode)
              (omega (arith, count, v.capacity_count, v.arc_count)) caps)
            (Ends-after _
              (λ bs.
                lift_lem _ m.arc_capacities bs (expand-wire m mode v.capacity_count v.capacities))
              (Ends-seq _ (Reads-i32_vector m.terminal_capacities v.terminal_count v.terminals) (
                Ends-seq _ (Reads-i32_vector (travelling_nodes mode m) node_count nodes) (
                  Ends-last _
                    (Ends-endpoints mode m.constraint_endpoints v.endpoint_count v.endpoints))))))))

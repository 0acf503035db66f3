-- ===== src/Protocol/RoundTrip/Packages/Views.antt =====
-- The twelve buffers of a package, side by side, are the frame that a writer of the fields gives.
use mcpd.Base.{ℕ, ◌-◌, ◌^◌, ◌<◌, ◌≡◌, refl, Bool-cases, inl, inr}
use mcpd.Base.{List, [], ◌++◌, length, arith, append_assoc, append-nil, if◌then◌else◌}
use mcpd.Base.Int.{ℤ}
use mcpd.Wire.{Bytes, ok, run_writer}
use mcpd.Wire.{write_each, little_bytes, shifts_32, shifts_64}
use mcpd.Protocol.{PartitionPackage, Mode, full, worker_load, type_code}
use mcpd.Protocol.{partition_package, wire_capacities, write_endpoint, FrameBuffers, frame_buffers}
use mcpd.Protocol.{
  buffers, join_buffers, int_vector, little_i32, local_to_global_view, compact_pairs,
}
use mcpd.Protocol.{local_to_global_count, can_compact_directed_arc_capacities, sized}
use mcpd.Protocol.{frame_size_with_arc_capacity_count}
use mcpd.Protocol.RoundTrip.Packages.Capacities.{wire_capacities-IsI32}
use mcpd.Protocol.RoundTrip.Packages.Fields.{IsPackage, travelling_nodes, write_fields}
use mcpd.Protocol.RoundTrip.Packages.Pieces.{Writes, Writes-seq, Writes-i32}
use mcpd.Protocol.RoundTrip.Packages.Pieces.{Writes-i32_vector, Writes-vector}

-- The record that the constructor builds, around the bytes of the endpoints.
abbrev pub built : PartitionPackage → Mode → Bytes → FrameBuffers
built m mode endpoints =
    let size = frame_size_with_arc_capacity_count m mode (length (wire_capacities m mode)) in
    record {
      message = m;
      mode = mode;
      total_size = size;
      frame_header =
          little_bytes shifts_32 (type_code partition_package)
          ++ little_bytes shifts_64 (size - 12);
      scalar_header = little_i32 m.partition_id ++ little_i32 m.local_node_count;
      arcs_size = little_bytes shifts_32 (length m.arcs);
      arc_capacities_size = little_bytes shifts_32 (length (wire_capacities m mode));
      terminal_capacities_size = little_bytes shifts_32 (length m.terminal_capacities);
      local_to_global_size = little_bytes shifts_32 (local_to_global_count mode m);
      constraint_endpoints_size = little_bytes shifts_32 (length m.constraint_endpoints);
      use_compact_arc_capacities = can_compact_directed_arc_capacities m mode;
      compact_arc_capacities =
          if can_compact_directed_arc_capacities m mode then compact_pairs m.arc_capacities else [];
      constraint_endpoint_bytes = endpoints;
    }

sized_lem : (n : ℕ) → n < 2 ^ 32 → sized n ≡ ok (little_bytes shifts_32 n)
unfolding sized
sized_lem n h = ground arith

nodes_count :
    (mode : Mode) (m : PartitionPackage)
    → local_to_global_count mode m ≡ length (travelling_nodes mode m)
nodes_count full m = refl
nodes_count worker_load m = refl

nodes_view :
    (mode : Mode) (m : PartitionPackage)
    → local_to_global_view mode m ≡ int_vector (travelling_nodes mode m)
unfolding int_vector
nodes_view full m = refl
nodes_view worker_load m = refl

capacities_view :
    (m : PartitionPackage) (mode : Mode)
    → int_vector (
        if can_compact_directed_arc_capacities m mode
        then (if can_compact_directed_arc_capacities m mode
            then compact_pairs m.arc_capacities
            else [])
        else m.arc_capacities)
      ≡ int_vector (wire_capacities m mode)
unfolding wire_capacities
capacities_view m mode = elim (Bool-cases (can_compact_directed_arc_capacities m mode)) [
  | inl e ↦ rw e refl
  | inr e ↦ rw e refl
]

nodes_bound :
    (mode : Mode) (m : PartitionPackage) → IsPackage m → local_to_global_count mode m < 2 ^ 32
nodes_bound full m v = v.global_count
nodes_bound worker_load m v = omega arith

module _ (m : PartitionPackage) (mode : Mode) (v : IsPackage m) where
  capacities_bound : length (wire_capacities m mode) < 2 ^ 32
  capacities_bound =
      omega (arith, wire_capacities-IsI32 m mode v.capacities, v.capacity_count, v.arc_count)

  -- With counts below 2^32 the constructor does not throw.
  pub frame_buffers_lem :
      (endpoints : Bytes)
      → run_writer (write_each (write_endpoint mode) m.constraint_endpoints) ≡ ok endpoints
      → frame_buffers m mode ≡ ok (built m mode endpoints)
  unfolding frame_buffers
  frame_buffers_lem endpoints h = rw (
    sized_lem _ v.arc_count,
    sized_lem _ capacities_bound,
    sized_lem _ v.terminal_count,
    sized_lem _ (nodes_bound mode m v),
    sized_lem _ v.endpoint_count,
    h,
  )

  abbrev pub ints : List ℤ → Bytes
  ints zs = little_bytes shifts_32 (length zs) ++ int_vector zs

  -- The bytes of the fields, in the grouping of the writer.
  abbrev pub grouped : Bytes → Bytes
  grouped endpoints =
      little_i32 m.partition_id
      ++ (little_i32 m.local_node_count
          ++ (ints m.arcs
              ++ (ints (wire_capacities m mode)
                  ++ (ints m.terminal_capacities
                      ++ (ints (travelling_nodes mode m)
                          ++ (little_bytes shifts_32 (length m.constraint_endpoints)
                              ++ endpoints))))))

  pub Writes-grouped :
      (endpoints : Bytes)
      → Writes (write_each (write_endpoint mode) m.constraint_endpoints) endpoints
      → Writes (write_fields m mode) (grouped endpoints)
  unfolding write_fields
  Writes-grouped endpoints h = Writes-seq _ _ _ _ (Writes-i32 m.partition_id) (
      Writes-seq _ _ _ _ (Writes-i32 m.local_node_count) (
        Writes-seq _ _ _ _ (Writes-i32_vector m.arcs v.arc_count) (
          Writes-seq _ _ _ _ (Writes-i32_vector (wire_capacities m mode) capacities_bound) (
            Writes-seq _ _ _ _ (Writes-i32_vector m.terminal_capacities v.terminal_count) (
              Writes-seq _ _ _ _ (Writes-i32_vector (travelling_nodes mode m) bound) (
                Writes-vector (write_endpoint mode) m.constraint_endpoints endpoints
                  v.endpoint_count h))))))
    where
      bound : length (travelling_nodes mode m) < 2 ^ 32
      bound = omega (arith, nodes_count mode m, nodes_bound mode m v)

  pub join-built :
      (endpoints : Bytes)
      → join_buffers (buffers (built m mode endpoints))
        ≡ (built m mode endpoints).frame_header ++ grouped endpoints
  unfolding join_buffers buffers
  join-built endpoints =
      rw (nodes_count mode m, nodes_view mode m, capacities_view m mode)
        (simp (append_assoc, append-nil))

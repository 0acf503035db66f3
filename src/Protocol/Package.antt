-- ===== src/Protocol/Package.antt =====
-- PARTITION_PACKAGE: its size computed ahead, the compact form of directed arc capacities, and the
-- two forms of constraint endpoints.
use mcpd.Base.{ℕ, ◌+◌, ◌-◌, ◌*◌, ◌/◌, ◌%◌, Bool, true, false, not, ◌&&◌, ◌||◌, List, [], ◌∷◌}
use mcpd.Base.{length, ltb, ◌==◌, if◌then◌else◌}
use mcpd.Base.Int.{ℤ, pos, negsuc, int_min, ltb_ℤ, eq_ℤ, ◌-ℤ◌}
use mcpd.Wire.{Bytes, Result, ok, err, and_then, M, ◌>>=◌, ◌>>◌, pure, throw, run_writer}
use mcpd.Wire.{write_u32, write_u64, write_i32, write_i64, write_bool, write_float, write_vector}
use mcpd.Wire.{write_i32_vector, read_u32, read_i32, read_bool, read_float, read_times, remaining}
use mcpd.Wire.{read_i32_vector, truncated_endpoints, arc_capacity_count, arc_capacity_out_of_range}
use mcpd.Protocol.Messages.{PartitionPackage, ConstraintEndpointBinding, partition_package}
use mcpd.Protocol.Framing.{frame_header_bytes, type_code, decode_expected_frame_view, run_reader_at}
use mcpd.Protocol.Framing.{whole}
use mcpd.Protocol.Solve.{read_long}

abbrev pub constraint_endpoint_bytes : ℕ
constraint_endpoint_bytes = 4 + 4 + 4 + 1 + 8 + 8 + 4

abbrev pub compact_constraint_endpoint_bytes : ℕ
compact_constraint_endpoint_bytes = 4 + 4 + 1 + 8 + 8

unfoldable pub write_constraint_endpoint : ConstraintEndpointBinding → M (Unit {0})
write_constraint_endpoint binding = do
  write_i32 binding.constraint_id
  write_i32 binding.global_node_id
  write_i32 binding.local_index
  write_bool binding.is_source
  write_i64 binding.alpha
  write_i64 binding.last_alpha
  write_float binding.alpha_momentum

unfoldable pub write_compact_constraint_endpoint : ConstraintEndpointBinding → M (Unit {0})
write_compact_constraint_endpoint binding = do
  write_i32 binding.constraint_id
  write_i32 binding.local_index
  write_bool binding.is_source
  write_i64 binding.alpha
  write_i64 binding.last_alpha

unfoldable pub read_constraint_endpoint : M ConstraintEndpointBinding
read_constraint_endpoint = do
  constraint_id ← read_i32
  global_node_id ← read_i32
  local_index ← read_i32
  is_source ← read_bool
  alpha ← read_long
  last_alpha ← read_long
  alpha_momentum ← read_float
  pure (record {
    constraint_id = constraint_id;
    global_node_id = global_node_id;
    local_index = local_index;
    is_source = is_source;
    alpha = alpha;
    last_alpha = last_alpha;
    alpha_momentum = alpha_momentum;
  })

-- The compact branch of the loop in readConstraintEndpointVector.
unfoldable pub read_compact_constraint_endpoint : M ConstraintEndpointBinding
read_compact_constraint_endpoint = do
  constraint_id ← read_i32
  local_index ← read_i32
  is_source ← read_bool
  alpha ← read_long
  last_alpha ← read_long
  pure (record {
    constraint_id = constraint_id;
    global_node_id = negsuc 0;
    local_index = local_index;
    is_source = is_source;
    alpha = alpha;
    last_alpha = last_alpha;
    alpha_momentum = 0;
  })

-- The rest of readConstraintEndpointVector, once `size` and the bytes that are left are known.
unfoldable pub read_endpoints : ℕ → ℕ → M (List ConstraintEndpointBinding)
read_endpoints size left =
    let compact = left == size * compact_constraint_endpoint_bytes in
    if not compact && ltb left (size * constraint_endpoint_bytes)
    then throw truncated_endpoints
    else read_times size
        (if compact then read_compact_constraint_endpoint else read_constraint_endpoint)

unfoldable pub read_constraint_endpoint_vector : M (List ConstraintEndpointBinding)
read_constraint_endpoint_vector = do size ← read_u32; left ← remaining; read_endpoints size left

-- PartitionPackageFrameBuffers::Mode
pub data Mode : Type 0 where
  full worker_load : Mode

-- The loop of canCompactDirectedArcCapacities; a last capacity without a partner, which the size
-- check before the loop excludes, would be read out of bounds.
unfoldable pub pairs_are_directed : List ℤ → Bool
pairs_are_directed [] = true
pairs_are_directed (forward ∷ []) = false
pairs_are_directed (forward ∷ (backward ∷ capacities)) =
    let rest = pairs_are_directed capacities in
    if ltb_ℤ forward (pos 0) || ltb_ℤ backward (pos 0)
    then false
    else if not (eq_ℤ forward (pos 0)) && not (eq_ℤ backward (pos 0))
    then false
    else rest

abbrev pub is_empty {ℓ} : {T : Type ℓ} → List T → Bool
is_empty [] = true
is_empty (x ∷ xs) = false

unfoldable pub can_compact_directed_arc_capacities : PartitionPackage → Mode → Bool
can_compact_directed_arc_capacities message full = false
can_compact_directed_arc_capacities message worker_load =
    if not (length message.arc_capacities == length message.arcs)
      || not (length message.arc_capacities % 2 == 0)
    then false
    else pairs_are_directed message.arc_capacities && not (is_empty message.arc_capacities)

unfoldable pub arc_capacity_wire_count : PartitionPackage → Mode → ℕ
arc_capacity_wire_count message mode =
    if can_compact_directed_arc_capacities message mode
    then length message.arc_capacities / 2
    else length message.arc_capacities

abbrev local_to_global_bytes : Mode → PartitionPackage → ℕ
local_to_global_bytes worker_load message = 0
local_to_global_bytes full message = length message.local_to_global * 4

abbrev pub endpoint_bytes : Mode → ℕ
endpoint_bytes worker_load = compact_constraint_endpoint_bytes
endpoint_bytes full = constraint_endpoint_bytes

unfoldable pub frame_size_with_arc_capacity_count : PartitionPackage → Mode → ℕ → ℕ
frame_size_with_arc_capacity_count message mode arc_capacity_wire_count =
    frame_header_bytes
    + 8
    + 4
    + length message.arcs * 4
    + 4
    + arc_capacity_wire_count * 4
    + 4
    + length message.terminal_capacities * 4
    + 4
    + local_to_global_bytes mode message
    + 4
    + length message.constraint_endpoints * endpoint_bytes mode

unfoldable pub partition_package_frame_size : PartitionPackage → Mode → ℕ
partition_package_frame_size message mode =
    frame_size_with_arc_capacity_count message mode (arc_capacity_wire_count message mode)

-- The loop of expandCompactArcCapacities.
unfoldable pub expand_each : List ℤ → Result (List ℤ)
expand_each [] = ok []
expand_each (signed_capacity ∷ capacities) =
    let rest = expand_each capacities in
    if eq_ℤ signed_capacity int_min
    then err arc_capacity_out_of_range
    else if ltb_ℤ signed_capacity (pos 0)
    then and_then rest (λ expanded. ok (pos 0 ∷ ((pos 0 -ℤ signed_capacity) ∷ expanded)))
    else and_then rest (λ expanded. ok (signed_capacity ∷ (pos 0 ∷ expanded)))

unfoldable pub expand_compact_arc_capacities : List ℤ → List ℤ → Result (List ℤ)
expand_compact_arc_capacities arcs arc_capacities =
    if length arc_capacities == length arcs
    then ok arc_capacities
    else if not (length arcs % 2 == 0) || not (length arc_capacities == length arcs / 2)
    then err arc_capacity_count
    else expand_each arc_capacities

unfoldable pub encode_partition_package : PartitionPackage → Result Bytes
encode_partition_package message =
    let frame_size = partition_package_frame_size message full in
    run_writer (do
      write_u32 (type_code partition_package)
      write_u64 (frame_size - frame_header_bytes)
      write_i32 message.partition_id
      write_i32 message.local_node_count
      write_i32_vector message.arcs
      write_i32_vector message.arc_capacities
      write_i32_vector message.terminal_capacities
      write_i32_vector message.local_to_global
      write_vector message.constraint_endpoints write_constraint_endpoint)

-- A result as a step of a reader.
unfoldable pub lift : {A : Type 0} → Result A → M A
lift (ok a) bytes = ok (a, bytes)
lift (err e) bytes = err e

unfoldable pub read_partition_package : M PartitionPackage
read_partition_package = do
  partition_id ← read_i32
  local_node_count ← read_i32
  arcs ← read_i32_vector
  signed_capacities ← read_i32_vector
  arc_capacities ← lift (expand_compact_arc_capacities arcs signed_capacities)
  terminal_capacities ← read_i32_vector
  local_to_global ← read_i32_vector
  constraint_endpoints ← read_constraint_endpoint_vector
  pure (record {
    partition_id = partition_id;
    local_node_count = local_node_count;
    arcs = arcs;
    arc_capacities = arc_capacities;
    terminal_capacities = terminal_capacities;
    local_to_global = local_to_global;
    constraint_endpoints = constraint_endpoints;
  })

unfoldable pub decode_partition_package : Bytes → Result PartitionPackage
decode_partition_package frame =
    and_then (decode_expected_frame_view frame partition_package) (λ decoded.
      run_reader_at (whole read_partition_package) frame decoded.payload_offset
        decoded.payload_size)

-- ===== src/Protocol/Buffers.antt =====
-- class PartitionPackageFrameBuffers: the frame of a package as twelve buffers, so that the vectors
-- need no copy. A view is held as the bytes that it shows; the host is little-endian with 32-bit int.
use mcpd.Base.{ℕ, ◌-◌, ◌^◌, Bool, not, List, [], ◌∷◌, ◌++◌, length, ltb, if◌then◌else◌}
use mcpd.Base.Int.{ℤ, pos, eq_ℤ, ◌-ℤ◌, to_bits}
use mcpd.Wire.{Bytes, Result, ok, err, and_then, M, run_writer, write_each, little_bytes, shifts_32}
use mcpd.Wire.{shifts_64, container_too_large}
use mcpd.Protocol.Messages.{PartitionPackage, ConstraintEndpointBinding, partition_package}
use mcpd.Protocol.Framing.{frame_header_bytes, type_code}
use mcpd.Protocol.Package.{Mode, full, worker_load, can_compact_directed_arc_capacities}
use mcpd.Protocol.Package.{frame_size_with_arc_capacity_count, write_constraint_endpoint}
use mcpd.Protocol.Package.{write_compact_constraint_endpoint}

pub record FrameBuffers : Type 0 where
  pub message : PartitionPackage
  pub mode : Mode
  pub total_size : ℕ
  pub frame_header : Bytes
  pub scalar_header : Bytes
  pub arcs_size : Bytes
  pub arc_capacities_size : Bytes
  pub terminal_capacities_size : Bytes
  pub local_to_global_size : Bytes
  pub constraint_endpoints_size : Bytes
  pub use_compact_arc_capacities : Bool
  pub compact_arc_capacities : List ℤ
  pub constraint_endpoint_bytes : Bytes

-- writeLittleI32
abbrev pub little_i32 : ℤ → Bytes
little_i32 value = little_bytes shifts_32 (to_bits (2 ^ 32) value)

-- `writeLittleU32(array, checkedSize(size))`
unfoldable pub sized : ℕ → Result Bytes
sized size =
    if ltb (2 ^ 32 - 1) size then err container_too_large else ok (little_bytes shifts_32 size)

-- The loop of the constructor over pairs of capacities.
unfoldable pub compact_pairs : List ℤ → List ℤ
compact_pairs [] = []
compact_pairs (forward ∷ []) = []
compact_pairs (forward ∷ (backward ∷ capacities)) =
    (if not (eq_ℤ backward (pos 0)) then pos 0 -ℤ backward else forward) ∷ compact_pairs capacities

-- The capacities that travel.
unfoldable pub wire_capacities : PartitionPackage → Mode → List ℤ
wire_capacities message mode =
    if can_compact_directed_arc_capacities message mode
    then compact_pairs message.arc_capacities
    else message.arc_capacities

abbrev pub write_endpoint : Mode → ConstraintEndpointBinding → M (Unit {0})
write_endpoint worker_load = write_compact_constraint_endpoint
write_endpoint full = write_constraint_endpoint

abbrev pub local_to_global_count : Mode → PartitionPackage → ℕ
local_to_global_count worker_load message = 0
local_to_global_count full message = length message.local_to_global

infixl 5 ◌>>=◌
abbrev ◌>>=◌ : {A B : Type 0} → Result A → (A → Result B) → Result B
◌>>=◌ = and_then

-- The constructor.
unfoldable pub frame_buffers : PartitionPackage → Mode → Result FrameBuffers
frame_buffers message mode = do
  let wire_count = length (wire_capacities message mode)
  let total_size = frame_size_with_arc_capacity_count message mode wire_count
  arcs_size ← sized (length message.arcs)
  arc_capacities_size ← sized wire_count
  terminal_capacities_size ← sized (length message.terminal_capacities)
  local_to_global_size ← sized (local_to_global_count mode message)
  constraint_endpoints_size ← sized (length message.constraint_endpoints)
  endpoints ← run_writer (write_each (write_endpoint mode) message.constraint_endpoints)
  ok (record {
    message = message;
    mode = mode;
    total_size = total_size;
    frame_header =
        little_bytes shifts_32 (type_code partition_package)
        ++ little_bytes shifts_64 (total_size - frame_header_bytes);
    scalar_header = little_i32 message.partition_id ++ little_i32 message.local_node_count;
    arcs_size = arcs_size;
    arc_capacities_size = arc_capacities_size;
    terminal_capacities_size = terminal_capacities_size;
    local_to_global_size = local_to_global_size;
    constraint_endpoints_size = constraint_endpoints_size;
    use_compact_arc_capacities = can_compact_directed_arc_capacities message mode;
    compact_arc_capacities =
        if can_compact_directed_arc_capacities message mode
        then compact_pairs message.arc_capacities
        else [];
    constraint_endpoint_bytes = endpoints;
  })

-- The raw bytes of a vector of int.
unfoldable pub int_vector : List ℤ → Bytes
int_vector [] = []
int_vector (value ∷ values) = little_i32 value ++ int_vector values

abbrev pub local_to_global_view : Mode → PartitionPackage → Bytes
local_to_global_view worker_load message = []
local_to_global_view full message = int_vector message.local_to_global

unfoldable pub buffers : FrameBuffers → List Bytes
buffers b =
    b.frame_header
    ∷ (b.scalar_header
        ∷ (b.arcs_size
            ∷ (int_vector b.message.arcs
                ∷ (b.arc_capacities_size
                    ∷ (int_vector (
                          if b.use_compact_arc_capacities
                          then b.compact_arc_capacities
                          else b.message.arc_capacities)
                        ∷ (b.terminal_capacities_size
                            ∷ (int_vector b.message.terminal_capacities
                                ∷ (b.local_to_global_size
                                    ∷ (local_to_global_view b.mode b.message
                                        ∷ (b.constraint_endpoints_size
                                            ∷ (b.constraint_endpoint_bytes ∷ [])))))))))))

-- What the socket sees, buffer after buffer; also joinBuffers of src/tcp.cpp.
unfoldable pub join_buffers : List Bytes → Bytes
join_buffers [] = []
join_buffers (buffer ∷ buffers) = buffer ++ join_buffers buffers

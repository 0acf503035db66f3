-- ===== src/Runtime/Packages.antt =====
-- class SocketPayloadReader: a package is read field by field from the socket, so that its payload is
-- not buffered.
use mcpd.Base.{ℕ, ◌+◌, ◌-◌, ◌*◌, ◌^◌, List, [], Bool, not, ◌&&◌, ltb, ◌==◌, if◌then◌else◌}
use mcpd.Base.Int.{ℤ, of_bits}
use mcpd.Wire.{
  Bytes, Result, M, run_reader, read_times, truncated_payload, truncated_endpoints, trailing_bytes,
}
use mcpd.Wire.{read_i32}
use mcpd.Wire.Act.{Act, ◌>>=◌, ◌>>◌, return, fail, lift, on, modify, get}
use mcpd.Protocol.{
  PartitionPackage, ConstraintEndpointBinding, whole, expand_compact_arc_capacities,
}
use mcpd.Protocol.{constraint_endpoint_bytes, compact_constraint_endpoint_bytes}
use mcpd.Protocol.{read_constraint_endpoint, read_compact_constraint_endpoint}
use mcpd.Tcp.{Socket, receiving, read_all, read_little_u32}

pub record PayloadReader : Type 0 where
  pub socket : Socket
  pub payload_size : ℕ
  pub offset : ℕ

abbrev with_socket : PayloadReader → Socket → PayloadReader
with_socket reader socket = record reader { socket = socket }

abbrev pub advanced : ℕ → PayloadReader → PayloadReader
advanced size reader = record reader { offset = reader.offset + size }

unfoldable pub read_bytes : ℕ → Act PayloadReader Bytes
read_bytes size = do
  reader ← get
  if ltb (reader.payload_size - reader.offset) size then fail truncated_payload else do
    bytes ← on (λ r. r.socket) with_socket (receiving (read_all size))
    modify (advanced size)
    return bytes

unfoldable pub read_payload_u32 : Act PayloadReader ℕ
read_payload_u32 = do bytes ← read_bytes 4; return (read_little_u32 bytes)

unfoldable pub read_payload_i32 : Act PayloadReader ℤ
read_payload_i32 = do bytes ← read_bytes 4; return (of_bits (2 ^ 32) (read_little_u32 bytes))

-- The bytes are read into the array of ints: on the supported hosts, `size` times four bytes as readI32.
unfoldable pub read_payload_i32_vector : Act PayloadReader (List ℤ)
read_payload_i32_vector = do
  size ← read_payload_u32
  if size == 0
      then return []
      else do bytes ← read_bytes (size * 4); lift (run_reader (read_times size read_i32) bytes)

-- The closures read from `bytes` as the methods of Reader do; the last check is on their offset.
unfoldable pub read_copied_endpoints : Bool → ℕ → M (List ConstraintEndpointBinding)
read_copied_endpoints compact size = whole (
    read_times size
      (if compact then read_compact_constraint_endpoint else read_constraint_endpoint))

-- The rest of readConstraintEndpoints, once `size` and the bytes that are left are known.
unfoldable pub copy_endpoints : ℕ → ℕ → Act PayloadReader (List ConstraintEndpointBinding)
copy_endpoints size left =
    let compact = left == size * compact_constraint_endpoint_bytes in
    let byte_count =
      (if compact
        then size * compact_constraint_endpoint_bytes
        else size * constraint_endpoint_bytes) in
    if not compact && ltb left (size * constraint_endpoint_bytes)
    then fail truncated_endpoints
    else (do
      bytes ← (if byte_count == 0 then return [] else read_bytes byte_count)
      lift (run_reader (read_copied_endpoints compact size) bytes))

unfoldable pub read_payload_endpoints : Act PayloadReader (List ConstraintEndpointBinding)
read_payload_endpoints = do
  size ← read_payload_u32
  reader ← get
  copy_endpoints size (reader.payload_size - reader.offset)

unfoldable pub require_payload_done : Act PayloadReader (Unit {0})
require_payload_done = do
  reader ← get
  if not (reader.offset == reader.payload_size) then fail trailing_bytes else return tt

unfoldable pub read_payload_package : Act PayloadReader PartitionPackage
read_payload_package = do
  partition_id ← read_payload_i32
  local_node_count ← read_payload_i32
  arcs ← read_payload_i32_vector
  signed_capacities ← read_payload_i32_vector
  arc_capacities ← lift (expand_compact_arc_capacities arcs signed_capacities)
  terminal_capacities ← read_payload_i32_vector
  local_to_global ← read_payload_i32_vector
  constraint_endpoints ← read_payload_endpoints
  require_payload_done
  return (record {
    partition_id = partition_id;
    local_node_count = local_node_count;
    arcs = arcs;
    arc_capacities = arc_capacities;
    terminal_capacities = terminal_capacities;
    local_to_global = local_to_global;
    constraint_endpoints = constraint_endpoints;
  })

abbrev result_and_socket : {A : Type 0} → Result A × PayloadReader → Result A × Socket
result_and_socket (r, reader) = (r, reader.socket)

unfoldable pub receive_partition_package_payload : ℕ → Act Socket PartitionPackage
receive_partition_package_payload payload_size socket =
    result_and_socket
      (read_payload_package (record { socket = socket; payload_size = payload_size; offset = 0 }))

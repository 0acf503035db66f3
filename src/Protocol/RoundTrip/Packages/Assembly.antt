-- ===== src/Protocol/RoundTrip/Packages/Assembly.antt =====
-- One package: its fields, its frame, its buffers, and the equations between them.
use mcpd.Base.{ℕ, ◌+◌, ◌-◌, ◌*◌, ◌^◌, ◌<◌, ◌≤◌, ◌≡◌, sym, ap, ◌∙◌, ◌++◌, length, arith}
use mcpd.Base.{append_assoc, [], take, drop}
use mcpd.Wire.{Bytes, ok, M, ◌>>◌, run_writer, write_u32, write_u64}
use mcpd.Wire.{run_reader, little_bytes, shifts_32, shifts_64}
use mcpd.Wire.Reads.{run_writer-Reads}
use mcpd.Protocol.{PartitionPackage, Mode, full, worker_load, partition_package, type_code}
use mcpd.Protocol.{FrameBuffers, frame_buffers, buffers, join_buffers, endpoint_bytes, whole}
use mcpd.Protocol.{decode_partition_package}
use mcpd.Protocol.{frame_size_with_arc_capacity_count, wire_capacities, decode_expected_frame_view}
use mcpd.Protocol.{run_reader_at}
use mcpd.Protocol.{read_partition_package}
use mcpd.Protocol.RoundTrip.Frames.{header, header-Reads, decode_frame_view_lem, length-frame}
use mcpd.Protocol.RoundTrip.Frames.{payload_of-frame, run_reader-Ends}
use mcpd.Protocol.RoundTrip.Packages.Capacities.{wire_capacities-IsI32}
use mcpd.Protocol.RoundTrip.Packages.Endpoints.{Reads-endpoints}
use mcpd.Protocol.RoundTrip.Packages.Fields.{
  IsPackage, received_package, write_fields, fields_size, Ends-fields, travelling_nodes,
}
use mcpd.Protocol.RoundTrip.Packages.Pieces.{Writes-seq, Writes-unique, Writes-u32, Writes-u64}
use mcpd.Protocol.RoundTrip.Packages.Views.{
  built, frame_buffers_lem, Writes-grouped, join-built, grouped,
}

-- The size that is computed ahead is 12 bytes more than the fields take.
pub frame_size-fields :
    (m : PartitionPackage) (mode : Mode)
    → frame_size_with_arc_capacity_count m mode (length (wire_capacities m mode))
      ≡ 12 + fields_size m mode
unfolding frame_size_with_arc_capacity_count
frame_size-fields m full = omega arith
frame_size-fields m worker_load = omega arith

mode_bounds :
    (mode : Mode) (m : PartitionPackage)
    → IsPackage m
    → (length (travelling_nodes mode m) < 2 ^ 32)
      × (length m.constraint_endpoints * endpoint_bytes mode < 2 ^ 38)
mode_bounds full m v = (v.global_count, omega (arith, v.endpoint_count))
mode_bounds worker_load m v = (omega arith, omega (arith, v.endpoint_count))

run_reader_at_lem :
    {A : Type 0} (body : M A) (bytes : Bytes) (offset size : ℕ)
    → offset + size ≤ length bytes
    → run_reader_at body bytes offset size ≡ run_reader body (take size (drop offset bytes))
unfolding run_reader_at
run_reader_at_lem body bytes offset size h = ground arith

module _ (m : PartitionPackage) (mode : Mode) (v : IsPackage m) where
  abbrev pub partition_size : ℕ
  partition_size = frame_size_with_arc_capacity_count m mode (length (wire_capacities m mode))

  fields_bound : fields_size m mode < 2 ^ 64
  fields_bound = omega (
    arith,
    v.arc_count,
    v.terminal_count,
    v.endpoint_count,
    wire_capacities-IsI32 m mode v.capacities,
    v.capacity_count,
    mode_bounds mode m v,
  )

  pub fields : Bytes
  fields = (Ends-fields m mode v).bytes

  pub fields_fit : length fields < 2 ^ 64
  unfolding fields
  fields_fit = omega (arith, (Ends-fields m mode v).sized, fields_bound)

  unfoldable pub frame : Bytes
  frame = header partition_package (length fields) fields_fit ++ fields

  pub fields-sized : 12 + length fields ≡ partition_size
  unfolding fields
  fields-sized = omega (arith, (Ends-fields m mode v).sized, frame_size-fields m mode)

  pub decode-frame : decode_partition_package frame ≡ ok (received_package mode m)
  unfolding decode_partition_package decode_expected_frame_view frame
  decode-frame = rw (decode_frame_view_lem partition_package fields fields_fit) (
      run_reader_at_lem (whole read_partition_package) frame 12 (length fields)
        (omega (arith, length-frame partition_package fields fields_fit))
      ∙ ap (run_reader (whole read_partition_package))
          (payload_of-frame partition_package fields fields_fit)
      ∙ (unfold fields in run_reader-Ends (Ends-fields m mode v)))

  -- The bytes of the endpoints, and the buffers around them.
  unfoldable pub endpoints : Bytes
  endpoints = (Reads-endpoints mode m.constraint_endpoints v.endpoints).bytes

  unfoldable pub result : FrameBuffers
  result = built m mode endpoints

  pub result_lem : frame_buffers m mode ≡ ok result
  unfolding result endpoints
  result_lem =
      frame_buffers_lem m mode v _
        (run_writer-Reads (Reads-endpoints mode m.constraint_endpoints v.endpoints))

  header_pieces :
      little_bytes shifts_32 (type_code partition_package) ++ little_bytes shifts_64 (length fields)
      ≡ header partition_package (length fields) fields_fit
  header_pieces =
      Writes-unique (write_u32 (type_code partition_package) >> write_u64 (length fields)) _ _
        (Writes-seq _ _ _ _ (Writes-u32 _) (Writes-u64 _))
        ((header-Reads partition_package (length fields) fields_fit).written)

  fields_pieces : grouped m mode v endpoints ≡ fields
  unfolding fields endpoints
  fields_pieces =
      Writes-unique (write_fields m mode) _ _
        (Writes-grouped m mode v _
          ((Reads-endpoints mode m.constraint_endpoints v.endpoints).written))
        ((Ends-fields m mode v).written)

  pub join-result : join_buffers (buffers result) ≡ frame
  unfolding result frame
  join-result =
      join-built m mode v endpoints
      ∙ ap (λ (t : Bytes). (built m mode endpoints).frame_header ++ t) fields_pieces
      ∙ ap
          (λ (n : ℕ).
            little_bytes shifts_32 (type_code partition_package)
            ++ little_bytes shifts_64 n
            ++ fields)
          (omega (arith, fields-sized))
      ∙ ap (λ (t : Bytes). t ++ fields) header_pieces

  pub frame-sized : length frame ≡ partition_size
  unfolding frame
  frame-sized = length-frame partition_package fields fields_fit ∙ fields-sized

  -- The header and the fields, written one after the other.
  pub frame-written :
      run_writer (do
        write_u32 (type_code partition_package)
        write_u64 (partition_size - 12)
        write_fields m mode)
      ≡ ok frame
  unfolding frame run_writer fields
  frame-written =
      rw
        (Writes-seq (write_u32 (type_code partition_package)) _ _ _ (Writes-u32 _)
          (Writes-seq (write_u64 (partition_size - 12)) _ _ _ (Writes-u64 _)
            ((Ends-fields m mode v).written))
          [])
        (ap ok (
          ap
            (λ (n : ℕ).
              little_bytes shifts_32 (type_code partition_package)
              ++ (little_bytes shifts_64 n ++ (Ends-fields m mode v).bytes))
            (omega (arith, fields-sized))
          ∙ sym (append_assoc _ _ (Ends-fields m mode v).bytes)
          ∙ ap (λ (t : Bytes). t ++ (Ends-fields m mode v).bytes) header_pieces))

-- ===== src/Protocol/RoundTrip/Packages.antt =====
-- Partition packages, as one frame and as the buffers of a frame.
pub mod Capacities
pub mod Endpoints
pub mod Fields
pub mod Pieces
pub mod Views
mod Assembly
use mcpd.Base.{ℕ, ◌+◌, ◌≡◌, refl, sym, ap, ◌∙◌, ◌++◌, length, List, [], ◌∷◌, map, arith}
use mcpd.Wire.{Bytes, ok, run_writer, ◌>>◌, write_u32, write_u64}
use mcpd.Protocol.{
  PartitionPackage, ConstraintEndpointBinding, Mode, full, worker_load, FrameBuffers,
}
use mcpd.Protocol.{frame_buffers, buffers, join_buffers, encode_partition_package, type_code}
use mcpd.Protocol.{decode_partition_package, partition_package_frame_size, arc_capacity_wire_count}
use mcpd.Protocol.{can_compact_directed_arc_capacities, partition_package, wire_capacities}
use mcpd.Protocol.RoundTrip.Frames.{Travels, header-Reads, length-frame}
use Fields.{IsPackage, received_package, write_fields}
use Endpoints.{received_endpoint}
use Pieces.{Writes, Writes-seq}
use Assembly.{frame, decode-frame, result, result_lem, join-result, frame-sized, frame-written}

-- In both modes the buffers of a package that fits are built, they have together the size that was
-- computed ahead, and side by side they are a frame that decodePartitionPackage reads: in full mode
-- as the package, in worker-load mode as the package with all arc capacities, without the global
-- numbering of its nodes, its endpoints and their momentum.
pub decode-buffers :
    (m : PartitionPackage) (mode : Mode)
    → IsPackage m
    → (b : FrameBuffers) × (frame_buffers m mode ≡ ok b)
      × (length (join_buffers (buffers b)) ≡ b.total_size)
      × (decode_partition_package (join_buffers (buffers b)) ≡ ok (received_package mode m))
decode-buffers m mode v = (
  result m mode v,
  result_lem m mode v,
  ap length (join-result m mode v) ∙ frame-sized m mode v ∙ (unfold result in refl),
  ap decode_partition_package (join-result m mode v) ∙ decode-frame m mode v,
)

map-received_full : (bs : List ConstraintEndpointBinding) → map (received_endpoint full) bs ≡ bs
map-received_full [] = refl
map-received_full (b ∷ bs) =
    ap (λ (t : List ConstraintEndpointBinding). b ∷ t) (map-received_full bs)

received_full : (m : PartitionPackage) → received_package full m ≡ m
received_full m =
    ap (λ (t : List ConstraintEndpointBinding). record m { constraint_endpoints = t })
      (map-received_full m.constraint_endpoints)

encode-frame :
    (m : PartitionPackage) (v : IsPackage m) → encode_partition_package m ≡ ok (frame m full v)
unfolding encode_partition_package partition_package_frame_size arc_capacity_wire_count
    can_compact_directed_arc_capacities wire_capacities write_fields
encode-frame m v = frame-written m full v

-- For a package that fits, encodePartitionPackage gives the bytes that the buffers of full mode show.
pub encode-buffers :
    (m : PartitionPackage)
    → IsPackage m
    → (b : FrameBuffers) × (frame_buffers m full ≡ ok b)
      × (encode_partition_package m ≡ ok (join_buffers (buffers b)))
encode-buffers m v =
    (result m full v, result_lem m full v, encode-frame m v ∙ ap ok (sym (join-result m full v)))

-- A package that fits comes back whole from its frame, which has the size computed ahead.
pub decode_package-encode_package :
    (m : PartitionPackage)
    → IsPackage m
    → Travels
        (encode_partition_package m)
        decode_partition_package
        m
        (partition_package_frame_size m full)
decode_package-encode_package m v = (
  frame m full v,
  encode-frame m v,
  frame-sized m full v
      ∙ (unfold partition_package_frame_size arc_capacity_wire_count
            can_compact_directed_arc_capacities wire_capacities in
          refl),
  decode-frame m full v ∙ ap ok (received_full m),
)

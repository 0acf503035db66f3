-- ===== src/Runtime/Sessions.antt =====
-- The state of a TcpPartitionWorker, which is the coordinator's end of one worker's connection, and what
-- the two ends check of a greeting.
use mcpd.Base.{ℕ, ◌-◌, ◌^◌, ◌++◌, Bool, not, List, [], length, ltb, ◌==◌, if◌then◌else◌, bit_and}
use mcpd.Base.Int.{ℤ}
use mcpd.Base.Text.{codes, decimal, decimal_ℤ}
use mcpd.Wire.{Bytes, Result, ok, err, and_then, Error, remote_error}
use mcpd.Wire.{unsupported_version, big_endian_worker}
use mcpd.Protocol.{hello}
use mcpd.Protocol.{HelloMessage, PartitionPackage}
use mcpd.Protocol.{decode_error}
use mcpd.Protocol.{FrameBuffers}
use mcpd.Delta.{TemporalSolveCodecState}
use mcpd.Delta.{blank_partition}
use mcpd.Tcp.{Socket, TransportCompression}
use mcpd.Tcp.{bare_stats}
use mcpd.Runtime.Stats.{RpcByteStats, record_frame_received, blank_rpc_bytes}

abbrev pub protocol_version : ℕ
protocol_version = 8

abbrev pub feature_snappy_compression : ℕ
feature_snappy_compression = 1

unfoldable pub validate_hello : HelloMessage → Result (Unit {0})
validate_hello message =
    if not (message.protocol_version == protocol_version)
    then err unsupported_version
    else if not message.little_endian
    then err big_endian_worker
    else ok tt

unfoldable pub compression_feature_enabled : HelloMessage → ℕ → Bool
compression_feature_enabled message feature = not (bit_and message.feature_bits feature == 0)

-- `remoteError(frame)`, which throws itself when the frame is none.
unfoldable pub remote_error_of : Bytes → Error
remote_error_of frame = elim (decode_error frame) [ ok m ↦ remote_error m.message | err e ↦ e ]

-- What is measured while a call runs, in microseconds.
pub record Times : Type 0 where
  pub compression : ℕ
  pub decompression : ℕ
  pub elapsed : ℕ

pub record TcpPartitionWorkerTimingStats : Type 0 where
  pub load_partition_rpc_wall_us : ℕ
  pub solve_round_rpc_wall_us : ℕ
  pub solve_round_worker_wall_us : ℕ
  pub scale_objective_rpc_wall_us : ℕ
  pub load_partition_rpc_count : ℕ
  pub partition_solve_call_count : ℕ
  pub solve_batch_rpc_count : ℕ
  pub scale_objective_rpc_count : ℕ
  pub rpc_bytes : RpcByteStats

abbrev pub blank_timing : TcpPartitionWorkerTimingStats
blank_timing = record {
  load_partition_rpc_wall_us = 0;
  solve_round_rpc_wall_us = 0;
  solve_round_worker_wall_us = 0;
  scale_objective_rpc_wall_us = 0;
  load_partition_rpc_count = 0;
  partition_solve_call_count = 0;
  solve_batch_rpc_count = 0;
  scale_objective_rpc_count = 0;
  rpc_bytes = blank_rpc_bytes;
}

pub record TcpPartitionWorker : Type 0 where
  pub socket : Socket
  pub hello : HelloMessage
  pub compression : TransportCompression
  pub timing_stats : TcpPartitionWorkerTimingStats
  pub partition_ids : List ℤ
  pub temporal_state : TemporalSolveCodecState

abbrev pub with_socket : TcpPartitionWorker → Socket → TcpPartitionWorker
with_socket worker socket = record worker { socket = socket }

abbrev pub with_state : TcpPartitionWorker → TemporalSolveCodecState → TcpPartitionWorker
with_state worker state = record worker { temporal_state = state }

abbrev pub counting : (RpcByteStats → RpcByteStats) → TcpPartitionWorker → TcpPartitionWorker
counting f worker = record worker {
  timing_stats = record worker.timing_stats { rpc_bytes = f worker.timing_stats.rpc_bytes };
}

abbrev pub timing :
    (TcpPartitionWorkerTimingStats → TcpPartitionWorkerTimingStats)
    → TcpPartitionWorker
    → TcpPartitionWorker
timing f worker = record worker { timing_stats = f worker.timing_stats }

-- The constructor.
unfoldable pub tcp_partition_worker :
    Socket → HelloMessage → ℕ → TransportCompression → Result TcpPartitionWorker
tcp_partition_worker socket message hello_rx_bytes compression =
    and_then (validate_hello message) (λ valid. ok (
      counting (record_frame_received hello (bare_stats hello_rx_bytes)) (record {
        socket = socket;
        hello = message;
        compression = compression;
        timing_stats = blank_timing;
        partition_ids = [];
        temporal_state = record { partitions = λ id. blank_partition };
      })))

-- `"partition_id " << ... << package.constraint_endpoints.size()`
unfoldable pub partition_package_summary : PartitionPackage → Bytes
partition_package_summary loaded =
    codes "partition_id "
    ++ decimal_ℤ loaded.partition_id
    ++ codes " local_nodes "
    ++ decimal_ℤ loaded.local_node_count
    ++ codes " arc_int_count "
    ++ decimal (length loaded.arcs)
    ++ codes " arc_capacity_count "
    ++ decimal (length loaded.arc_capacities)
    ++ codes " terminal_count "
    ++ decimal (length loaded.terminal_capacities)
    ++ codes " local_to_global_count "
    ++ decimal (length loaded.local_to_global)
    ++ codes " constraint_endpoint_count "
    ++ decimal (length loaded.constraint_endpoints)

abbrev pub total_size_of : Result FrameBuffers → ℕ
total_size_of (ok b) = b.total_size
total_size_of (err e) = 0

-- The text of the exception of loadPartition.
abbrev pub load_failure : Bytes → PartitionPackage → ℕ → Bytes → Bytes
load_failure worker_name loaded frame_logical_bytes text =
    codes "worker "
    ++ worker_name
    ++ codes " failed loading partition "
    ++ decimal_ℤ loaded.partition_id
    ++ codes " ("
    ++ partition_package_summary loaded
    ++ codes " frame_logical_bytes "
    ++ decimal frame_logical_bytes
    ++ codes "): "
    ++ text

pub record PartitionWorkerResourceEstimate : Type 0 where
  pub cpu_count : ℕ
  pub ram_gb : ℕ

-- The counts that do not fit an int and a long are cut to their maximum.
unfoldable pub resource_estimate : TcpPartitionWorker → PartitionWorkerResourceEstimate
resource_estimate worker = record {
  cpu_count =
      if ltb (2 ^ 31 - 1) worker.hello.cpu_count then 2 ^ 31 - 1 else worker.hello.cpu_count;
  ram_gb = if ltb (2 ^ 63 - 1) worker.hello.ram_gb then 2 ^ 63 - 1 else worker.hello.ram_gb;
}

-- ===== src/Protocol/Messages.antt =====
-- The message structs. Those of the mcpd3 submodule have the fields that this repository reads or
-- writes; a float is held as its 32-bit pattern, since it is only moved.
use mcpd.Base.{ℕ, Bool, List}
use mcpd.Base.Int.{ℤ}
use mcpd.Wire.{Bytes}

pub data MessageType : Type 0 where
  hello partition_package ready solve_round_request solve_round_result : MessageType
  scale_objective alpha_update stop error : MessageType
  solve_round_batch_request solve_round_batch_result : MessageType

pub record Frame : Type 0 where
  pub type : MessageType
  pub payload : Bytes

pub record HelloMessage : Type 0 where
  pub protocol_version : ℕ
  pub worker_name : Bytes
  pub cpu_count : ℕ
  pub ram_gb : ℕ
  pub feature_bits : ℕ
  pub temp_path : Bytes
  pub debug_build : Bool
  pub little_endian : Bool

pub record ReadyMessage : Type 0 where
  pub worker_name : Bytes

pub record ScaleObjectiveMessage : Type 0 where
  pub factor : ℤ
  pub saturate_capacity_overflow : Bool

pub record StopMessage : Type 0 where
  pub reason : ℕ
  pub message : Bytes

pub record ErrorMessage : Type 0 where
  pub code : ℕ
  pub message : Bytes

-- mcpd3::AlphaUpdate
pub record AlphaUpdate : Type 0 where
  pub constraint_id : ℤ
  pub alpha : ℤ
  pub last_alpha : ℤ
  pub alpha_momentum : ℕ

pub record AlphaUpdateMessage : Type 0 where
  pub partition_id : ℤ
  pub alpha_updates : List AlphaUpdate

-- mcpd3::ConstraintLabel
pub record ConstraintLabel : Type 0 where
  pub constraint_id : ℤ
  pub global_node_id : ℤ
  pub local_index : ℤ
  pub label : ℤ

-- mcpd3::PartitionSolveRequest
pub record PartitionSolveRequest : Type 0 where
  pub round_id : ℤ
  pub partition_id : ℤ
  pub scale : ℤ
  pub regularization_strength : ℤ
  pub alpha_updates : List AlphaUpdate

-- mcpd3::PartitionSolveResult
pub record PartitionSolveResult : Type 0 where
  pub round_id : ℤ
  pub partition_id : ℤ
  pub lower_bound : ℤ
  pub regularization_budget : ℤ
  pub regularization_contribution : ℤ
  pub regularization_anchor_sink_count : ℤ
  pub regularization_active_sink_count : ℤ
  pub constrained_labels : List ConstraintLabel

pub record TimedSolveRoundResult : Type 0 where
  pub result : PartitionSolveResult
  pub worker_solve_wall_us : ℕ

pub record TimedSolveRoundBatchResult : Type 0 where
  pub results : List PartitionSolveResult
  pub worker_solve_wall_us : ℕ

-- mcpd3::ConstraintEndpointBinding
pub record ConstraintEndpointBinding : Type 0 where
  pub constraint_id : ℤ
  pub global_node_id : ℤ
  pub local_index : ℤ
  pub is_source : Bool
  pub alpha : ℤ
  pub last_alpha : ℤ
  pub alpha_momentum : ℕ

-- mcpd3::PartitionPackage
pub record PartitionPackage : Type 0 where
  pub partition_id : ℤ
  pub local_node_count : ℤ
  pub arcs : List ℤ
  pub arc_capacities : List ℤ
  pub terminal_capacities : List ℤ
  pub local_to_global : List ℤ
  pub constraint_endpoints : List ConstraintEndpointBinding

-- ===== src/Runtime/Worker.antt =====
-- What the loop of a worker works on: its state, and what one round of it has received. The solver, a class of
-- another library, is a parameter.
use mcpd.Base.{ℕ, Bool, ◌||◌, List, [], ◌∷◌, ◌++◌}
use mcpd.Base.Int.{ℤ}
use mcpd.Base.Text.{codes, contains}
use mcpd.Wire.{Bytes, Result, ok}
use mcpd.Wire.Act.{Act, modify, on}
use mcpd.Protocol.{MessageType}
use mcpd.Protocol.{PartitionPackage}
use mcpd.Protocol.{PartitionSolveRequest, PartitionSolveResult}
use mcpd.Protocol.{decode_partition_package}
use mcpd.Delta.{TemporalSolveCodecState}
use mcpd.Tcp.{Socket, FrameTransferStats}
use mcpd.Tcp.{bare_stats}

-- mcpd3::PartitionWorker, whose state is `S` and whose methods may throw.
pub record PartitionWorker (S : Type 0) : Type 0 where
  pub load_partition : PartitionPackage → Act S (Unit {0})
  pub solve_round : PartitionSolveRequest → Act S PartitionSolveResult
  pub solve_round_batch : List PartitionSolveRequest → Act S (List PartitionSolveResult)
  pub scale_objective : ℤ → Bool → Act S (Unit {0})

-- The calls of WorkerRuntimeStatusHooks.
pub data Hook : Type 0 where
  on_phase : Bytes → Hook
  on_frame_sent on_frame_received : MessageType → FrameTransferStats → Hook
  on_partition_loading : PartitionPackage → ℕ → Hook
  on_partition_loaded : ℤ → Hook
  on_solve_start : ℤ → List ℤ → Hook
  on_solve_done : ℕ → ℕ → Bool → Hook
  on_scale_objective : ℤ → Bool → Hook
  on_error : Bytes → Hook

-- The socket, the solver, the baselines and the hooks that were called so far.
pub record WorkerRuntime (S : Type 0) : Type 0 where
  pub socket : Socket
  pub solver : S
  pub temporal_state : TemporalSolveCodecState
  pub hooks : List Hook

-- The variables that one round of the loop has set when a frame is in: a package that was read directly, or the
-- bytes of the frame.
pub data Arrived : Type 0 where
  direct_package : PartitionPackage → Arrived
  frame_bytes : Bytes → Arrived

pub record Incoming : Type 0 where
  pub type : MessageType
  pub arrived : Arrived
  pub frame_logical_bytes : ℕ
  pub transfer : FrameTransferStats

-- The start values of FrameTransferStats.
abbrev pub blank_transfer : FrameTransferStats
blank_transfer = bare_stats 0

-- `find("socket ") != npos || find("compressed transport frame") != npos`
unfoldable pub is_fatal : Bytes → Bool
is_fatal text =
    contains text (codes "socket ") || contains text (codes "compressed transport frame")

abbrev pub last_round : List PartitionSolveRequest → ℤ → ℤ
last_round [] round_id = round_id
last_round (request ∷ requests) round_id = last_round requests request.round_id

-- decodePartitionPackage of the frame, unless the package was read directly.
abbrev pub package_of : Arrived → Result PartitionPackage
package_of (direct_package loaded) = ok loaded
package_of (frame_bytes frame) = decode_partition_package frame

-- The other types have the bytes of their frame.
abbrev pub bytes_of : Arrived → Bytes
bytes_of (direct_package loaded) = []
bytes_of (frame_bytes frame) = frame

module _ {S : Type 0} where
  abbrev pub on_socket : {A : Type 0} → Act Socket A → Act (WorkerRuntime S) A
  on_socket = on (λ r. r.socket) (λ r socket. record r { socket = socket })

  abbrev pub on_solver : {A : Type 0} → Act S A → Act (WorkerRuntime S) A
  on_solver = on (λ r. r.solver) (λ r solver. record r { solver = solver })

  abbrev pub on_state :
      {A : Type 0}
      → (TemporalSolveCodecState → Result A × TemporalSolveCodecState)
      → Act (WorkerRuntime S) A
  on_state = on (λ r. r.temporal_state) (λ r state. record r { temporal_state = state })

  abbrev pub hook : Hook → Act (WorkerRuntime S) (Unit {0})
  hook h = modify (λ r. record r { hooks = r.hooks ++ (h ∷ []) })

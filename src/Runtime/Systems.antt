-- ===== src/Runtime/Systems.antt =====
-- The two ends of a connection together: what one end has sent arrives at the other.
use mcpd.Base.{◌≡◌, true, [], ◌++◌, ℕ, ◌≤◌}
use mcpd.Wire.Act.{Act, ◌>>◌, on, modify}
use mcpd.Protocol.{PartitionSolveRequest, PartitionSolveResult}
use mcpd.Tcp.{Snappy, TransportCompression, Stream}
use mcpd.Tcp.Delivery.{progress}
use mcpd.Wire.{Bytes}
use mcpd.Runtime.Sessions.{Times, TcpPartitionWorker}
use mcpd.Runtime.Coordinator.{request_round, await_round}
use mcpd.Runtime.Worker.{PartitionWorker, WorkerRuntime}
use mcpd.Runtime.Loop.{serve_next}

pub record System (S : Type 0) : Type 0 where
  pub coordinator : TcpPartitionWorker
  pub worker : WorkerRuntime S

abbrev append : Stream → Bytes → Stream
append s bytes = record s { bytes = s.bytes ++ bytes }

abbrev taken : Stream → Stream
taken s = record s { bytes = [] }

module _ {S : Type 0} where
  -- The network hands over what has been sent.
  unfoldable pub carry_to_worker : System S → System S
  carry_to_worker s = record {
    coordinator = record s.coordinator {
      socket = record s.coordinator.socket { outgoing = taken s.coordinator.socket.outgoing };
    };
    worker = record s.worker {
      socket = record s.worker.socket {
        incoming = append s.worker.socket.incoming s.coordinator.socket.outgoing.bytes;
      };
    };
  }

  unfoldable pub carry_to_coordinator : System S → System S
  carry_to_coordinator s = record {
    worker = record s.worker {
      socket = record s.worker.socket { outgoing = taken s.worker.socket.outgoing };
    };
    coordinator = record s.coordinator {
      socket = record s.coordinator.socket {
        incoming = append s.coordinator.socket.incoming s.worker.socket.outgoing.bytes;
      };
    };
  }

  abbrev pub at_coordinator : {A : Type 0} → Act TcpPartitionWorker A → Act (System S) A
  at_coordinator = on (λ s. s.coordinator) (λ s c. record s { coordinator = c })

  abbrev pub at_worker : {A : Type 0} → Act (WorkerRuntime S) A → Act (System S) A
  at_worker = on (λ s. s.worker) (λ s w. record s { worker = w })

  -- TcpPartitionWorker::solveRound while the worker serves: the call waits between its two halves.
  unfoldable pub remote_round :
      Snappy
      → ℕ
      → PartitionWorker S
      → Bytes
      → TransportCompression
      → Times
      → Times
      → PartitionSolveRequest
      → Act (System S) PartitionSolveResult
  remote_round lib iov_max solver worker_name compression times times' request = do
    at_coordinator (request_round lib iov_max times request)
    modify carry_to_worker
    at_worker (serve_next lib solver worker_name compression times')
    modify carry_to_coordinator
    at_coordinator (await_round lib iov_max times)

  -- Nothing is under way, and both ends have the same baselines.
  pub record IsInSync (s : System S) : Type 0 where
    pub valid : s.coordinator.socket.valid ≡ true
    pub valid' : s.worker.socket.valid ≡ true
    pub sent : s.coordinator.socket.outgoing.bytes ≡ []
    pub sent' : s.worker.socket.outgoing.bytes ≡ []
    pub arriving : s.coordinator.socket.incoming.bytes ≡ []
    pub arriving' : s.worker.socket.incoming.bytes ≡ []
    pub agree : s.worker.temporal_state ≡ s.coordinator.temporal_state

  -- Requests of up to `n` bytes and results of up to `m` bytes get through.
  pub record GetsThrough (s : System S) (n m : ℕ) : Type 0 where
    pub asks : n ≤ progress s.coordinator.socket.outgoing.events
    pub asked : n ≤ progress s.worker.socket.incoming.events
    pub answers : m ≤ progress s.worker.socket.outgoing.events
    pub answered : m ≤ progress s.coordinator.socket.incoming.events

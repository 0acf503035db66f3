-- ===== src/Runtime/Tallies.antt =====
-- The byte counters of a connection add up.
use mcpd.Base.{◌+◌, ◌%◌, ◌^◌, ◌≡◌, arith, false, List, [], ◌∷◌, All}
use mcpd.Protocol.{MessageType, hello, alpha_update, expected}
use mcpd.Tcp.{FrameTransferStats}
use mcpd.Runtime.Stats.{RpcByteStats, record_frame_sent, record_frame_received}

-- The counters by type add up to the totals, up to the wrap-around of 64 bits.
pub record IsTallied (s : RpcByteStats) : Type 0 where
  pub tx :
      s.tx_bytes_total
      ≡ (s.hello_tx_bytes + s.partition_load_tx_bytes + s.solve_request_tx_bytes
          + s.solve_result_tx_bytes + s.scale_objective_tx_bytes + s.ready_tx_bytes
          + s.stop_tx_bytes + s.error_tx_bytes)
        % 2 ^ 64
  pub rx :
      s.rx_bytes_total
      ≡ (s.hello_rx_bytes + s.partition_load_rx_bytes + s.solve_request_rx_bytes
          + s.solve_result_rx_bytes + s.scale_objective_rx_bytes + s.ready_rx_bytes
          + s.stop_rx_bytes + s.error_rx_bytes)
        % 2 ^ 64

-- A frame that one end records.
pub data Transfer : Type 0 where
  sent received : MessageType → FrameTransferStats → Transfer

abbrev pub type_of : Transfer → MessageType
type_of (sent type transfer) = type
type_of (received type transfer) = type

abbrev pub record_transfer : Transfer → RpcByteStats → RpcByteStats
record_transfer (sent type transfer) s = record_frame_sent type transfer s
record_transfer (received type transfer) s = record_frame_received type transfer s

abbrev pub record_all : List Transfer → RpcByteStats → RpcByteStats
record_all [] s = s
record_all (transfer ∷ transfers) s = record_all transfers (record_transfer transfer s)

IsTallied-sent :
    (type : MessageType) (transfer : FrameTransferStats) (s : RpcByteStats)
    → expected type alpha_update ≡ false
    → IsTallied s
    → IsTallied (record_frame_sent type transfer s)
unfolding record_frame_sent
IsTallied-sent hello transfer s k h = record { tx = omega (arith, h.tx); rx = h.rx }
IsTallied-sent alpha_update transfer s k h = absurd (ground arith)
IsTallied-sent type transfer s k h = record { tx = omega (arith, h.tx); rx = h.rx }

IsTallied-received :
    (type : MessageType) (transfer : FrameTransferStats) (s : RpcByteStats)
    → expected type alpha_update ≡ false
    → IsTallied s
    → IsTallied (record_frame_received type transfer s)
unfolding record_frame_received
IsTallied-received hello transfer s k h = record { tx = h.tx; rx = omega (arith, h.rx) }
IsTallied-received alpha_update transfer s k h = absurd (ground arith)
IsTallied-received type transfer s k h = record { tx = h.tx; rx = omega (arith, h.rx) }

-- Whatever frames a connection sends and receives, and whether they are compressed, the bytes that are counted by
-- type add up to the bytes that are counted in total, up to the wrap-around of the 64-bit counters. Only
-- ALPHA_UPDATE, which no end sends, is counted in the total alone, so the frames are of the other types.
pub record_all-IsTallied :
    (transfers : List Transfer) (s : RpcByteStats)
    → All (λ t. expected (type_of t) alpha_update ≡ false) transfers
    → IsTallied s
    → IsTallied (record_all transfers s)
record_all-IsTallied [] s k h = h
record_all-IsTallied (sent type transfer ∷ transfers) s k h =
    record_all-IsTallied transfers _ k.1 (IsTallied-sent type transfer s k.0 h)
record_all-IsTallied (received type transfer ∷ transfers) s k h =
    record_all-IsTallied transfers _ k.1 (IsTallied-received type transfer s k.0 h)

-- ===== src/Runtime/Stats.antt =====
-- RpcByteStats and the counting of frames. All counters are std::uint64_t.
use mcpd.Base.{ℕ, ◌+◌, ◌%◌, ◌^◌, Bool, not, ◌&&◌, if◌then◌else◌}
use mcpd.Protocol.{MessageType, hello, partition_package, ready, solve_round_request}
use mcpd.Protocol.{solve_round_result, scale_objective, alpha_update, stop, error}
use mcpd.Protocol.{solve_round_batch_request, solve_round_batch_result}
use mcpd.Tcp.{FrameTransferStats}

-- `a += b`
infixl 60 ◌⊕◌
abbrev pub ◌⊕◌ : ℕ → ℕ → ℕ
a ⊕ b = (a + b) % 2 ^ 64

pub record RpcByteStats : Type 0 where
  pub tx_bytes_total : ℕ
  pub rx_bytes_total : ℕ
  pub tx_wire_bytes_total : ℕ
  pub rx_wire_bytes_total : ℕ
  pub compression_wall_us : ℕ
  pub decompression_wall_us : ℕ
  pub tx_compressed_frame_count : ℕ
  pub tx_stored_frame_count : ℕ
  pub rx_compressed_frame_count : ℕ
  pub rx_stored_frame_count : ℕ
  pub hello_tx_bytes : ℕ
  pub hello_rx_bytes : ℕ
  pub partition_load_tx_bytes : ℕ
  pub partition_load_rx_bytes : ℕ
  pub solve_request_tx_bytes : ℕ
  pub solve_request_rx_bytes : ℕ
  pub solve_result_tx_bytes : ℕ
  pub solve_result_rx_bytes : ℕ
  pub scale_objective_tx_bytes : ℕ
  pub scale_objective_rx_bytes : ℕ
  pub ready_tx_bytes : ℕ
  pub ready_rx_bytes : ℕ
  pub stop_tx_bytes : ℕ
  pub stop_rx_bytes : ℕ
  pub error_tx_bytes : ℕ
  pub error_rx_bytes : ℕ

abbrev pub blank_rpc_bytes : RpcByteStats
blank_rpc_bytes = record {
  tx_bytes_total = 0;
  rx_bytes_total = 0;
  tx_wire_bytes_total = 0;
  rx_wire_bytes_total = 0;
  compression_wall_us = 0;
  decompression_wall_us = 0;
  tx_compressed_frame_count = 0;
  tx_stored_frame_count = 0;
  rx_compressed_frame_count = 0;
  rx_stored_frame_count = 0;
  hello_tx_bytes = 0;
  hello_rx_bytes = 0;
  partition_load_tx_bytes = 0;
  partition_load_rx_bytes = 0;
  solve_request_tx_bytes = 0;
  solve_request_rx_bytes = 0;
  solve_result_tx_bytes = 0;
  solve_result_rx_bytes = 0;
  scale_objective_tx_bytes = 0;
  scale_objective_rx_bytes = 0;
  ready_tx_bytes = 0;
  ready_rx_bytes = 0;
  stop_tx_bytes = 0;
  stop_rx_bytes = 0;
  error_tx_bytes = 0;
  error_rx_bytes = 0;
}

-- The switch of recordFrameSent.
abbrev sent_by_type : MessageType → ℕ → RpcByteStats → RpcByteStats
sent_by_type hello n s = record s { hello_tx_bytes = s.hello_tx_bytes ⊕ n }
sent_by_type partition_package n s = record s {
  partition_load_tx_bytes = s.partition_load_tx_bytes ⊕ n;
}
sent_by_type solve_round_request n s = record s {
  solve_request_tx_bytes = s.solve_request_tx_bytes ⊕ n;
}
sent_by_type solve_round_batch_request n s = record s {
  solve_request_tx_bytes = s.solve_request_tx_bytes ⊕ n;
}
sent_by_type solve_round_result n s = record s {
  solve_result_tx_bytes = s.solve_result_tx_bytes ⊕ n;
}
sent_by_type solve_round_batch_result n s = record s {
  solve_result_tx_bytes = s.solve_result_tx_bytes ⊕ n;
}
sent_by_type scale_objective n s = record s {
  scale_objective_tx_bytes = s.scale_objective_tx_bytes ⊕ n;
}
sent_by_type ready n s = record s { ready_tx_bytes = s.ready_tx_bytes ⊕ n }
sent_by_type stop n s = record s { stop_tx_bytes = s.stop_tx_bytes ⊕ n }
sent_by_type error n s = record s { error_tx_bytes = s.error_tx_bytes ⊕ n }
sent_by_type alpha_update n s = s

-- The switch of recordFrameReceived.
abbrev received_by_type : MessageType → ℕ → RpcByteStats → RpcByteStats
received_by_type hello n s = record s { hello_rx_bytes = s.hello_rx_bytes ⊕ n }
received_by_type partition_package n s = record s {
  partition_load_rx_bytes = s.partition_load_rx_bytes ⊕ n;
}
received_by_type solve_round_request n s = record s {
  solve_request_rx_bytes = s.solve_request_rx_bytes ⊕ n;
}
received_by_type solve_round_batch_request n s = record s {
  solve_request_rx_bytes = s.solve_request_rx_bytes ⊕ n;
}
received_by_type solve_round_result n s = record s {
  solve_result_rx_bytes = s.solve_result_rx_bytes ⊕ n;
}
received_by_type solve_round_batch_result n s = record s {
  solve_result_rx_bytes = s.solve_result_rx_bytes ⊕ n;
}
received_by_type scale_objective n s = record s {
  scale_objective_rx_bytes = s.scale_objective_rx_bytes ⊕ n;
}
received_by_type ready n s = record s { ready_rx_bytes = s.ready_rx_bytes ⊕ n }
received_by_type stop n s = record s { stop_rx_bytes = s.stop_rx_bytes ⊕ n }
received_by_type error n s = record s { error_rx_bytes = s.error_rx_bytes ⊕ n }
received_by_type alpha_update n s = s

-- One more when the condition holds.
abbrev count_if : Bool → ℕ → ℕ
count_if condition n = if condition then n ⊕ 1 else n

unfoldable pub record_frame_sent : MessageType → FrameTransferStats → RpcByteStats → RpcByteStats
record_frame_sent type transfer s = sent_by_type type transfer.logical_bytes (record s {
  tx_bytes_total = s.tx_bytes_total ⊕ transfer.logical_bytes;
  tx_wire_bytes_total = s.tx_wire_bytes_total ⊕ transfer.wire_bytes;
  compression_wall_us = s.compression_wall_us ⊕ transfer.compression_wall_us;
  tx_compressed_frame_count =
      count_if (transfer.compression_requested && transfer.compressed) s.tx_compressed_frame_count;
  tx_stored_frame_count =
      count_if (transfer.compression_requested && not transfer.compressed) s.tx_stored_frame_count;
})

unfoldable pub record_frame_received :
    MessageType → FrameTransferStats → RpcByteStats → RpcByteStats
record_frame_received type transfer s = received_by_type type transfer.logical_bytes (record s {
  rx_bytes_total = s.rx_bytes_total ⊕ transfer.logical_bytes;
  rx_wire_bytes_total = s.rx_wire_bytes_total ⊕ transfer.wire_bytes;
  decompression_wall_us = s.decompression_wall_us ⊕ transfer.decompression_wall_us;
  rx_compressed_frame_count =
      count_if (transfer.compression_requested && transfer.compressed) s.rx_compressed_frame_count;
  rx_stored_frame_count =
      count_if (transfer.compression_requested && not transfer.compressed) s.rx_stored_frame_count;
})

-- ===== src/Coordinator/Telemetry.antt =====
-- The values of the telemetry: one field of a CSV row, and the sums of the byte counters of all workers.
use mcpd.Base.{ℕ, Bool, true, false, not, ◌||◌, List, [], ◌∷◌, ◌++◌, ◌==◌, if◌then◌else◌}
use mcpd.Wire.{Bytes}
use mcpd.Runtime.{RpcByteStats, ◌⊕◌}

-- `,`, `"`, `\n` and `\r`
abbrev pub is_special : ℕ → Bool
is_special c = c == 44 || c == 34 || c == 10 || c == 13

abbrev pub has_special : Bytes → Bool
has_special [] = false
has_special (c ∷ value) = is_special c || has_special value

-- The loop that doubles the quotes.
unfoldable pub escaped : Bytes → Bytes
escaped [] = []
escaped (c ∷ value) = let rest = escaped value in if c == 34 then 34 ∷ (34 ∷ rest) else c ∷ rest

abbrev pub is_empty : Bytes → Bool
is_empty [] = true
is_empty (c ∷ value) = false

unfoldable pub csv_value : Bytes → Bytes
csv_value value =
    if not (is_empty value || has_special value) then value else (34 ∷ escaped value) ++ (34 ∷ [])

unfoldable pub add_rpc_byte_stats : RpcByteStats → RpcByteStats → RpcByteStats
add_rpc_byte_stats total stats = record {
  tx_bytes_total = total.tx_bytes_total ⊕ stats.tx_bytes_total;
  rx_bytes_total = total.rx_bytes_total ⊕ stats.rx_bytes_total;
  tx_wire_bytes_total = total.tx_wire_bytes_total ⊕ stats.tx_wire_bytes_total;
  rx_wire_bytes_total = total.rx_wire_bytes_total ⊕ stats.rx_wire_bytes_total;
  compression_wall_us = total.compression_wall_us ⊕ stats.compression_wall_us;
  decompression_wall_us = total.decompression_wall_us ⊕ stats.decompression_wall_us;
  tx_compressed_frame_count = total.tx_compressed_frame_count ⊕ stats.tx_compressed_frame_count;
  tx_stored_frame_count = total.tx_stored_frame_count ⊕ stats.tx_stored_frame_count;
  rx_compressed_frame_count = total.rx_compressed_frame_count ⊕ stats.rx_compressed_frame_count;
  rx_stored_frame_count = total.rx_stored_frame_count ⊕ stats.rx_stored_frame_count;
  hello_tx_bytes = total.hello_tx_bytes ⊕ stats.hello_tx_bytes;
  hello_rx_bytes = total.hello_rx_bytes ⊕ stats.hello_rx_bytes;
  partition_load_tx_bytes = total.partition_load_tx_bytes ⊕ stats.partition_load_tx_bytes;
  partition_load_rx_bytes = total.partition_load_rx_bytes ⊕ stats.partition_load_rx_bytes;
  solve_request_tx_bytes = total.solve_request_tx_bytes ⊕ stats.solve_request_tx_bytes;
  solve_request_rx_bytes = total.solve_request_rx_bytes ⊕ stats.solve_request_rx_bytes;
  solve_result_tx_bytes = total.solve_result_tx_bytes ⊕ stats.solve_result_tx_bytes;
  solve_result_rx_bytes = total.solve_result_rx_bytes ⊕ stats.solve_result_rx_bytes;
  scale_objective_tx_bytes = total.scale_objective_tx_bytes ⊕ stats.scale_objective_tx_bytes;
  scale_objective_rx_bytes = total.scale_objective_rx_bytes ⊕ stats.scale_objective_rx_bytes;
  ready_tx_bytes = total.ready_tx_bytes ⊕ stats.ready_tx_bytes;
  ready_rx_bytes = total.ready_rx_bytes ⊕ stats.ready_rx_bytes;
  stop_tx_bytes = total.stop_tx_bytes ⊕ stats.stop_tx_bytes;
  stop_rx_bytes = total.stop_rx_bytes ⊕ stats.stop_rx_bytes;
  error_tx_bytes = total.error_tx_bytes ⊕ stats.error_tx_bytes;
  error_rx_bytes = total.error_rx_bytes ⊕ stats.error_rx_bytes;
}

-- The sum over the workers.
unfoldable pub sum_rpc_byte_stats : RpcByteStats → List RpcByteStats → RpcByteStats
sum_rpc_byte_stats total [] = total
sum_rpc_byte_stats total (stats ∷ workers) =
    sum_rpc_byte_stats (add_rpc_byte_stats total stats) workers

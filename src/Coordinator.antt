-- ===== src/Coordinator.antt =====
-- src/coordinator_main.cpp: how the coordinator reads its arguments and scales the capacities of the graph.
mod Scale
mod Arguments
unfoldable pub use Scale.*
unfoldable pub use Arguments.*
mod Telemetry
unfoldable pub use Telemetry.*
pub mod Rows
pub mod Clamping
pub mod Ranges
pub mod Validity
mod Examples

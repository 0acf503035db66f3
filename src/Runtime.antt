-- ===== src/Runtime.antt =====
-- src/runtime.cpp and include/mcpd4/runtime.h: the coordinator's calls of one worker over a connection,
-- and the loop of the worker that answers them.
mod Stats
pub mod Tallies
pub mod Failures
mod Direct
mod Packages
mod Sessions
mod Coordinator
mod Worker
mod Loop
pub mod Arrival
pub mod Serving
pub mod Rounds
mod Systems
pub mod Remote
mod Examples
unfoldable pub use Systems.*
unfoldable pub use Stats.*
unfoldable pub use Direct.*
unfoldable pub use Packages.*
unfoldable pub use Sessions.*
unfoldable pub use Coordinator.*
unfoldable pub use Worker.*
unfoldable pub use Loop.*

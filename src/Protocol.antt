-- ===== src/Protocol.antt =====
-- src/protocol.cpp and include/mcpd4/protocol.h: the messages, their frames and their encodings.
mod Messages
mod Framing
mod Handshake
mod Solve
mod Package
mod Buffers
pub mod RoundTrip
mod Examples
pub use Messages.*
unfoldable pub use Framing.*
unfoldable pub use Handshake.*
unfoldable pub use Solve.*
unfoldable pub use Package.*
unfoldable pub use Buffers.*

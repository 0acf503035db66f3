-- ===== src/Tcp.antt =====
-- src/tcp.cpp and include/mcpd4/tcp.h: frames over a byte stream, bare or in the envelope of the
-- compressed transport. Sockets are opened and closed by the operating system, which is not modelled.
mod Streams
mod Sockets
mod Transport
mod Receive
unfoldable pub use Streams.*
unfoldable pub use Sockets.*
unfoldable pub use Transport.*
unfoldable pub use Receive.*
pub mod Delivery
pub mod Frames
pub mod Transfers
pub mod RoundTrip
mod Heads
pub mod Envelopes
pub mod Channels
mod Views
mod Examples

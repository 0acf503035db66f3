-- ===== src/Delta.antt =====
-- src/delta_codec.cpp and include/mcpd4/delta_codec.h: the stateful encoding of solve rounds, which
-- sends of each alpha and each label only what changed since the last round.
mod Varint
mod State
mod Alphas
mod Labels
mod Messages
unfoldable pub use Varint.*
unfoldable pub use State.*
unfoldable pub use Alphas.*
unfoldable pub use Labels.*
unfoldable pub use Messages.*
pub mod Mirror
mod Examples

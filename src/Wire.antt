-- ===== src/Wire.antt =====
-- The byte level of src/protocol.cpp: its errors, and the classes Writer and Reader.
-- Both classes hold one piece of state that their methods change, so a method is an action of `M`:
-- of a Writer the state is `bytes_`, of a Reader the unread bytes, from `offset_` to `end_`.
-- The objects are local to one call, so a throw needs no state beside the error.
mod Defs
mod Reader
mod Writer
pub mod Act
mod Errors
pub mod Reads
unfoldable pub use Defs.*
unfoldable pub use Writer.*
unfoldable pub use Reader.*
unfoldable pub use Errors.*

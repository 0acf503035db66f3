-- ===== src/Protocol/RoundTrip.antt =====
-- What a decoder makes of a frame that the encoder wrote.
pub mod Frames
pub mod Handshakes
pub mod Requests
pub mod Results
pub mod Packages

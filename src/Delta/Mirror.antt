-- ===== src/Delta/Mirror.antt =====
-- The two ends of a connection keep the same baselines: what decoding does with an encoded message.
pub mod Numbers
pub mod Groups
pub mod Actions
pub mod Alphas
pub mod Differences
pub mod Baselines
pub mod Labels
pub mod Sync
pub mod Frames
pub mod Requests
pub mod Results
pub mod Rounds
pub mod Batches

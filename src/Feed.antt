-- ===== src/Feed.antt =====
-- The books of market data, one child module per part.
pub mod OrderBook
pub mod DepthBook
pub mod View
pub mod Sequencer
pub mod Engine
mod Tests

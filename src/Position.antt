-- ===== src/Position.antt =====
-- trading/position: the accounting books and what is built on them.
pub mod LotBook
pub mod Wavg
pub mod Book
pub mod Pnl
pub mod Engine
mod Tests
mod EngineTests

-- ===== src/Backtest.antt =====
-- trading/backtest and core/clock.py: the simulated clock, the gateway that schedules its answers and
-- the replay of recorded data.
pub mod Clock
pub mod Schedule
pub mod Gateway
pub mod Engine
mod Tests

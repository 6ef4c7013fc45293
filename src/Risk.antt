-- ===== src/Risk.antt =====
-- trading/risk: the pre-trade risk engine, its rules and state, and the kill switch.
pub mod KillSwitch
pub mod State
pub mod Rules
pub mod Engine
mod Tests

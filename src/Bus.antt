-- ===== src/Bus.antt =====
-- trading/event_bus: the buses that carry events from the publishers to the handlers.
pub mod Asyncio
mod Tests

-- ===== src/Core.antt =====
-- trading/core: the enumerations of types.py, the instrument, and the events of events.py that the
-- engines exchange. Identifiers (strategy, instrument, order, leg, fill, event, exchange order) are
-- only compared, so they are numbers. Texts that are only logged or shown are left out.
mod Types
mod Events
pub mod Rounding
unfoldable pub use Types.*
pub use Events.*

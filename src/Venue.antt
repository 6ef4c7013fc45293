-- ===== src/Venue.antt =====
-- The simulated venue: matching, and the gateway that answers at once.
pub mod Matching
pub mod Simulation
pub mod Lifecycle
mod Tests

-- ===== src/Oms.antt =====
-- The order management system, one child module per part.
pub mod StateMachine
pub mod Order
pub mod Store
pub mod Response
pub mod Exposure
pub mod Algo
pub mod Twap
pub mod Vwap
pub mod Immediate
pub mod Router
pub mod Engine
pub mod Reconcile
pub mod Slicing
pub mod Handlers
pub mod Run
pub mod Adoption
mod Tests
mod EngineTests
mod AdoptionTests
mod RouterTests

-- ===== src/Binance.antt =====
-- trading/order_gateways/binance: the gateway to Binance over REST.
pub mod Translation
pub mod Errors
pub mod Gateway
pub mod UserData
pub mod RateLimiter
pub mod Reconciler
pub mod Bootstrap
mod Tests
mod ResyncTests

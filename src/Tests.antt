-- ===== src/Tests.antt =====
-- Concrete inputs, and the witnesses of the theorems that have hypotheses.
pub mod Samples
pub mod Crypto
pub mod Items
pub mod Cache
pub mod Provider
pub mod Shutdown
pub mod Service
pub mod Metrics
pub mod Reloading
pub mod Client
pub mod Startup
pub mod Server
pub mod Tasks

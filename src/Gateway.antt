-- ===== src/Gateway.antt =====
-- internal/gateway
pub mod Breaker
pub mod Limits
pub mod Names
pub mod Discovery
pub mod Server
pub mod Handling
pub mod Dispatch

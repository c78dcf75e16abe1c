-- ===== src/Proxy.antt =====
-- internal/proxy: the gateway's endpoint.
pub mod Concurrency
pub mod Json
pub mod Body
pub mod Exchange
pub mod Handler
pub mod Passthrough
pub mod Upstream

-- ===== src/Proxy.antt =====
-- src/proxy.rs: the parts of the proxy that decide, without the transport.
pub mod Route
pub mod Batches
pub mod Headers
pub mod Base64
pub mod Retrieve
pub mod Continuation
pub mod Forward
pub mod BatchResults
pub mod Http
mod Tests

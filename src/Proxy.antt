-- ===== src/Proxy.antt =====
-- src/proxy.rs: the proxy that swaps models on demand.
pub mod Gate
pub mod Exclusion
pub mod Retry
pub mod Ensure
pub mod Answers

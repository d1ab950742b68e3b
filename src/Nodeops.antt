-- ===== src/Nodeops.antt =====
-- src/nodeops.rs: what one node does.
pub mod Lookup
pub mod Bind
pub mod Load
pub mod Matching
pub mod Loads
pub mod Urls

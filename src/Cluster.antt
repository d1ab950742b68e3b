-- ===== src/Cluster.antt =====
-- src/cluster.rs: a model pooled over several nodes.
pub mod Parity
pub mod Up
pub mod Started
pub mod Safety
pub mod Tally
pub mod Down

-- ===== src/Swap.antt =====
-- src/swap.rs: the swap of the served model.
pub mod Seams
pub mod Contract
pub mod Env
pub mod Flags
pub mod Core
pub mod Dropins
pub mod Mounts
pub mod Clear
pub mod Systemd

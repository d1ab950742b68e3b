-- ===== src/Netboot.antt =====
-- src/netboot_server.rs: what the boot server opens, and the record of it.
pub mod Ports
pub mod Record
pub mod Tokens
pub mod Open
pub mod Recorded
pub mod Close
pub mod Closed
pub mod Reach
pub mod Down
pub mod Kept

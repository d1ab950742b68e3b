-- ===== src/Model/Gguf.antt =====
-- src/model.rs: the reader of GGUF headers.
pub mod Read
pub mod Header
pub mod Progress
pub mod Calls
pub mod Agreement

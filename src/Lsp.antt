-- ===== src/Lsp.antt =====
-- The engine client crate, crates/ktsense-lsp.
pub mod Framing
pub mod Reader
pub mod Session
pub mod Version
pub mod Progress
pub mod Tests

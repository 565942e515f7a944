-- ===== src/Daemon.antt =====
-- The warm-session daemon, crates/ktsense-daemon.
pub mod Wire
pub mod Protocol
pub mod Server
pub mod Client
pub mod Lifecycle
pub mod Engine
pub mod Socket
pub mod Placement
pub mod Tests

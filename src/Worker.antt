-- ===== src/Worker.antt =====
-- crates/sqlite-mcp-core/src/worker.rs: the thread that owns a connection, command by command.
pub mod Error
pub mod State
pub mod Run
pub mod Commit
pub mod Control
pub mod Truth
pub mod Interrupt
pub mod Expiry
pub mod Shutdown
pub mod Limits
pub mod Installed
pub mod Busy
pub mod Sample
mod Tests

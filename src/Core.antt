-- ===== src/Core.antt =====
-- crates/sqlite-mcp-core/src/core.rs and src/core/: the registry of handles and the operations on it.
pub mod Error
pub mod State
pub mod Begin
pub mod Rollback
pub mod Commit
pub mod Schema
pub mod Query
pub mod Open
pub mod Registry
pub mod Distinct
pub mod Publish
pub mod Requests
pub mod Preserve
pub mod Lifecycle
pub mod Entry
pub mod Synced
pub mod Undo
pub mod Classify
pub mod Reopen
pub mod Create
pub mod Created
mod Tests
mod CreateTests

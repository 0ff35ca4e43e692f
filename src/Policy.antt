-- ===== src/Policy.antt =====
-- crates/sqlite-mcp-core/src/policy.rs: the authorizer, the scan of its pragma getters and the walk
-- over the statements of a SQL text.
pub mod Pragma
pub mod Signal
pub mod Action
pub mod Authorize
pub mod Rules
pub mod Cursor
pub mod Tokens
pub mod Maintenance
pub mod Stored
pub mod Tail
pub mod Discovery
pub mod Calls
pub mod Pieces
pub mod Found
pub mod Names
pub mod Bodies
mod Tests
mod Scans
mod Samples

-- ===== src/Core/Query.antt =====
-- crates/sqlite-mcp-core/src/core/query.rs: queries and batches of statements on a handle.
pub mod Statement
pub mod Settle
pub mod Job
pub mod Publish
pub mod Calls
pub mod Consistent
pub mod Sample
pub mod Atomic
pub mod Bounds
pub mod Success
pub mod Effect
pub mod Fuel
pub mod Abort
mod Tests

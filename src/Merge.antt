-- ===== src/Merge.antt =====
-- crates/sqlite-mcp-core/src/merge.rs: the text of a semantic merge.
pub mod Split
pub mod Ranges
pub mod Baseline
pub mod Owner
pub mod Paths
pub mod Import
pub mod Replay
pub mod Check
pub mod Outcome
pub mod Committed
pub mod Ownership
pub mod Imported
pub mod Success
pub mod Cleanup
pub mod Schema
pub mod Extract
pub mod Lines
pub mod Records
pub mod Trip
pub mod Counts
pub mod Reading
pub mod Sample
pub mod Observe
pub mod Manifest
pub mod Settled
pub mod Snapshot
pub mod Extraction
pub mod Steady
pub mod Literal
pub mod Quoting
pub mod Statement
pub mod Guard
mod Tests
mod ImportTests
mod ExtractTests

-- ===== src/Lib.antt =====
-- sqlite-mcp: a server that gives agents guarded access to SQLite databases. This library models the
-- core of it, `crates/sqlite-mcp-core`, and proves what its parts promise.
--
-- The parts and how they interact. A client opens a database and gets a handle; `Core` keeps the
-- handles in a registry behind one lock, with a gate for each handle, so that operations on one
-- handle follow one another. Each handle has a worker thread, which owns the SQLite connection and
-- serves commands from a queue. An authorizer on the connection decides what a statement may do. A
-- core-wide admission registry lets a shutdown wait for merges. The operations answer with typed
-- outcomes, and the configuration bounds what all of this may use.
--
-- Prelude: shared names, tests into `Bool`, results, texts as lists of code points, tables for maps,
--   signed integers and the saturating operations of machine integers.
-- Config: crates/sqlite-mcp-core/src/config.rs. The record of 21 fields, `default`, the defaults of a
--   deserialisation as `from_table`, `validate` with its table of ranges, and `from_path`. Reading
--   the file and parsing TOML are arguments.
-- Admission: crates/sqlite-mcp-core/src/admission.rs. `admit`, `finish`, `begin_shutdown` and
--   `complete_shutdown` on the registry as a value; a cancellation token is a flag of its entry.
-- Operation: crates/sqlite-mcp-core/src/operation.rs. Transaction modes, operation outcomes, shutdown
--   status and report. Ids of handles are only compared and ordered, so they are numbers.
-- Policy: crates/sqlite-mcp-core/src/policy.rs. The scan of a source for approved pragmas, the mutation
--   signal that the authorizer and the worker share, the kinds of actions, the decision, and the guards
--   against maintenance statements (Policy.Cursor) and stored bodies (Policy.Stored), and the cursor that
--   finds the statements of a text (Policy.Tail). What Rust's tables of characters say beyond ASCII is
--   a parameter of their scanners, and what `sqlite3_prepare_v2` finds is one of the cursor.
-- Sqlite: the connection, a record of operations that the other parts take as a parameter. Nothing is
--   assumed of SQLite but, where a theorem says so, that a ROLLBACK leaves no transaction open, or what
--   it documents of savepoints.
-- Sql: crates/sqlite-mcp-core/src/sql.rs. Cells, values and parameters. The formats of floating point
--   numbers, base64 and UTF-8 are a parameter.
-- Worker: crates/sqlite-mcp-core/src/worker.rs. The state between two commands (Worker.State) and one
--   function for each arm of the command loop: `run` (Worker.Run), `run_commit` (Worker.Commit),
--   `run_control`, `run_expire` and `run_shutdown` (Worker.Control); Worker.Expiry has the loop,
--   Worker.Busy the busy handler, and Worker.Limits, from src/worker/limits.rs, the limits of the engine.
--   What an arm reads of clocks, tokens and test hooks is an argument, in the order of the reads.
-- Core: crates/sqlite-mcp-core/src/core.rs, handles.rs and src/core/. The registry (Core.State), the
--   classification of errors (Core.Error), open, close and shutdown (Core.Open), begin, rollback, commit
--   and get_schema (Core.Begin, Core.Rollback, Core.Commit, Core.Schema), queries and batches
--   (Core.Query, from the statement to the registry: Statement, Settle, Job, Publish, Calls), and runs of requests
--   (Core.Requests). An operation holds the gate of its handle from end to end, so it is one step;
--   the worker of a handle is kept beside it. The operations answer for a living worker thread.
-- Disk: the file system, a record of operations that the other parts take as a parameter. Each call
--   takes the state of the system and gives the next one, in which other processes may have acted.
-- Paths: crates/sqlite-mcp-core/src/paths.rs. The checks of the paths of requests.
-- Core.Create: crates/sqlite-mcp-core/src/core/create.rs. The creation of a database, with its checks of
--   the identity of the new file.
-- Merge: crates/sqlite-mcp-core/src/merge.rs. The header of a merge text and the splitter of its
--   statements (Merge.Split), literals and identifiers (Merge.Literal), the kinds of statements and the
--   execution of one in an import (Merge.Statement), the schema baseline (Merge.Baseline), the text that
--   is read and the paths (Merge.Paths), and the owner of an output (Merge.Owner). An import goes from
--   the checks (Merge.Check) through the replay of its statements (Merge.Import, Merge.Replay) to its
--   report (Merge.Outcome). The extraction of one database is Merge.Schema, for what it reads of the
--   schema, and Merge.Extract, for the text; Merge.Observe has the observation of a source and the
--   workspace, Merge.Manifest the manifest, Merge.Snapshot the work on the three sources, and
--   Merge.Extraction the whole. The system is Unix, where every file has an identity.
-- Tools: crates/sqlite-mcp-core/src/tools.rs. The classes of errors (Tools) and the envelope that an error
--   is answered with (Tools.Envelope). The classes of merge errors are written out in
--   Merge.Split.
--
-- Bounds and fuel. Numbers are unbounded, and saturating operations keep their bound. The only fuel is
-- that of printing a number, which has one more step than the number, and those of the scans of a
-- statement and of the loop over a batch, which have one more step than the text, since each step takes
-- a character. The loop over commands and the runs of calls and requests recurse on their lists. The
-- splitter of a merge text recurses on the text. The loops that read a file have one more step than
-- the limit on its bytes, since each step reads a byte (Merge.Reading).
--
-- Not modelled: the start of a worker thread, the arguments and the dispatch of the tools, the process
-- and its transport, and the repository tasks. A guard that panics
-- ends its worker thread; what follows that is not modelled. The attempt at the lock of the registry in
-- a rollback that has expired is taken to succeed.

pub mod Prelude
pub mod Config
pub mod Admission
pub mod Operation
pub mod Policy
pub mod Sqlite
pub mod Disk
pub mod Paths
pub mod Sql
pub mod Worker
pub mod Core
pub mod Merge
pub mod Tools

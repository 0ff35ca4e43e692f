-- ===== src/Tools.antt =====
-- crates/sqlite-mcp-core/src/tools.rs: the error envelopes of the tools, with the texts of
-- core/error.rs and paths.rs that they carry. The envelope is the record of its JSON fields.
pub mod Envelope
pub mod Classes
mod Tests
use sqlite_mcp.Merge.Split.{merge_class_text}
use sqlite_mcp.Prelude.{
  ℕ, ◌%◌, Bool, true, false, not, ◌&&◌, ◌||◌, Option, none, some, List, [], ◌∷◌, ◌++◌, any, ◌==◌,
  if◌then◌else◌, is_some,
}
use sqlite_mcp.Prelude.Text.{Text, codes, text_eq, contains, to_ascii_lowercase}
use sqlite_mcp.Sqlite.{SqliteError}
use sqlite_mcp.Worker.Error.{WorkerError, to_string, decimal}
use sqlite_mcp.Core.Error.{
  CoreError, CommitLifecycle, PathError, primary_of, is_code, sqlite_busy, sqlite_locked,
}
use sqlite_mcp.Core.State.{Handle}

-- `Display` of a path error.
unfoldable pub path_text : PathError → Text
path_text PathError.relative = codes "path must be absolute"
path_text PathError.nul = codes "path contains NUL"
path_text PathError.uri = codes "URI paths are not supported"
path_text PathError.not_file = codes "path is not a regular file"
path_text PathError.missing = codes "path does not exist"
path_text (PathError.io text) = codes "path error: " ++ text

-- A result code, -1 if there is none.
abbrev pub code_text : Option ℕ → Text
code_text none = codes "-1"
code_text (some n) = decimal n

abbrev pub bool_text : Bool → Text
bool_text true = codes "true"
bool_text false = codes "false"

-- `primary={primary_code}, extended={extended_code}`.
unfoldable pub codes_text : Option ℕ → Option ℕ → Text
codes_text primary extended =
    codes "primary=" ++ (code_text primary ++ (codes ", extended=" ++ code_text extended))

-- `Display` of `CoreError`.
unfoldable pub core_text : CoreError → Text
unfolding path_text codes_text to_string
core_text (CoreError.path x) = path_text x
core_text (CoreError.worker x) = to_string x
core_text CoreError.unknown_handle = codes "handle not found"
core_text CoreError.transaction_open = codes "transaction already open"
core_text CoreError.schema_required = codes "schema must be observed before begin"
core_text CoreError.invalid_transaction_mode =
    codes "invalid transaction mode; expected deferred or immediate"
core_text CoreError.readonly_immediate = codes "readonly handles only permit deferred transactions"
core_text CoreError.already_open = codes "database already open"
core_text CoreError.invalid_database =
    codes "database file is not a valid initialized SQLite database"
core_text CoreError.handle_limit_reached = codes "handle limit reached"
core_text (CoreError.sqlite x) = codes "sqlite: " ++ x.text
core_text (CoreError.io text) = codes "I/O: " ++ text
core_text CoreError.schema_too_large = codes "schema exceeds configured byte limit"
core_text CoreError.schema_stale = codes "schema observation is stale"
core_text CoreError.server_shutdown = codes "server is shutting down"
core_text (CoreError.merge class message) =
    codes "merge " ++ (merge_class_text class ++ (codes ": " ++ message))
core_text CoreError.transaction_expired = codes "transaction expired"
core_text (CoreError.busy primary extended o k) =
    codes "database busy ("
    ++ (codes_text primary extended
        ++ (codes ", transaction_open="
            ++ (bool_text o ++ (codes ", continuable=" ++ (bool_text k ++ codes ")")))))
core_text (CoreError.busy_snapshot primary extended o k) =
    codes "database busy due to stale snapshot (" ++ (codes_text primary extended ++ codes ")")
core_text (CoreError.locked primary extended o k) =
    codes "database locked (" ++ (codes_text primary extended ++ codes ")")
core_text (CoreError.cancelled o k) = codes "request cancelled"
core_text (CoreError.deadline_exceeded o k) = codes "query deadline exceeded"
core_text (CoreError.policy_denied o k) = codes "statement is denied by SQL policy"
core_text (CoreError.commit_lifecycle c) = codes "commit lifecycle failure: " ++ to_string c.error

-- `ERROR_CLASSES`.
abbrev pub error_classes : List Text
error_classes =
    codes "HANDLE_UNKNOWN"
    ∷ codes "TX_ALREADY_OPEN"
    ∷ codes "SCHEMA_REQUIRED"
    ∷ codes "SCHEMA_STALE"
    ∷ codes "TX_EXPIRED"
    ∷ codes "DATABASE_ALREADY_OPEN"
    ∷ codes "SCHEMA_TOO_LARGE"
    ∷ codes "CANCELLED"
    ∷ codes "DEADLINE_EXCEEDED"
    ∷ codes "BUSY"
    ∷ codes "BUSY_SNAPSHOT"
    ∷ codes "INVALID_TRANSACTION_MODE"
    ∷ codes "HANDLE_LIMIT"
    ∷ codes "INVALID_DATABASE"
    ∷ codes "SERVER_SHUTDOWN"
    ∷ codes "RESULT_TOO_LARGE"
    ∷ codes "POLICY_DENIED"
    ∷ codes "NO_TX_OPEN"
    ∷ codes "MERGE_INPUT_INVALID"
    ∷ codes "MERGE_FORMAT_INVALID"
    ∷ codes "MERGE_POLICY_DENIED"
    ∷ codes "MERGE_UNREPRESENTABLE_CONTENT"
    ∷ codes "MERGE_OUTPUT_EXISTS"
    ∷ codes "MERGE_LIMIT_EXCEEDED"
    ∷ codes "MERGE_VALIDATION_FAILED"
    ∷ codes "MERGE_CLEANUP_UNCERTAIN"
    ∷ codes "INTERNAL"
    ∷ []

-- `commit_lifecycle_is_retryable_busy`.
unfoldable pub is_retryable_busy : CommitLifecycle → Bool
is_retryable_busy c =
    if c.commit_confirmed || c.uncertain_or_invalidated || not c.transaction_open
    then false
    else elim c.error [
      | WorkerError.sqlite x ↦
          is_code (primary_of x.extended) sqlite_busy
          || is_code (primary_of x.extended) sqlite_locked
      | _ ↦ false
    ]

-- The classes that are read off the message.
unfoldable pub class_of_text : Text → Text
class_of_text text =
    if contains text (codes "no transaction") || contains text (codes "transaction required")
    then codes "NO_TX_OPEN"
    else if contains (to_ascii_lowercase text) (codes "busy")
    then codes "BUSY"
    else codes "INTERNAL"

-- The class of an error.
unfoldable pub class_of : CoreError → Text
unfolding class_of_text is_retryable_busy
class_of CoreError.unknown_handle = codes "HANDLE_UNKNOWN"
class_of CoreError.transaction_open = codes "TX_ALREADY_OPEN"
class_of CoreError.schema_required = codes "SCHEMA_REQUIRED"
class_of CoreError.schema_stale = codes "SCHEMA_STALE"
class_of CoreError.transaction_expired = codes "TX_EXPIRED"
class_of CoreError.already_open = codes "DATABASE_ALREADY_OPEN"
class_of CoreError.schema_too_large = codes "SCHEMA_TOO_LARGE"
class_of (CoreError.cancelled o k) = codes "CANCELLED"
class_of (CoreError.deadline_exceeded o k) = codes "DEADLINE_EXCEEDED"
class_of (CoreError.busy primary extended o k) = codes "BUSY"
class_of (CoreError.locked primary extended o k) = codes "BUSY"
class_of (CoreError.busy_snapshot primary extended o k) = codes "BUSY_SNAPSHOT"
class_of CoreError.invalid_transaction_mode = codes "INVALID_TRANSACTION_MODE"
class_of CoreError.handle_limit_reached = codes "HANDLE_LIMIT"
class_of CoreError.invalid_database = codes "INVALID_DATABASE"
class_of CoreError.server_shutdown = codes "SERVER_SHUTDOWN"
class_of (CoreError.worker (WorkerError.result_too_large n limit)) = codes "RESULT_TOO_LARGE"
class_of (CoreError.policy_denied o k) = codes "POLICY_DENIED"
class_of (CoreError.merge class message) = merge_class_text class
class_of (CoreError.commit_lifecycle c) =
    if is_retryable_busy c
    then codes "BUSY"
    else class_of_text (core_text (CoreError.commit_lifecycle c))
class_of x = class_of_text (core_text x)

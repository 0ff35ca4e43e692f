-- ===== src/Core/Error.antt =====
-- crates/sqlite-mcp-core/src/core/error.rs: `CoreError` and the classification of worker errors.
use sqlite_mcp.Merge.Split.{MergeClass}
use sqlite_mcp.Prelude.{ℕ, ◌%◌, Bool, false, ◌||◌, Option, none, some, ◌==◌, if◌then◌else◌}
use sqlite_mcp.Prelude.Text.{Text, codes, contains}
use sqlite_mcp.Sqlite.{SqliteError}
use sqlite_mcp.Worker.Error.{WorkerError, to_string}

pub data PathError : Type 0 where
  relative nul uri not_file missing : PathError
  io : Text → PathError

-- The lifecycle of a commit that failed (`CoreError::CommitLifecycle`).
pub record CommitLifecycle : Type 0 where
  pub error : WorkerError
  pub commit_confirmed : Bool
  pub transaction_open : Bool
  pub transaction_continuable : Bool
  pub expired : Bool
  pub uncertain_or_invalidated : Bool

-- The errors of a busy or locked database carry the primary and the extended code, -1 being none.
pub data CoreError : Type 0 where
  path : PathError → CoreError
  worker : WorkerError → CoreError
  unknown_handle transaction_open schema_required : CoreError
  invalid_transaction_mode readonly_immediate already_open : CoreError
  invalid_database handle_limit_reached : CoreError
  sqlite : SqliteError → CoreError
  io : Text → CoreError
  schema_too_large schema_stale server_shutdown : CoreError
  merge : MergeClass → Text → CoreError
  transaction_expired : CoreError
  busy busy_snapshot locked : Option ℕ → Option ℕ → Bool → Bool → CoreError
  cancelled deadline_exceeded policy_denied : Bool → Bool → CoreError
  commit_lifecycle : CommitLifecycle → CoreError

abbrev pub sqlite_busy : ℕ
sqlite_busy = 5

abbrev pub sqlite_locked : ℕ
sqlite_locked = 6

abbrev pub sqlite_busy_snapshot : ℕ
sqlite_busy_snapshot = 517

-- `extended & 0xff`.
abbrev pub primary_of : Option ℕ → Option ℕ
primary_of none = none
primary_of (some code) = some (code % 256)

abbrev pub is_code : Option ℕ → ℕ → Bool
is_code none k = false
is_code (some code) k = code == k

-- The part for `WorkerError::Sqlite`; nothing if no code fits.
unfoldable pub classify_sqlite : SqliteError → Bool → Option CoreError
classify_sqlite x open' =
    let primary = primary_of x.extended in
    if is_code x.extended sqlite_busy_snapshot
    then some (busy_snapshot primary x.extended open' open')
    else if is_code primary sqlite_busy || is_code primary sqlite_locked
    then some (busy primary x.extended open' open')
    else if is_code primary sqlite_locked
    then some (locked primary x.extended open' open')
    else none

-- The last test, on the text of the error.
unfoldable pub classify_text : WorkerError → Bool → CoreError
classify_text x open' =
    if contains (to_string x) (codes "deadline") || contains (to_string x) (codes "interrupted")
    then cancelled open' open'
    else worker x

unfoldable pub classify_kind : WorkerError → Bool → CoreError
unfolding classify_sqlite classify_text
classify_kind (WorkerError.policy_denied o k) open' = CoreError.policy_denied o k
classify_kind (WorkerError.sqlite x) open' = elim (classify_sqlite x open') [
  | some c ↦ c
  | none ↦ classify_text (WorkerError.sqlite x) open'
]
classify_kind (WorkerError.interrupted by_client o k) open' =
    if by_client then cancelled o k else deadline_exceeded o k
classify_kind x open' = classify_text x open'

unfoldable pub says_expired : WorkerError → Bool
unfolding to_string contains
says_expired x = contains (to_string x) (codes "TRANSACTION_EXPIRED")

unfoldable pub says_invalidated : WorkerError → Bool
unfolding to_string contains
says_invalidated x = contains (to_string x) (codes "handle invalidated")

unfoldable pub says_stale : WorkerError → Bool
unfolding to_string contains
says_stale x = contains (to_string x) (codes "SCHEMA_STALE")

unfoldable pub classify_worker_error : WorkerError → Bool → CoreError
unfolding classify_kind says_expired
classify_worker_error x open' =
    if says_expired x then transaction_expired else classify_kind x open'

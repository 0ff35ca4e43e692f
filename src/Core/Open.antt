-- ===== src/Core/Open.antt =====
-- core.rs: `open_database`, `close_database`, `list_handles` and `shutdown`.
use sqlite_mcp.Prelude.{
  ℕ, Bool, false, not, ◌&&◌, ◌||◌, Option, none, some, List, [], ◌∷◌, ◌++◌, map, leb, ◌==◌,
  if◌then◌else◌, is_some, Result, ok, err, ◌>>=◌, ◌>>◌, fail_if, length,
}
use sqlite_mcp.Prelude.Text.{Text, codes}
use sqlite_mcp.Prelude.Int.{ℤ, ◌==ℤ◌}
use sqlite_mcp.Prelude.Table.{Table, insert, contains_key}
use sqlite_mcp.Sqlite.{Engine, SqliteError}
use sqlite_mcp.Operation.{
  is_success, WorkerShutdownError, Status, ShutdownReport, record_entry, new_report,
}
use sqlite_mcp.Worker.Error.{WorkerError, message}
use sqlite_mcp.Worker.State.{Worker}
use sqlite_mcp.Worker.Control.{run_shutdown, finish_shutdown}
use sqlite_mcp.Core.Error.{CoreError, PathError}
use sqlite_mcp.Core.State.{Handle, new_handle, State, handle_gate, invalidate_handle}
use sqlite_mcp.Config.{Config}
use sqlite_mcp.Prelude.Text.{text_eq}

-- What the file system and SQLite answer in the course of an open, in the order of the questions.
pub record OpenFacts (e : Engine) : Type 0 where
  pub cancelled : Bool
  pub path : Result Text PathError
  pub length : Result ℕ Text
  pub header : Result Text Text
  pub connection : Result (Unit {0}) SqliteError
  pub schema_count : Result (Unit {0}) SqliteError
  pub db_readonly : Result (Option ℤ) SqliteError
  pub journal_mode : Result Text SqliteError
  -- Device and inode, read with the length.
  pub identity : ℕ
  pub fresh : ℕ
  -- The worker that `Worker::start` gives for the idle time.
  pub started : ℕ → Result (Worker e) WorkerError

abbrev pub lift {ℓ} : {A : Type 0} {E : Type ℓ} → (E → CoreError) → Result A E → Result A CoreError
lift f (ok a) = ok a
lift f (err x) = err (f x)

-- `b"SQLite format 3\0"`.
abbrev pub magic : Text
magic = codes "SQLite format 3" ++ 0 ∷ []

abbrev pub is_nonzero : Option ℤ → Bool
is_nonzero none = false
is_nonzero (some v) = not (v ==ℤ ℤ.pos 0)

-- The checks of the file, in the order in which the code makes them: its path and journal mode.
unfoldable pub check_file : {e : Engine} → Bool → OpenFacts e → Result (Text × Text) CoreError
check_file readonly f = do
  fail_if f.cancelled (CoreError.cancelled false false)
  path ← lift CoreError.path f.path
  length ← lift CoreError.io f.length
  _ ← fail_if (length == 0) CoreError.invalid_database
  header ← lift CoreError.io f.header
  _ ← fail_if (not (text_eq header magic)) CoreError.invalid_database
  _ ← lift CoreError.sqlite f.connection
  _ ← lift CoreError.sqlite f.schema_count
  db_readonly ← lift CoreError.sqlite f.db_readonly
  _ ← fail_if (not readonly && is_nonzero db_readonly) CoreError.invalid_database
  mode ← lift CoreError.sqlite f.journal_mode
  ok (path, mode)

module _ (e : Engine) where
  -- `s.handles.values().any(|(h, _)| h.path == p)`.
  unfoldable pub path_is_open : Text → Table (Handle × Worker e) → Bool
  unfolding text_eq
  path_is_open p [] = false
  path_is_open p ((id, entry) ∷ m) = text_eq entry.0.path p || path_is_open p m

  -- The checks of the registry.
  unfoldable pub check_registry : State e → Config → Text → ℕ → Result (Unit {0}) CoreError
  unfolding path_is_open contains_key
  check_registry s config path identity = do
    fail_if (path_is_open path s.handles) CoreError.already_open
    fail_if (contains_key s.identities identity) CoreError.already_open
    fail_if (leb config.max_handles (length s.handles)) CoreError.handle_limit_reached

  unfoldable pub insert_handle : State e → Handle → Worker e → ℕ → State e
  unfolding insert
  insert_handle s h w identity = record s {
    identities = insert s.identities identity h.id;
    handles = insert s.handles h.id (h, w);
    gates = insert s.gates h.id tt;
  }

  -- `open_database_with_ct`.
  unfoldable pub open_database :
      State e → Config → Bool → OpenFacts e → Result Handle CoreError × State e
  unfolding check_file check_registry new_handle insert_handle
  open_database s config readonly f = elim (check_file readonly f) [
    | err x ↦ (err x, s)
    | ok (path, mode) ↦ elim (check_registry s config path f.identity) [
      | err x ↦ (err x, s)
      | ok _ ↦
          let idle =
            if readonly then config.readonly_idle_seconds else config.writable_idle_seconds in
          let h = new_handle f.fresh path readonly mode in
          elim (f.started idle) [
            | err x ↦ (err (CoreError.worker x), s)
            | ok w ↦ (ok h, insert_handle s h w f.identity)
          ]
    ]
  ]

  abbrev pub bool_text : Bool → Text
  bool_text b = if b then codes "true" else codes "false"

  -- `Display` of `WorkerShutdownError`.
  unfoldable pub shutdown_text : WorkerShutdownError → Text
  shutdown_text (WorkerShutdownError.rollback_uncertain text) =
      codes "rollback verification failed: " ++ text
  shutdown_text (WorkerShutdownError.close_uncertain text) =
      codes "connection close unconfirmed: " ++ text
  shutdown_text (WorkerShutdownError.join_uncertain text) =
      codes "worker join unconfirmed: " ++ text

  -- What the shutdown of its worker makes of a close.
  unfoldable pub close_reply : Status → Result (Unit {0}) CoreError
  unfolding is_success shutdown_text
  close_reply (ok status) =
      if is_success status
      then ok tt
      else err (
          CoreError.worker (
            message (
              codes "close cleanup incomplete (connection_closed="
              ++ bool_text status.connection_closed
              ++ codes ", thread_joined="
              ++ bool_text status.thread_joined
              ++ codes ")")))
  close_reply (err x) = err (CoreError.worker (message (shutdown_text x)))

  -- `close_database`; `injected` is the rollback fault, `joined` what joining the thread gave.
  unfoldable pub close_database :
      State e → ℕ → Bool → Option Bool → Result (Unit {0}) CoreError × State e
  unfolding handle_gate invalidate_handle close_reply
  close_database s id injected joined = elim (handle_gate s id) [
    | err x ↦ (err x, s)
    | ok (h, w) ↦ if is_some h.transaction_id then (err CoreError.transaction_open, s) else (
      close_reply (finish_shutdown (some (some (run_shutdown e w injected).0)) joined),
      invalidate_handle s id,
    )
  ]

  -- The report of a shutdown: what each worker answered, in the order in which the map is drained.
  unfoldable pub drain :
      ShutdownReport → Table (Handle × Worker e) → (ℕ → Bool) → (ℕ → Option Bool) → ShutdownReport
  drain r [] injected joined = r
  drain r ((id, entry) ∷ m) injected joined =
      let answer = (run_shutdown e entry.1 (injected id)).0 in
      drain (record_entry r id (finish_shutdown (some (some answer)) (joined id))) m injected joined

  -- `shutdown`, behind the wait for the merges. The identities stay in their map.
  unfoldable pub shutdown : State e → (ℕ → Bool) → (ℕ → Option Bool) → ShutdownReport × State e
  unfolding drain new_report
  shutdown s injected joined = (
    drain new_report s.handles injected joined,
    record s { handles = []; transaction_schema = []; gates = [] },
  )

  unfoldable pub list_handles : State e → List Handle
  list_handles s = map (λ entry. entry.1.0) s.handles

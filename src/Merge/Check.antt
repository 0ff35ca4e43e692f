-- ===== src/Merge/Check.antt =====
-- merge.rs: `import`, the checks of a text that has been read, and the database in memory.
use sqlite_mcp.Merge.Split.{policy_denied}
use sqlite_mcp.Merge.Paths.{error_of}
use sqlite_mcp.Prelude.Text.{Text, codes}
use sqlite_mcp.Worker.State.{Session}
use sqlite_mcp.Merge.Import.{ImportSqlite}
use sqlite_mcp.Merge.Split.{
  validate_header, MergeClass, split_statements, MergeError, validation_failed, limit_exceeded,
  format_invalid,
}
use sqlite_mcp.Disk.{FileSystem}
use sqlite_mcp.Merge.Baseline.{Encodings, Baseline, parse_baseline}
use sqlite_mcp.Sqlite.{Engine, SqliteError}
use sqlite_mcp.Policy.Cursor.{Unicode}
use sqlite_mcp.Prelude.{
  ℕ, Bool, false, not, ◌&&◌, ◌||◌, List, ltb, Result, ok, err, ◌>>=◌, ◌>>◌, fail_if, length,
  is_empty,
}

module _ (u : Unicode) (x : Encodings) where
  -- A text with statements has a baseline, and a baseline has statements.
  abbrev pub is_unbalanced : Baseline → List (ℕ × ℕ) → Bool
  is_unbalanced baseline statements =
      (not (is_empty baseline) && is_empty statements)
      || (is_empty baseline && not (is_empty statements))

  unfoldable pub check_merge_text : Text → ℕ → Result (Baseline × List (ℕ × ℕ)) MergeError
  unfolding validate_header parse_baseline split_statements
  check_merge_text text statement_limit = do
    offset ← validate_header text
    (baseline, body_offset) ← parse_baseline x text offset
    statements ← split_statements u text body_offset
    fail_if (ltb statement_limit (length statements))
        (error_of limit_exceeded (codes "merge statement limit exceeded"))
    fail_if (is_unbalanced baseline statements) (
        error_of format_invalid
          (codes "nonempty merge text requires exactly one closed schema baseline"))
    ok (baseline, statements)

module _ (e : Engine) (fs : FileSystem) (sqlite : ImportSqlite e fs) where
  abbrev pub or_class : {A : Type 0} → MergeClass → Result A SqliteError → Result A MergeError
  or_class class (ok a) = ok a
  or_class class (err y) = err (error_of class y.text)

  -- The database in memory, with the authorizer, inside a transaction.
  unfoldable pub open_replay_database : Result (Session e) MergeError
  open_replay_database = do
    s ← or_class validation_failed sqlite.open_in_memory
    authorized ← or_class policy_denied (sqlite.install_authorizer s)
    let (unset, s1) = sqlite.foreign_keys false authorized
    or_class policy_denied unset
    let (begun, s2) = sqlite.begin s1
    or_class validation_failed begun
    ok s2

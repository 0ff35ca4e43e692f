-- ===== src/Core/Query/Settle.antt =====
-- core/query.rs: the end of a statement, its savepoint released or restored, and the whole of it.
use sqlite_mcp.Prelude.{ℕ, Bool, none, some, List, ltb, if◌then◌else◌, is_some, Result, ok, err}
use sqlite_mcp.Prelude.Text.{Text}
use sqlite_mcp.Prelude.Int.{ℤ}
use sqlite_mcp.Sqlite.{Engine, SqliteError, release, rollback_to_and_release}
use sqlite_mcp.Sql.{Formats, Value}
use sqlite_mcp.Policy.Cursor.{Unicode}
use sqlite_mcp.Policy.Signal.{clear_policy_denied}
use sqlite_mcp.Worker.Error.{WorkerError, message, result_too_large}
use sqlite_mcp.Worker.State.{Session}
use sqlite_mcp.Core.Begin.{at_conn}
use sqlite_mcp.Core.Query.Statement.{
  QueryResult, Statements, Limits, is_authorization_failure, restoration_failed, aborted,
  with_signal, guard_statement, execute_statement,
}

module _ (e : Engine) (f : Formats) (q : Statements e f) (u : Unicode) (l : Limits) where
  -- Behind a statement that succeeded: too large a result is undone, and otherwise the savepoint is
  -- released and the schema cookie read. `injected` is the cleanup fault of the test hooks.
  unfoldable pub settle_ok : Bool → QueryResult → Session e → Result ℤ WorkerError × Session e
  settle_ok injected result s =
      let (undone, c) =
        if injected
        then (some e.invalid_query, s.conn)
        else e.execute rollback_to_and_release s.conn in
      let (released, c') = e.execute release s.conn in
      elim (q.payload_bytes result) [
        | err text ↦ (err (message text), s)
        | ok bytes ↦
            if ltb l.result_byte_limit bytes
            then (
              err (
                  if is_some undone
                  then restoration_failed
                  else result_too_large bytes l.result_byte_limit),
              at_conn e s c,
            )
            else elim released [
              | some x ↦ (err (WorkerError.sqlite x), at_conn e s c')
              | none ↦ elim (e.schema_version c') [
                | err x ↦ (err (WorkerError.sqlite x), at_conn e s c')
                | ok after ↦ (ok after, at_conn e s c')
              ]
            ]
      ]

  -- Behind a statement that failed: it is undone, if the transaction is still there.
  unfoldable pub settle_err : SqliteError → Session e → WorkerError × Session e
  unfolding clear_policy_denied
  settle_err x s =
      let s' =
        if is_authorization_failure x
        then s
        else with_signal e f q u l s (clear_policy_denied s.signal) in
      let (undone, c) = e.execute rollback_to_and_release s.conn in
      if e.is_autocommit s.conn
      then (aborted x.text, s')
      else if is_some undone
      then (restoration_failed, at_conn e s' c)
      else (WorkerError.sqlite x, at_conn e s' c)

  -- The body of the loop over the statements, for a statement that was found: its result, and the
  -- schema cookie that the next one expects.
  unfoldable pub run_statement :
      Bool
      → List (Value f)
      → ℤ
      → ℕ
      → Text
      → Session e
      → Result (QueryResult × ℤ) WorkerError × Session e
  unfolding guard_statement execute_statement settle_ok settle_err
  run_statement injected values expected count current s =
      let (refused, s1) = guard_statement e f q u l expected count current s in
      let (executed, s2) = execute_statement e f q u l current values s1 in
      elim refused [
        | some x ↦ (err x, s1)
        | none ↦ elim executed [
          | ok result ↦
              let (settled, s3) = settle_ok injected result s2 in
              elim settled [ err x ↦ (err x, s3) | ok after ↦ (ok (result, after), s3) ]
          | err x ↦ let (reply, s3) = settle_err x s2 in (err reply, s3)
        ]
      ]

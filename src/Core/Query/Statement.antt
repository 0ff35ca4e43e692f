-- ===== src/Core/Query/Statement.antt =====
-- core/query.rs: one statement of a batch, between its savepoint and its release or restoration.
-- How SQLite compiles and steps the statement is a parameter; the authorizer, which it calls
-- meanwhile, sets flags of the session.
use sqlite_mcp.Prelude.{
  ℕ, ◌%◌, Bool, true, false, not, ◌&&◌, Option, none, some, List, [], ◌∷◌, ◌++◌, map, ltb, ◌==◌,
  if◌then◌else◌, unwrap_or, Result, ok, err, length,
}
use sqlite_mcp.Prelude.Text.{Text, codes}
use sqlite_mcp.Prelude.Int.{ℤ, ◌==ℤ◌}
use sqlite_mcp.Sqlite.{Engine, SqliteError, savepoint}
use sqlite_mcp.Sql.{Formats, Cell, Value, ValueRef, cell}
use sqlite_mcp.Policy.Cursor.{Unicode, check_maintenance, allowed, maintenance, panic}
use sqlite_mcp.Policy.Stored.{check_stored_body, accepted, denied, crashed}
use sqlite_mcp.Policy.Signal.{MutationSignal, classify_source}
use sqlite_mcp.Policy.Tail.{Discovery, PolicyError, policy_text}
use sqlite_mcp.Worker.Error.{WorkerError, message, closed, decimal}
use sqlite_mcp.Worker.State.{Session}
use sqlite_mcp.Core.Begin.{at_conn}

pub record QueryResult : Type 0 where
  pub columns : List Text
  pub rows : List (List Cell)
  pub rows_returned : ℕ
  pub truncated : Bool
  pub execution_complete : Bool
  pub changes : ℕ

-- What SQLite and serde give for a statement.
pub record Statements (e : Engine) (f : Formats) : Type 0 where
  -- `sqlite3_prepare_v2` of the rest of a buffer, without the authorizer.
  pub discover : e.Conn → Text → ℕ → Discovery
  -- `Connection::prepare`: the names of the columns, where SQLite has them.
  pub prepare : Session e → Text → Result (List (Option Text)) SqliteError × Session e
  -- `query` and all calls of `next`: the rows, and the error that ends them.
  pub step :
      Session e
      → Text
      → List (Value f)
      → (List (List (ValueRef f)) × Option SqliteError) × Session e
  pub total_changes : e.Conn → ℕ
  pub changes : e.Conn → ℕ
  -- `InvalidParameterName` of a text, which has no result code.
  pub invalid_parameter_name : Text → SqliteError
  -- The length of the JSON text of a result's columns and rows.
  pub payload_bytes : QueryResult → Result ℕ Text

-- The limits that the configuration sets on a batch.
pub record Limits : Type 0 where
  pub row_limit : ℕ
  pub result_byte_limit : ℕ
  pub column_limit : ℕ
  pub statement_limit : ℕ
  pub single_statement : Bool

-- The rows that are kept, and whether one was dropped.
unfoldable pub collect : {A : Type 0} → ℕ → List A → List A × Bool → List A × Bool
collect limit [] kept = kept
collect limit (row ∷ rows) (data', truncated) =
    collect limit rows
      (if ltb (length data') limit then (data' ++ (row ∷ []), truncated) else (data', true))

abbrev pub sqlite_auth : ℕ
sqlite_auth = 23

-- `code & 0xff == SQLITE_AUTH`.
abbrev pub is_authorization_failure : SqliteError → Bool
is_authorization_failure x = elim x.extended [
  | none ↦ false
  | some code ↦ code % 256 == sqlite_auth
]

abbrev pub restoration_failed : WorkerError
restoration_failed = message (codes "savepoint restoration failed; handle invalidated")

abbrev pub aborted : Text → WorkerError
aborted text = message (codes "outer transaction aborted: " ++ text)

abbrev pub stale : WorkerError
stale = message (codes "SCHEMA_STALE")

abbrev pub several : WorkerError
several = message (codes "multiple SQL statements are not allowed")

-- `batch statement limit exceeded (limit {statement_limit})`.
abbrev pub too_many : ℕ → WorkerError
too_many limit =
    message (codes "batch statement limit exceeded (limit " ++ (decimal limit ++ codes ")"))

abbrev pub denial : PolicyError → WorkerError
denial x = message (codes "statement is denied by SQL policy: " ++ policy_text x)

module _ (e : Engine) (f : Formats) (q : Statements e f) (u : Unicode) (l : Limits) where
  abbrev pub with_signal : Session e → MutationSignal → Session e
  with_signal s seen = record s { signal = seen }

  -- The number of statements so far, this one included, against the limits.
  unfoldable pub check_count : ℕ → Option WorkerError
  check_count count =
      if l.single_statement && ltb 1 count
      then some several
      else if not l.single_statement && ltb l.statement_limit count
      then some (too_many l.statement_limit)
      else none

  -- The guards of the policy: against stored bodies, then against maintenance. A panic of a guard
  -- ends the thread, and with it the reply; a worker that has panicked is not followed further.
  unfoldable pub check_policy : Text → MutationSignal → Option WorkerError × MutationSignal
  check_policy current seen =
      let (body, seen1) = check_stored_body u current (classify_source seen current) in
      let (verdict, seen2) = check_maintenance u current seen1 in
      elim body [
        | denied ↦ (some (denial PolicyError.denied), seen1)
        | crashed ↦ (some closed, seen1)
        | accepted ↦ elim verdict [
          | maintenance ↦ (some (denial PolicyError.maintenance), seen2)
          | panic ↦ (some closed, seen2)
          | allowed ↦ (none, seen2)
        ]
      ]

  -- What comes before the execution: the count, the schema cookie, the guards, and the savepoint.
  unfoldable pub guard_statement : ℤ → ℕ → Text → Session e → Option WorkerError × Session e
  unfolding check_count check_policy
  guard_statement expected count current s =
      let (refused, seen) = check_policy current s.signal in
      let (r, c) = e.execute savepoint s.conn in
      elim (check_count count) [
        | some x ↦ (some x, s)
        | none ↦ elim (e.schema_version s.conn) [
          | err x ↦ (some (WorkerError.sqlite x), s)
          | ok before ↦ if not (before ==ℤ expected) then (some stale, s) else elim refused [
            | some x ↦ (some x, with_signal s seen)
            | none ↦ elim r [
              | some x ↦ (some (WorkerError.sqlite x), at_conn e (with_signal s seen) c)
              | none ↦ (none, at_conn e (with_signal s seen) c)
            ]
          ]
        ]
      ]

  abbrev pub column_name : Option Text → Text
  column_name name = unwrap_or name []

  abbrev pub cells : List (ValueRef f) → List Cell
  cells row = map (cell f) row

  -- The result of a statement that has run to its end, from connection to connection.
  unfoldable pub result_of :
      List (Option Text) → List (List (ValueRef f)) → e.Conn → e.Conn → QueryResult
  unfolding collect cell
  result_of names rows before after =
      let (kept, truncated) = collect l.row_limit (map cells rows) ([], false) in
      record {
        columns = map column_name names;
        rows = kept;
        rows_returned = length kept;
        truncated = truncated;
        execution_complete = true;
        changes =
            if ltb (q.total_changes before) (q.total_changes after) then q.changes after else 0;
      }

  -- The closure that compiles and runs the statement.
  unfoldable pub execute_statement :
      Text → List (Value f) → Session e → Result QueryResult SqliteError × Session e
  unfolding result_of
  execute_statement current values s =
      let (compiled, s1) = q.prepare s current in
      let ((rows, failed), s2) = q.step s1 current values in
      elim compiled [
        | err x ↦ (err x, s1)
        | ok names ↦
            if ltb l.column_limit (length names)
            then (err (q.invalid_parameter_name (codes "column limit exceeded")), s1)
            else elim failed [
              | some x ↦ (err x, s2)
              | none ↦ (ok (result_of names rows s1.conn s2.conn), s2)
            ]
      ]

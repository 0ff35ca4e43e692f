-- ===== src/Core/Query/Job.antt =====
-- core/query.rs: the job of a batch, which the worker runs inside the transaction of its handle.
use sqlite_mcp.Prelude.{
  ℕ, zero, suc, Bool, true, false, not, Option, none, some, List, [], ◌∷◌, ◌++◌, if◌then◌else◌,
  is_empty, Result, ok, err, length,
}
use sqlite_mcp.Prelude.Text.{Text, codes}
use sqlite_mcp.Prelude.Int.{ℤ, ◌==ℤ◌}
use sqlite_mcp.Prelude.Words.{saturating_add}
use sqlite_mcp.Sqlite.{Engine}
use sqlite_mcp.Sql.{Formats, Value}
use sqlite_mcp.Policy.Cursor.{Unicode}
use sqlite_mcp.Policy.Tail.{
  PolicyError, policy_text, Prepare, TailCursor, new_cursor, sql_of, next_statement,
}
use sqlite_mcp.Worker.Error.{WorkerError, message}
use sqlite_mcp.Worker.State.{Session, Job}
use sqlite_mcp.Core.Query.Statement.{QueryResult, Statements, Limits, stale, several}
use sqlite_mcp.Core.Query.Settle.{run_statement}

pub record BatchExecution : Type 0 where
  pub results : List QueryResult
  pub schema_before : ℤ
  pub schema_after : ℤ
  pub statement_succeeded : Bool
  pub transaction_open : Bool
  pub transaction_continuable : Bool
  pub cleanup_uncertain : Bool

abbrev pub policy_worker_error : PolicyError → WorkerError
policy_worker_error x = message (policy_text x)

abbrev pub sql_empty : WorkerError
sql_empty = message (codes "SQL is empty")

-- What the loop carries from statement to statement.
pub record Progress : Type 0 where
  pub cursor : TailCursor
  pub statement_count : ℕ
  pub expected : ℤ
  pub results : List QueryResult

abbrev pub begin_progress : TailCursor → ℤ → Progress
begin_progress c version = record {
  cursor = c;
  statement_count = 0;
  expected = version;
  results = [];
}

module _ (e : Engine) (f : Formats) (q : Statements e f) (u : Unicode) (l : Limits) where
  -- The progress behind a statement, with its result and the next cookie.
  abbrev pub advance : Progress → TailCursor → QueryResult → ℤ → Progress
  advance p c result after = record {
    cursor = c;
    statement_count = saturating_add p.statement_count 1;
    expected = after;
    results = p.results ++ (result ∷ []);
  }

  -- A text with anything but one statement is refused before it is run as a query.
  unfoldable pub check_single : TailCursor → Prepare → Option WorkerError
  check_single c p =
      let (first, c1) = next_statement p c in
      let (second, c2) = next_statement p c1 in
      elim first [
        | err x ↦ some (policy_worker_error x)
        | ok none ↦ some sql_empty
        | ok (some range) ↦ elim second [
          | ok none ↦ none
          | ok (some range') ↦ some several
          | err x ↦ some several
        ]
      ]

  unfoldable pub batch_loop :
      ℕ → Bool → List (Value f) → Progress → Session e → Result Progress WorkerError × Session e
  unfolding run_statement
  batch_loop zero injected values p s = (ok p, s)
  batch_loop (suc fuel) injected values p s =
      let (found, c) = next_statement (q.discover s.conn) p.cursor in
      elim found [
        | err x ↦ (err (policy_worker_error x), s)
        | ok none ↦ (ok p, s)
        | ok (some range) ↦
            let (r, s') =
              run_statement e f q u l injected values p.expected
                (saturating_add p.statement_count 1) (sql_of c range) s in
            elim r [
              | err x ↦ (err x, s')
              | ok (result, after) ↦ batch_loop fuel injected values (advance p c result after) s'
            ]
      ]

  -- The outcome of a batch whose loop has ended.
  unfoldable pub execution_of : ℤ → Progress → Session e → BatchExecution
  execution_of before p s = record {
    results = p.results;
    schema_before = before;
    schema_after = p.expected;
    statement_succeeded = true;
    transaction_open = not (e.is_autocommit s.conn);
    transaction_continuable = not (e.is_autocommit s.conn);
    cleanup_uncertain = false;
  }

  -- The loop on a new cursor, with a statement for each character as fuel.
  unfoldable pub run_batch :
      Bool → Text → List (Value f) → ℤ → Session e → Result BatchExecution WorkerError × Session e
  unfolding new_cursor batch_loop execution_of
  run_batch injected sql values before s = elim (new_cursor u sql) [
    | err x ↦ (err (policy_worker_error x), s)
    | ok c ↦
        let (r, s') = batch_loop (suc (length sql)) injected values (begin_progress c before) s in
        elim r [
          | err x ↦ (err x, s')
          | ok p ↦
              ((if is_empty p.results then err sql_empty else ok (execution_of before p s')), s')
        ]
  ]

  -- The check of a query, on a cursor of its own.
  unfoldable pub validate_single : Text → e.Conn → Option WorkerError
  unfolding new_cursor check_single
  validate_single sql c = elim (new_cursor u sql) [
    | err x ↦ some (policy_worker_error x)
    | ok cursor ↦ check_single cursor (q.discover c)
  ]

  -- The job.
  unfoldable pub batch_job : Bool → ℤ → Text → List (Value f) → Job e BatchExecution
  unfolding validate_single run_batch
  batch_job injected expected_version sql values s =
      if e.is_autocommit s.conn
      then (err (message (codes "transaction required")), s)
      else elim (e.schema_version s.conn) [
        | err x ↦ (err (WorkerError.sqlite x), s)
        | ok before ↦
            if not (before ==ℤ expected_version)
            then (err stale, s)
            else elim (if l.single_statement then validate_single sql s.conn else none) [
              | some x ↦ (err x, s)
              | none ↦ run_batch injected sql values before s
            ]
      ]

-- ===== src/Core/Query/Tests.antt =====
-- The theorems on queries at concrete inputs, on the counting engine.
use sqlite_mcp.Worker.Interrupt.{started}
use sqlite_mcp.Core.Query.Abort.{abort_unsynced}
use sqlite_mcp.Core.Synced.{is_synced}
use sqlite_mcp.Core.Error.{says_expired, says_invalidated}
use sqlite_mcp.Core.Query.Effect.{batch_success, batch_reply, Tracks}
use sqlite_mcp.Core.Query.Success.{IsAnswer}
use sqlite_mcp.Policy.Cursor.{check_maintenance}
use sqlite_mcp.Worker.Run.{run, before_job, serve, after_job, apply_policy}
use sqlite_mcp.Sql.{integer_cell, cell}
use sqlite_mcp.Operation.{immediate}
use sqlite_mcp.Policy.Stored.{check_stored_body, drop}
use sqlite_mcp.Worker.Sample.{calm}
use sqlite_mcp.Prelude.Table.{get, modify}
use sqlite_mcp.Core.Query.Publish.{execute_batch_admitted, publish_query, take_flags, expected_of}
use sqlite_mcp.Core.State.{
  Handle, TransactionSchemaState, State, handle_gate, new_handle, put_worker,
}
use sqlite_mcp.Sqlite.Sample.{refusal}
use sqlite_mcp.Worker.Error.{WorkerError, decimal, to_string}
use sqlite_mcp.Prelude.Int.{pos, ◌==ℤ◌, ℤ}
use sqlite_mcp.Core.Query.Fuel.{batch_loop_fuel, validate_single_iff}
use sqlite_mcp.Policy.Tail.{prepare_exact, new_cursor, sql_of, take, next_range, next_offset}
use sqlite_mcp.Prelude.Text.{codes, contains, starts_with}
use sqlite_mcp.Policy.Signal.{reset_for_request, clear_source, classify_source}
use sqlite_mcp.Core.Query.Sample.{ledger, simple, counting_statements, ascii, open_session}
use sqlite_mcp.Core.Query.Job.{
  validate_single, Progress, batch_loop, begin_progress, batch_job, run_batch, execution_of,
}
use sqlite_mcp.Worker.State.{Worker, idle_from, autocommit}
use sqlite_mcp.Core.Query.Statement.{
  Limits, collect, guard_statement, check_count, check_policy, QueryResult, restoration_failed,
  execute_statement, result_of, aborted,
}
use sqlite_mcp.Core.Query.Settle.{run_statement, settle_ok, settle_err}
use sqlite_mcp.Core.Query.Atomic.{SavepointLaws, fails_late, executed, run_statement_atomic}
use sqlite_mcp.Prelude.{ℕ, ◌≡◌, refl, ◌↔◌, ◌⊎◌, true, false, none, some, [], ◌∷◌, arith, ok, err}

ledger_laws : SavepointLaws ledger simple counting_statements ℕ (λ c. c.total) (λ c. c.saved)
ledger_laws = record {
  holds = λ c. refl;
  saves = λ c h. refl;
  restores = λ c d ds h done. ground (arith, h, done);
  compiles = λ s sql. refl;
  succeeds = λ s sql values h. ground (arith, h);
  fails = λ s sql values h. ground (arith, h);
  serializes = λ x. refl;
}

abbrev few : Limits
few = record {
  row_limit = 10;
  result_byte_limit = 100;
  column_limit = 5;
  statement_limit = 3;
  single_statement = false;
}

failed_statement :
    (run_statement ledger simple counting_statements ascii few false []
      (pos 7)
      1
      (codes "!")
      open_session).0
    ≡ err (WorkerError.sqlite refusal)
unfolding run_statement guard_statement check_count check_policy check_stored_body check_maintenance
failed_statement = refl

run_statement_atomic_example :
    let s' =
      (run_statement ledger simple counting_statements ascii few false []
        (pos 7)
        1
        (codes "!")
        open_session).1 in
    (s'.conn.total ≡ 4)
    ⊎ (WorkerError.sqlite refusal ≡ restoration_failed)
    ⊎ (s'.conn.closed ≡ true)
    ⊎ (fails_late counting_statements ascii few
          (executed counting_statements ascii few [] (pos 7) 1 (codes "!") open_session)
        ≡ true)
run_statement_atomic_example =
    run_statement_atomic counting_statements ascii few ℕ (λ c. c.total) (λ c. c.saved) ledger_laws
      false [] (pos 7) 1 (codes "!") open_session (WorkerError.sqlite refusal) failed_statement

validate_single_iff_example :
    (validate_single ledger simple counting_statements ascii few (codes "a;b") open_session.conn
      ≡ none)
    ↔ (prepare_exact ascii (counting_statements.discover open_session.conn) (codes "a;b") ≡ ok tt)
validate_single_iff_example =
    validate_single_iff ledger simple counting_statements ascii few (codes "a;b") open_session.conn

abbrev two : Progress
two = begin_progress (record { source = codes "a;b"; offset = 0 }) (pos 7)

batch_loop_fuel_example :
    batch_loop ledger simple counting_statements ascii few 4 false [] two open_session
    ≡ batch_loop ledger simple counting_statements ascii few 9 false [] two open_session
batch_loop_fuel_example =
    batch_loop_fuel ledger simple counting_statements ascii few 4 9 false [] two open_session
      (omega arith) (omega arith)

-- A handle in a transaction on the counting engine.
abbrev handle : Handle
handle = record (new_handle 1 (codes "/data/a.db") false (codes "wal")) {
  schema_observed = true;
  schema_version = pos 7;
  transaction_id = some 9;
  transaction_mode = some immediate;
}

abbrev worker : Worker ledger
worker = record {
  session = open_session;
  expired = false;
  idle_deadline = 60000;
  idle_seconds = 60;
}

abbrev bookkeeping : TransactionSchemaState ledger
bookkeeping = record {
  pre_observed = true;
  pre_version = pos 7;
  pre_generation = 0;
  expected_version = pos 7;
  pending_schema_change = false;
  overlay = none;
}

abbrev counting_state : State ledger
counting_state = record {
  handles = (1, (handle, worker)) ∷ [];
  transaction_schema = (1, bookkeeping) ∷ [];
  identities = (40, 1) ∷ [];
  gates = (1, tt) ∷ [];
}

counting-gate : handle_gate counting_state 1 ≡ ok (handle, worker)
unfolding handle_gate get
counting-gate = refl

-- The answer to a statement that finds a number.
abbrev answer : ℕ → QueryResult
answer n = record {
  columns = codes "total" ∷ [];
  rows = (integer_cell (decimal n) ∷ []) ∷ [];
  rows_returned = 1;
  truncated = false;
  execution_complete = true;
  changes = 1;
}

batch_answers :
    (execute_batch_admitted ledger simple counting_statements ascii counting_state 1 few false
      (codes "a;b")
      []
      calm
      calm).0
    ≡ ok (answer 4 ∷ answer 5 ∷ [])
unfolding execute_batch_admitted handle_gate get run before_job serve after_job apply_policy
    reset_for_request clear_source idle_from batch_job run_batch batch_loop new_cursor execution_of
    run_statement guard_statement check_count check_policy check_stored_body check_maintenance
    execute_statement result_of collect cell settle_ok publish_query sql_of take drop next_range
    next_offset put_worker modify take_flags new_handle classify_source
batch_answers = refl

batch_success_example :
    let s' =
      (execute_batch_admitted ledger simple counting_statements ascii counting_state 1 few false
        (codes "a;b")
        []
        calm
        calm).1 in
    let left =
      (batch_job ledger simple counting_statements ascii few false
        (expected_of handle (get counting_state.transaction_schema 1))
        (codes "a;b")
        []
        (started worker)).1.conn in
    (handle.schema_observed ≡ true)
    × (handle.expired ≡ false)
    × (autocommit worker ≡ false)
    × IsAnswer counting_statements ascii few (answer 4 ∷ answer 5 ∷ [])
    × ((before after : ℤ) × (ledger.schema_version worker.session.conn ≡ ok before)
        × ((before ==ℤ expected_of handle (get counting_state.transaction_schema 1)) ≡ true)
        × (ledger.schema_version left ≡ ok after)
        × (ledger.is_autocommit left ≡ false)
        × ((w' : Worker ledger) × (get s'.handles 1 ≡ some (handle, w')))
        × Tracks counting_statements ascii few before after
            (get counting_state.transaction_schema 1)
            (get s'.transaction_schema 1))
batch_success_example =
    batch_success counting_statements ascii few counting_state 1 false (codes "a;b") [] calm calm
      handle worker (answer 4 ∷ answer 5 ∷ []) (omega arith) counting-gate batch_answers

-- The statement gives up the transaction.
aborts :
    (batch_reply counting_statements ascii few counting_state 1 handle worker false
      (codes "~")
      []
      calm).0
    ≡ err (aborted refusal.text)
unfolding get run before_job serve after_job apply_policy reset_for_request clear_source idle_from
    batch_job run_batch batch_loop new_cursor execution_of run_statement guard_statement check_count
    check_policy check_stored_body check_maintenance execute_statement settle_err sql_of take drop
    next_range next_offset take_flags new_handle classify_source
aborts = refl

abort_closes :
    autocommit
      (batch_reply counting_statements ascii few counting_state 1 handle worker false
        (codes "~")
        []
        calm).1
    ≡ true
unfolding get run before_job serve after_job apply_policy reset_for_request clear_source idle_from
    batch_job run_batch batch_loop new_cursor execution_of run_statement guard_statement check_count
    check_policy check_stored_body check_maintenance execute_statement settle_err sql_of take drop
    next_range next_offset take_flags new_handle classify_source
abort_closes = refl

no_expiry : says_expired (aborted refusal.text) ≡ false
unfolding says_expired to_string contains starts_with
no_expiry = refl

no_invalidation : says_invalidated (aborted refusal.text) ≡ false
unfolding says_invalidated to_string contains starts_with
no_invalidation = refl

abort_unsynced_example :
    is_synced ledger (
      get
        (execute_batch_admitted ledger simple counting_statements ascii counting_state 1 few false
          (codes "~")
          []
          calm
          calm).1.handles
        1)
    ≡ false
unfolding new_handle
abort_unsynced_example =
    abort_unsynced counting_statements ascii few counting_state 1 false (codes "~") [] calm calm
      handle worker refusal.text counting-gate refl refl aborts abort_closes no_expiry
      no_invalidation

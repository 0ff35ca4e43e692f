-- ===== src/Core/Query/Publish.antt =====
-- core/query.rs: `execute_batch_admitted`, and the entries `query`, `query_batch` and
-- `execute_sql_file`. The JSON object that carries the outcome of the job between the threads is the
-- record itself.
use sqlite_mcp.Prelude.{
  ℕ, Bool, true, false, not, ◌&&◌, ◌||◌, Option, none, some, List, if◌then◌else◌, Result, ok, err,
  ◌>>◌, fail_if,
}
use sqlite_mcp.Prelude.Text.{Text, codes, contains}
use sqlite_mcp.Prelude.Int.{ℤ, ◌==ℤ◌}
use sqlite_mcp.Prelude.Table.{get, modify, contains_key}
use sqlite_mcp.Sqlite.{Engine}
use sqlite_mcp.Sql.{Formats, Value}
use sqlite_mcp.Policy.Cursor.{Unicode}
use sqlite_mcp.Policy.Signal.{take_after_request, take_ddl_after_request}
use sqlite_mcp.Worker.Error.{WorkerError, message, to_string, interrupted}
use sqlite_mcp.Worker.State.{Worker, Job, Observed}
use sqlite_mcp.Worker.Run.{run}
use sqlite_mcp.Config.{Config}
use sqlite_mcp.Core.Error.{
  CoreError, says_expired, says_invalidated, says_stale, classify_worker_error,
}
use sqlite_mcp.Core.State.{
  Handle, TransactionSchemaState, State, clear_transaction, expire, handle_gate, put_worker,
  end_transaction, invalidate_handle,
}
use sqlite_mcp.Core.Query.Statement.{QueryResult, Statements, Limits}
use sqlite_mcp.Core.Query.Job.{BatchExecution, batch_job}

unfoldable pub says_aborted : WorkerError → Bool
unfolding to_string contains
says_aborted x = contains (to_string x) (codes "outer transaction aborted")

abbrev pub is_interruption : WorkerError → Bool
is_interruption (interrupted b o k) = true
is_interruption _ = false

-- An interruption that has left no transaction open.
abbrev pub is_ended : WorkerError → Bool
is_ended (interrupted b false k) = true
is_ended _ = false

-- Whether a failed batch may have changed the schema in a transaction that is still there.
unfoldable pub recovers_schema : Bool → WorkerError → Bool
unfolding says_expired says_invalidated says_aborted
recovers_schema ddl x =
    ddl
    && not (is_interruption x)
    && not (says_expired x)
    && not (says_invalidated x)
    && not (says_aborted x)

abbrev pub worker_message {ℓ} : {A : Type ℓ} → Text → Result A CoreError
worker_message text = err (CoreError.worker (message text))

-- The schema cookie that the transaction of a handle expects.
abbrev pub expected_of : {e : Engine} → Handle → Option (TransactionSchemaState e) → ℤ
expected_of h none = h.schema_version
expected_of h (some tx) = tx.expected_version

-- The checks on the handle.
abbrev pub check_query : Handle → Result (Unit {0}) CoreError
check_query h = do
  fail_if (not h.schema_observed) CoreError.schema_required
  fail_if h.expired CoreError.transaction_expired

module _ (e : Engine) where
  -- `take_after_request` and `take_ddl_after_request` on the worker: whether a change of the schema
  -- was attempted.
  unfoldable pub take_flags : Worker e → Bool × Worker e
  unfolding take_after_request take_ddl_after_request
  take_flags w =
      let (attempted, seen) = take_after_request w.session.signal in
      let (ddl, seen') = take_ddl_after_request seen in
      (ddl, record w { session = record w.session { signal = seen' } })

  -- A change of the schema inside the transaction.
  abbrev pub change_schema : ℤ → TransactionSchemaState e → TransactionSchemaState e
  change_schema version tx = record tx { expected_version = version; pending_schema_change = true }

  unfoldable pub note_schema : State e → ℕ → ℤ → State e
  note_schema s id version = record s {
    transaction_schema = modify s.transaction_schema id (change_schema version);
  }

  -- The probe of the cookie behind a failed batch; nothing under autocommit.
  unfoldable pub probe_job : Job e (Option ℤ)
  probe_job s = (
    (if e.is_autocommit s.conn then ok none else elim (e.schema_version s.conn) [
      | ok version ↦ ok (some version)
      | err x ↦ err (WorkerError.sqlite x)
    ]),
    s,
  )

  -- What a probe found is noted, if it is not the cookie that was expected.
  unfoldable pub note_probe : State e → ℕ → ℤ → Result (Option ℤ) WorkerError → State e
  unfolding note_schema
  note_probe s id expected (ok (some version)) =
      if version ==ℤ expected then s else note_schema s id version
  note_probe s id expected _ = s

  -- The recovery of the schema cookie, by a second run; `o` is what the worker reads in it.
  unfoldable pub recover_schema : State e → ℕ → ℤ → Worker e → Observed → State e
  unfolding probe_job note_probe take_flags put_worker
  recover_schema s id expected w o =
      let (probe, w') = run e w probe_job o in
      let (ddl, w'') = take_flags w' in note_probe (put_worker s id w'') id expected probe

  -- The registry and the error behind a batch that failed.
  unfoldable pub fail_query :
      {A : Type 0} → State e → ℕ → WorkerError → Result A CoreError × State e
  fail_query s id x =
      let ended = if is_ended x then end_transaction s id clear_transaction else s in
      if says_expired x
      then (err CoreError.transaction_expired, end_transaction ended id expire)
      else (
        (if says_stale x then err CoreError.schema_stale else err (classify_worker_error x true)),
        if says_invalidated x then invalidate_handle ended id else ended,
      )

  -- The registry and the answer behind a batch that has run.
  unfoldable pub publish_query :
      State e → ℕ → BatchExecution → Result (List QueryResult) CoreError × State e
  unfolding note_schema
  publish_query s id x =
      if x.cleanup_uncertain
      then (worker_message (codes "query cleanup state uncertain; handle invalidated"), s)
      else if not x.transaction_open || not x.transaction_continuable
      then (worker_message (codes "outer transaction aborted"), s)
      else if x.statement_succeeded && not (x.schema_after ==ℤ x.schema_before)
      then (if contains_key s.transaction_schema id
          then (ok x.results, note_schema s id x.schema_after)
          else (worker_message (codes "transaction schema state missing after query"), s))
      else (ok x.results, s)

  module _ (f : Formats) (q : Statements e f) (u : Unicode) where
    -- `execute_batch_admitted`: `o` is what the worker reads in the run, `o'` in that of the probe.
    unfoldable pub execute_batch_admitted :
        State e
        → ℕ
        → Limits
        → Bool
        → Text
        → List (Value f)
        → Observed
        → Observed
        → Result (List QueryResult) CoreError × State e
    unfolding batch_job take_flags recover_schema
    execute_batch_admitted s id l injected sql values o o' = elim (handle_gate s id) [
      | err x ↦ (err x, s)
      | ok (h, w) ↦ elim (check_query h) [
        | err x ↦ (err x, s)
        | ok _ ↦
            let expected = expected_of h (get s.transaction_schema id) in
            let (reply, w1) = run e w (batch_job e f q u l injected expected sql values) o in
            let (ddl, w2) = take_flags w1 in
            let s' = put_worker s id w2 in
            elim reply [
              | ok x ↦ publish_query s' id x
              | err x ↦
                  fail_query
                    (if recovers_schema ddl x then recover_schema s' id expected w2 o' else s') id x
            ]
      ]
    ]

    -- The limits of the configuration.
    abbrev pub limits : Config → Bool → Limits
    limits config single = record {
      row_limit = config.result_row_limit;
      result_byte_limit = config.result_byte_limit;
      column_limit = config.column_limit;
      statement_limit = config.batch_statement_limit;
      single_statement = single;
    }

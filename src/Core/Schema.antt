-- ===== src/Core/Schema.antt =====
-- core/schema_ops.rs: `get_schema`. What SQLite is asked about the schema, table by table, is one
-- operation of the engine.
use sqlite_mcp.Prelude.{
  ℕ, Bool, true, false, not, ◌||◌, none, some, ltb, if◌then◌else◌, is_some, Result, ok, err,
}
use sqlite_mcp.Prelude.Text.{codes}
use sqlite_mcp.Prelude.Int.{ℤ}
use sqlite_mcp.Prelude.Words.{saturating_add}
use sqlite_mcp.Prelude.Table.{remove, contains_key, modify}
use sqlite_mcp.Sqlite.{Engine, SqliteError, begin_deferred, commit, rollback}
use sqlite_mcp.Worker.Error.{WorkerError, message}
use sqlite_mcp.Worker.State.{Session, Job, Observed}
use sqlite_mcp.Worker.Run.{run}
use sqlite_mcp.Core.Error.{CoreError, says_invalidated, classify_worker_error, unknown_handle}
use sqlite_mcp.Core.State.{Handle, State, handle_gate, put_worker, put_handle, remove_value}
use sqlite_mcp.Core.Begin.{at_conn}

module _ (e : Engine) where
  -- The end of a managed read: its result, if the cleanup succeeds. `injected` is the cleanup fault.
  unfoldable pub end_managed :
      Bool → Result e.Schema WorkerError → Session e → Result e.Schema WorkerError × Session e
  end_managed injected result s =
      let failed = err (message (codes "managed schema cleanup failed; handle invalidated")) in
      let (r, c) = if injected then (some e.invalid_query, s.conn) else e.execute commit s.conn in
      let (r', c') =
        if injected then (some e.invalid_query, s.conn) else e.execute rollback s.conn in
      elim result [
        | ok value ↦ elim r [
          | none ↦ (ok value, at_conn e s c)
          | some x ↦ (failed, at_conn e s (e.execute rollback c).1)
        ]
        | err x ↦
            if is_some r' || not (e.is_autocommit c')
            then (failed, at_conn e s c')
            else (err x, at_conn e s c')
      ]

  abbrev pub sqlite_result : {A : Type 0} → Result A SqliteError → Result A WorkerError
  sqlite_result (ok a) = ok a
  sqlite_result (err x) = err (WorkerError.sqlite x)

  -- The job: under autocommit the read has a transaction of its own.
  unfoldable pub schema_job : Bool → Job e e.Schema
  schema_job injected s =
      let (r, c) = e.execute begin_deferred s.conn in
      if e.is_autocommit s.conn
      then elim r [
        | some x ↦ (err (WorkerError.sqlite x), at_conn e s c)
        | none ↦ end_managed injected (sqlite_result (e.read_schema c)) (at_conn e s c)
      ]
      else (sqlite_result (e.read_schema s.conn), s)

  -- The invalidation of `get_schema_admitted`, which leaves `transaction_schema` alone.
  unfoldable pub drop_handle : State e → ℕ → State e
  drop_handle s id = record s {
    identities = remove_value s.identities id;
    gates = remove s.gates id;
    handles = remove s.handles id;
  }

  abbrev pub observe : ℤ → Handle → Handle
  observe version h = record h {
    schema_observed = true;
    schema_version = version;
    observation_generation = saturating_add h.observation_generation 1;
    expired = false;
  }

  unfoldable pub publish_schema : State e → ℕ → e.Schema → Result e.Schema CoreError × State e
  publish_schema s id schema =
      if contains_key s.transaction_schema id
      then (
        ok schema,
        record s {
          transaction_schema =
              modify s.transaction_schema id (λ tx. record tx { overlay = some schema });
        },
      )
      else if contains_key s.handles id
      then (ok schema, put_handle s id (observe (e.cookie schema)))
      else (err unknown_handle, s)

  -- `get_schema_admitted`, under the configured size of a schema.
  unfoldable pub get_schema_admitted :
      State e → ℕ → ℕ → Bool → Observed → Result e.Schema CoreError × State e
  get_schema_admitted s id schema_byte_limit injected o = elim (handle_gate s id) [
    | err x ↦ (err x, s)
    | ok (h, w) ↦
        let (reply, w') = run e w (schema_job injected) o in
        let s' = put_worker s id w' in
        elim reply [
          | err x ↦ (
            err (classify_worker_error x (is_some h.transaction_id)),
            if says_invalidated x then drop_handle s' id else s',
          )
          | ok schema ↦
              if ltb schema_byte_limit (e.json_bytes schema)
              then (err CoreError.schema_too_large, s')
              else publish_schema s' id schema
        ]
  ]

-- ===== src/Core/Query/Consistent.antt =====
-- core/query.rs: queries and batches, whatever becomes of them, keep the registry consistent.
use sqlite_mcp.Prelude.Table.{get}
use sqlite_mcp.Core.Registry.{put_worker-IsConsistent, invalidate_handle-IsConsistent}
use sqlite_mcp.Prelude.Text.{Text}
use sqlite_mcp.Worker.Run.{run}
use sqlite_mcp.Config.{Config}
use sqlite_mcp.Core.Publish.{cleared-IsConsistent, expired-IsConsistent, modify-IsConsistent}
use sqlite_mcp.Policy.Cursor.{Unicode}
use sqlite_mcp.Worker.State.{Worker, Observed}
use sqlite_mcp.Core.Registry.{IsConsistent}
use sqlite_mcp.Core.Query.Statement.{Statements, Limits, QueryResult}
use sqlite_mcp.Core.Query.Job.{BatchExecution, batch_job}
use sqlite_mcp.Worker.Error.{WorkerError}
use sqlite_mcp.Prelude.Int.{ℤ}
use sqlite_mcp.Sql.{Formats, Value, Cell}
use sqlite_mcp.Core.State.{State, put_worker, end_transaction, clear_transaction, handle_gate}
use sqlite_mcp.Sqlite.{Engine}
use sqlite_mcp.Core.Query.Publish.{
  note_schema, note_probe, recover_schema, probe_job, take_flags, fail_query, publish_query,
  execute_batch_admitted, expected_of, check_query, limits, change_schema,
}
use sqlite_mcp.Core.Query.Calls.{
  check_text, validate_batch_sql, load_sql, query, query_batch, execute_sql_file, SqlFile,
}
use sqlite_mcp.Prelude.{
  ℕ, inl, inr, Bool, true, false, Option, none, some, List, [], arith, Result-cases, Result, ok,
  err,
}

module _ {e : Engine} {limit : ℕ} where
  note_probe-IsConsistent :
      (s : State e) (id : ℕ) (expected : ℤ) (probe : Result (Option ℤ) WorkerError)
      → IsConsistent limit s
      → IsConsistent limit (note_probe e s id expected probe)
  unfolding note_probe note_schema
  note_probe-IsConsistent s id expected (ok (some version)) c =
      ground (arith, c, modify-IsConsistent s id (change_schema e version) c)
  note_probe-IsConsistent s id expected (ok none) c = c
  note_probe-IsConsistent s id expected (err x) c = c

  recover_schema-IsConsistent :
      (s : State e) (id : ℕ) (expected : ℤ) (w : Worker e) (o : Observed)
      → IsConsistent limit s
      → IsConsistent limit (recover_schema e s id expected w o)
  unfolding recover_schema
  recover_schema-IsConsistent s id expected w o c =
      let (probe, w') = run e w (probe_job e) o in
      let (ddl, w'') = take_flags e w' in
      note_probe-IsConsistent (put_worker s id w'') id expected probe
        (put_worker-IsConsistent s id w'' c)

  fail_query-IsConsistent :
      (A : Type 0) (s : State e) (id : ℕ) (x : WorkerError)
      → IsConsistent limit s
      → IsConsistent limit (fail_query e {A = A} s id x).1
  unfolding fail_query
  fail_query-IsConsistent A s id x c =
      let cleared = cleared-IsConsistent s id c in
      ground (
        arith,
        c,
        cleared,
        expired-IsConsistent s id c,
        expired-IsConsistent (end_transaction s id clear_transaction) id cleared,
        invalidate_handle-IsConsistent s id c,
        invalidate_handle-IsConsistent (end_transaction s id clear_transaction) id cleared,
      )

  publish_query-IsConsistent :
      (s : State e) (id : ℕ) (x : BatchExecution)
      → IsConsistent limit s
      → IsConsistent limit (publish_query e s id x).1
  unfolding publish_query note_schema
  publish_query-IsConsistent s id x c =
      ground (arith, c, modify-IsConsistent s id (change_schema e x.schema_after) c)

module _ {e : Engine} {limit : ℕ} (f : Formats) (q : Statements e f) (u : Unicode) where
  pub execute_batch-IsConsistent :
      (s : State e) (id : ℕ) (l : Limits) (injected : Bool) (sql : Text) (values : List (Value f))
      (o o' : Observed)
      → IsConsistent limit s
      → IsConsistent limit (execute_batch_admitted e f q u s id l injected sql values o o').1
  unfolding execute_batch_admitted
  execute_batch-IsConsistent s id l injected sql values o o' c =
      elim (Result-cases (handle_gate s id)) [
        | inr (x, p) ↦ ground (arith, c, p)
        | inl ((h, w), p) ↦ elim (Result-cases (check_query h)) [
          | inr (x, p') ↦ ground (arith, c, p, p')
          | inl (passed, p') ↦
              let expected = expected_of h (get s.transaction_schema id) in
              let (reply, w1) = run e w (batch_job e f q u l injected expected sql values) o in
              let (ddl, w2) = take_flags e w1 in
              let s' = put_worker s id w2 in
              let served = put_worker-IsConsistent s id w2 c in
              elim (Result-cases reply) [
                | inl (x, r) ↦ ground (arith, p, p', r, publish_query-IsConsistent s' id x served)
                | inr (x, r) ↦ ground (
                  arith,
                  p,
                  p',
                  r,
                  fail_query-IsConsistent (List QueryResult) s' id x served,
                  fail_query-IsConsistent (List QueryResult) (recover_schema e s' id expected w2 o')
                      id x (recover_schema-IsConsistent s' id expected w2 o' served),
                )
              ]
        ]
      ]

  module _ (config : Config) where
    pub query-IsConsistent :
        (s : State e) (id : ℕ) (injected : Bool) (sql : Text) (params : List Cell) (o o' : Observed)
        → IsConsistent limit s
        → IsConsistent limit (query e f q u config s id injected sql params o o').1
    unfolding query
    query-IsConsistent s id injected sql params o o' c =
        elim (Result-cases (check_text f config sql params)) [
          | inr (x, p) ↦ ground (arith, c, p)
          | inl (values, p) ↦ ground (
            arith,
            p,
            execute_batch-IsConsistent s id (limits e f q u config true) injected sql values o o' c,
          )
        ]

    pub query_batch-IsConsistent :
        (s : State e) (id : ℕ) (injected : Bool) (sql : Text) (o o' : Observed)
        → IsConsistent limit s
        → IsConsistent limit (query_batch e f q u config s id injected sql o o').1
    unfolding query_batch
    query_batch-IsConsistent s id injected sql o o' c =
        elim (Result-cases (validate_batch_sql config sql)) [
          | inr (x, p) ↦ ground (arith, c, p)
          | inl (passed, p) ↦ ground (
            arith,
            p,
            execute_batch-IsConsistent s id (limits e f q u config false) injected sql [] o o' c,
          )
        ]

    pub execute_sql_file-IsConsistent :
        (s : State e) (id : ℕ) (injected : Bool) (file : SqlFile) (o o' : Observed)
        → IsConsistent limit s
        → IsConsistent limit (execute_sql_file e f q u config s id injected file o o').1
    unfolding execute_sql_file
    execute_sql_file-IsConsistent s id injected file o o' c =
        elim (Result-cases (load_sql f config file)) [
          | inr (x, p) ↦ ground (arith, c, p)
          | inl ((path, sql), p) ↦ ground (
            arith,
            p,
            execute_batch-IsConsistent s id (limits e f q u config false) injected sql [] o o' c,
          )
        ]

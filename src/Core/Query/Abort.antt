-- ===== src/Core/Query/Abort.antt =====
-- core/query.rs: a batch behind which SQLite has given up the transaction.
use sqlite_mcp.Core.Registry.{handle_gate_lem}
use sqlite_mcp.Core.Entry.{get-put_worker}
use sqlite_mcp.Core.Query.Job.{batch_job}
use sqlite_mcp.Worker.Run.{run}
use sqlite_mcp.Prelude.Table.{get}
use sqlite_mcp.Core.Synced.{is_synced}
use sqlite_mcp.Core.Query.Effect.{batch_reply}
use sqlite_mcp.Worker.State.{Observed, Worker, autocommit}
use sqlite_mcp.Prelude.Text.{Text, contains-append, codes}
use sqlite_mcp.Core.Error.{says_expired, says_invalidated}
use sqlite_mcp.Worker.Error.{WorkerError, to_string}
use sqlite_mcp.Core.State.{State, Handle, handle_gate, put_worker}
use sqlite_mcp.Core.Query.Publish.{
  fail_query, recovers_schema, execute_batch_admitted, says_aborted, is_ended, check_query,
  expected_of, take_flags,
}
use sqlite_mcp.Policy.Cursor.{Unicode}
use sqlite_mcp.Core.Query.Statement.{Statements, Limits, aborted, QueryResult}
use sqlite_mcp.Sql.{Formats, Value}
use sqlite_mcp.Sqlite.{Engine}
use sqlite_mcp.Prelude.{ℕ, ◌≡◌, refl, Bool, true, false, List, [], ◌++◌, arith, is_some, ok, err}

module _ {e : Engine} {f : Formats} (q : Statements e f) (u : Unicode) (l : Limits) where
  -- A failed batch that is neither an expiry, an invalidation nor an interruption that ended the
  -- transaction leaves the handle as it was.
  fail_query_keeps :
      (A : Type 0) (s : State e) (id : ℕ) (x : WorkerError)
      → says_expired x ≡ false
      → says_invalidated x ≡ false
      → is_ended x ≡ false
      → (fail_query e {A = A} s id x).1 ≡ s
  unfolding fail_query
  fail_query_keeps A s id x p p' p'' = ground (arith, p, p', p'')

  aborted_not_recovered :
      (ddl : Bool) (x : WorkerError) → says_aborted x ≡ true → recovers_schema ddl x ≡ false
  unfolding recovers_schema
  aborted_not_recovered ddl x p = ground (arith, p)

  aborted_says : (text : Text) → says_aborted (aborted text) ≡ true
  unfolding says_aborted to_string
  aborted_says text = contains-append [] (codes "outer transaction aborted") (codes ": " ++ text)

  -- If a batch fails because SQLite has aborted the outer transaction, the text of the error saying
  -- neither that it expired nor that the handle is invalid, then the registry still has the handle
  -- with its transaction, although the connection has none: the two no longer agree.
  pub abort_unsynced :
      (s : State e) (id : ℕ) (injected : Bool) (sql : Text) (values : List (Value f))
      (o o' : Observed) (h : Handle) (w : Worker e) (text : Text)
      → handle_gate s id ≡ ok (h, w)
      → check_query h ≡ ok tt
      → is_some h.transaction_id ≡ true
      → (batch_reply q u l s id h w injected sql values o).0 ≡ err (aborted text)
      → autocommit (batch_reply q u l s id h w injected sql values o).1 ≡ true
      → says_expired (aborted text) ≡ false
      → says_invalidated (aborted text) ≡ false
      → is_synced e
          (get (execute_batch_admitted e f q u s id l injected sql values o o').1.handles id)
        ≡ false
  unfolding execute_batch_admitted
  abort_unsynced s id injected sql values o o' h w text there passed in_transaction replied ended p
        p' =
      let w' = (batch_reply q u l s id h w injected sql values o).1 in
      let expected = expected_of h (get s.transaction_schema id) in
      let (reply, w1) = run e w (batch_job e f q u l injected expected sql values) o in
      let kept =
        fail_query_keeps (List QueryResult) (put_worker s id w') id (aborted text) p p' refl in
      ground (
        arith,
        there,
        passed,
        in_transaction,
        replied,
        ended,
        kept,
        aborted_not_recovered (take_flags e w1).0 (aborted text) (aborted_says text),
        get-put_worker e s id h w w' (handle_gate_lem s id h w there),
      )

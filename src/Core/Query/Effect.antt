-- ===== src/Core/Query/Effect.antt =====
-- core/query.rs: what a query or a batch that succeeds does to the registry.
use sqlite_mcp.Core.Registry.{handle_gate_lem}
use sqlite_mcp.Core.Entry.{get-put_worker}
use sqlite_mcp.Worker.Interrupt.{started}
use sqlite_mcp.Core.Lifecycle.{run_ok}
use sqlite_mcp.Prelude.{Option, none, Bool-cases}
use sqlite_mcp.Core.Query.Success.{IsAnswer, batch_job_cookie, batch_job_answers}
use sqlite_mcp.Prelude.Words.{u64_max}
use sqlite_mcp.Core.Query.Bounds.{statement_bound}
use sqlite_mcp.Prelude.Int.{◌==ℤ◌, ℤ}
use sqlite_mcp.Worker.Run.{run}
use sqlite_mcp.Worker.State.{Worker, Observed, autocommit, Session}
use sqlite_mcp.Prelude.Table.{get, map_some, get-modify}
use sqlite_mcp.Policy.Cursor.{Unicode}
use sqlite_mcp.Worker.Error.{WorkerError}
use sqlite_mcp.Core.Query.Statement.{Statements, QueryResult, Limits}
use sqlite_mcp.Core.State.{State, TransactionSchemaState, Handle, handle_gate, put_worker}
use sqlite_mcp.Sql.{Formats, Value}
use sqlite_mcp.Core.Query.Job.{BatchExecution, batch_job, run_batch, execution_of}
use sqlite_mcp.Core.Query.Publish.{
  fail_query, publish_query, note_schema, execute_batch_admitted, change_schema, expected_of,
  check_query, take_flags, recover_schema,
}
use sqlite_mcp.Sqlite.{Engine}
use sqlite_mcp.Prelude.Text.{Text}
use sqlite_mcp.Prelude.{
  ℕ, ◌<◌, ◌≡◌, refl, sym, ap, ◌∙◌, ◌≢◌, inl, inr, Bool, true, false, some, List, arith,
  if◌then◌else◌, ==_iff, Option-cases, Result-cases, Result, ok, subst,
}

module _ (e : Engine) where
  fail_query_err :
      (A : Type 0) (s : State e) (id : ℕ) (x : WorkerError) (a : A)
      → (fail_query e {A = A} s id x).0 ≢ ok a
  unfolding fail_query
  fail_query_err A s id x a p = ground (arith, p)

  -- The bookkeeping of a transaction behind a batch that ends with a schema cookie.
  abbrev pub followed : BatchExecution → TransactionSchemaState e → TransactionSchemaState e
  followed x tx =
      if x.schema_after ==ℤ x.schema_before then tx else change_schema e x.schema_after tx

  publish_query_ok :
      (s : State e) (id : ℕ) (x : BatchExecution) (results : List QueryResult)
      → x.statement_succeeded ≡ true
      → (publish_query e s id x).0 ≡ ok results
      → (results ≡ x.results)
        × (x.transaction_open ≡ true)
        × ((publish_query e s id x).1.handles ≡ s.handles)
        × (get (publish_query e s id x).1.transaction_schema id
            ≡ map_some (followed x) (get s.transaction_schema id))
  unfolding publish_query note_schema
  publish_query_ok s id x results succeeded done = ground (
    arith,
    done,
    succeeded,
    Option-cases (get s.transaction_schema id),
    get-modify s.transaction_schema id id (change_schema e x.schema_after),
    ==_iff id id,
  )

module _ {e : Engine} {f : Formats} (q : Statements e f) (u : Unicode) (l : Limits) where
  -- The reply of the worker to a batch, and the worker behind it, its flags read.
  abbrev pub batch_reply :
      State e
      → ℕ
      → Handle
      → Worker e
      → Bool
      → Text
      → List (Value f)
      → Observed
      → Result BatchExecution WorkerError × Worker e
  batch_reply s id h w injected sql values o =
      let expected = expected_of h (get s.transaction_schema id) in
      let (reply, w') = run e w (batch_job e f q u l injected expected sql values) o in
      (reply, (take_flags e w').1)

  batch_inversion :
      (s : State e) (id : ℕ) (injected : Bool) (sql : Text) (values : List (Value f))
      (o o' : Observed) (h : Handle) (w : Worker e) (results : List QueryResult)
      → handle_gate s id ≡ ok (h, w)
      → (execute_batch_admitted e f q u s id l injected sql values o o').0 ≡ ok results
      → (h.schema_observed ≡ true)
        × (h.expired ≡ false)
        × ((x : BatchExecution) × ((batch_reply s id h w injected sql values o).0 ≡ ok x)
            × (execute_batch_admitted e f q u s id l injected sql values o o'
                ≡ publish_query e
                    (put_worker s id (batch_reply s id h w injected sql values o).1)
                    id
                    x))
  unfolding execute_batch_admitted
  batch_inversion s id injected sql values o o' h w results there done =
      let (reply, w') = batch_reply s id h w injected sql values o in
      let expected = expected_of h (get s.transaction_schema id) in
      elim (Result-cases (check_query h)) [
        | inr (x, p) ↦ ground (arith, there, done, p)
        | inl (passed, p) ↦ elim (Result-cases reply) [
          | inl (x, r) ↦ (ground (arith, p), ground (arith, p), (x, r, ground (arith, there, p, r)))
          | inr (x, r) ↦ ground (
            arith,
            there,
            done,
            p,
            r,
            fail_query_err e (List QueryResult) (put_worker s id w') id x results,
            fail_query_err e (List QueryResult)
                (recover_schema e (put_worker s id w') id expected w' o') id x results,
          )
        ]
      ]

  batch_job_succeeded :
      (injected : Bool) (expected : ℤ) (sql : Text) (values : List (Value f)) (s : Session e)
      (x : BatchExecution)
      → (batch_job e f q u l injected expected sql values s).0 ≡ ok x
      → x.statement_succeeded ≡ true
  unfolding batch_job run_batch execution_of
  batch_job_succeeded injected expected sql values s x done = ground (arith, done)

  get-transaction_schema :
      (s : State e) (id : ℕ) (w : Worker e)
      → (put_worker s id w).transaction_schema ≡ s.transaction_schema
  unfolding put_worker
  get-transaction_schema s id w = refl

  -- The bookkeeping of a transaction behind a batch: its flag and its expected cookie follow a schema
  -- cookie that has changed; the kept observation and the overlay stay.
  unfoldable pub Tracks :
      ℤ → ℤ → Option (TransactionSchemaState e) → Option (TransactionSchemaState e) → Type 0
  Tracks before after none now = now ≡ none
  Tracks before after (some tx) now =
      if after ==ℤ before
      then now ≡ some tx
      else now ≡ some (record tx { expected_version = after; pending_schema_change = true })

  followed-Tracks :
      (x : BatchExecution) (tx now : Option (TransactionSchemaState e))
      → now ≡ map_some (followed e x) tx
      → Tracks x.schema_before x.schema_after tx now
  unfolding Tracks
  followed-Tracks x none now h = h
  followed-Tracks x (some tx) now h = elim (Bool-cases (x.schema_after ==ℤ x.schema_before)) [
    | inl b ↦ rw b (h ∙ ap (λ v. some (if v then tx else change_schema e x.schema_after tx)) b)
    | inr b ↦ rw b (h ∙ ap (λ v. some (if v then tx else change_schema e x.schema_after tx)) b)
  ]

  -- A query or a batch that succeeds was admitted on a handle that has observed the schema and has not
  -- expired, inside an open transaction, on a connection with the schema cookie that the transaction
  -- expects. It has at least one result and no more than the limit of statements, each within the
  -- limits on columns, rows and bytes. The connection that its job leaves has a transaction open and
  -- the schema cookie `after`. The handle is as it was, and the bookkeeping of its transaction follows
  -- the cookie: it is unchanged if `after` is the cookie before the batch, and otherwise expects
  -- `after` and marks the change.
  pub batch_success :
      (s : State e) (id : ℕ) (injected : Bool) (sql : Text) (values : List (Value f))
      (o o' : Observed) (h : Handle) (w : Worker e) (results : List QueryResult)
      → statement_bound q u l < u64_max
      → handle_gate s id ≡ ok (h, w)
      → let (r, s') = execute_batch_admitted e f q u s id l injected sql values o o' in
        let expected = expected_of h (get s.transaction_schema id) in
        let left = (batch_job e f q u l injected expected sql values (started w)).1.conn in
        r ≡ ok results
        → (h.schema_observed ≡ true)
          × (h.expired ≡ false)
          × (autocommit w ≡ false)
          × IsAnswer q u l results
          × ((before after : ℤ) × (e.schema_version w.session.conn ≡ ok before)
              × ((before ==ℤ expected) ≡ true)
              × (e.schema_version left ≡ ok after)
              × (e.is_autocommit left ≡ false)
              × ((w' : Worker e) × (get s'.handles id ≡ some (h, w')))
              × Tracks before after (get s.transaction_schema id) (get s'.transaction_schema id))
  batch_success s id injected sql values o o' h w results room there done =
      let (seen, live, (x, r, published)) =
        batch_inversion s id injected sql values o o' h w results there done in
      let w' = (batch_reply s id h w injected sql values o).1 in
      let expected = expected_of h (get s.transaction_schema id) in
      let job_done = run_ok e w (batch_job e f q u l injected expected sql values) o x r in
      let (answer, open', version, current) =
        batch_job_answers q u l injected expected sql values (started w) x room job_done in
      let (cookie, exact) =
        batch_job_cookie q u l injected expected sql values (started w) x job_done in
      let (same_results, is_open, kept, tracked) =
        publish_query_ok e (put_worker s id w') id x results
          (batch_job_succeeded injected expected sql values (started w) x job_done)
          (ap (λ t. t.0) (sym published) ∙ done) in
      let entry = get-put_worker e s id h w w' (handle_gate_lem s id h w there) in
      (
        seen,
        live,
        open',
        subst (IsAnswer q u l) (sym same_results) answer,
        (
          x.schema_before,
          x.schema_after,
          version,
          current,
          cookie,
          ground (arith, is_open, exact),
          (w', rw published (ap (λ t. get t id) kept ∙ entry)),
          followed-Tracks x (get s.transaction_schema id) _ (
              rw published (
                tracked
                ∙ ap (λ t. map_some (followed e x) (get t id)) (get-transaction_schema s id w'))),
        ),
      )

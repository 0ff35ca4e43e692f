-- ===== src/Core/Undo.antt =====
-- core.rs and worker.rs: a rollback undoes what a begin has published.
use sqlite_mcp.Prelude.{
  ℕ, ◌≡◌, sym, ap, ◌∙◌, ◌≢◌, inl, inr, Bool, true, false, none, some, arith, ==_iff, Option-cases,
  Result-cases, Result, ok, Option,
}
use sqlite_mcp.Prelude.Int.{ℤ}
use sqlite_mcp.Prelude.Table.{get, contains_key}
use sqlite_mcp.Sqlite.{Engine}
use sqlite_mcp.Operation.{TransactionMode}
use sqlite_mcp.Worker.Error.{WorkerError}
use sqlite_mcp.Worker.State.{Session, Worker, Job, Observed}
use sqlite_mcp.Worker.Control.{run_control}
use sqlite_mcp.Core.State.{
  Handle, State, restore, clear_transaction, handle_gate, put_worker, put_handle, end_transaction,
  TransactionSchemaState,
}
use sqlite_mcp.Prelude.Table.{get-modify, get-remove, get-insert}
use sqlite_mcp.Core.Begin.{
  fresh_transaction, handle_of, publish_begin, check_begin, is_immediate, begin_admitted,
}
use sqlite_mcp.Core.Rollback.{rollback_job, fail_rollback, rollback_admitted}
use sqlite_mcp.Core.Registry.{handle_gate_lem}
use sqlite_mcp.Worker.State.{autocommit}
use sqlite_mcp.Core.Entry.{get-end_transaction, get-put_worker}
use sqlite_mcp.Core.Lifecycle.{begin_inversion, begin_reply, check_begin_ok}

module _ (e : Engine) where
  rollback_job_ok :
      (injected : Bool) (s : Session e)
      → (rollback_job e injected s).0 ≡ ok tt
      → e.is_autocommit (rollback_job e injected s).1.conn ≡ true
  unfolding rollback_job
  rollback_job_ok injected s h = ground (arith, h)

  -- A control that succeeds has run its job on the session of the worker.
  run_control_ok :
      {A : Type 0} (w : Worker e) (job : Job e A) (fault : Bool) (now now_after : ℕ) (a : A)
      → (run_control e w job fault now now_after).0 ≡ ok a
      → ((job w.session).0 ≡ ok a)
        × ((run_control e w job fault now now_after).1.session ≡ (job w.session).1)
  unfolding run_control
  run_control_ok w job fault now now_after a h = ground (arith, h)

  -- The answer of the worker to a rollback.
  abbrev rollback_reply : Worker e → Bool → Bool → ℕ → ℕ → Result (Unit {0}) WorkerError × Worker e
  rollback_reply w injected fault now now_after =
      run_control e w (rollback_job e injected) fault now now_after

  fail_rollback_err :
      (s : State e) (id : ℕ) (x : WorkerError) (h : Handle) → (fail_rollback e s id x).0 ≢ ok h
  unfolding fail_rollback
  fail_rollback_err s id x h p = ground (arith, p)

  rollback_inversion :
      (s : State e) (id : ℕ) (injected fault : Bool) (now now_after : ℕ) (h h' : Handle)
      (w : Worker e)
      → handle_gate s id ≡ ok (h, w)
      → (rollback_admitted e s id injected fault now now_after).0 ≡ ok h'
      → let (reply, w') = rollback_reply w injected fault now now_after in
        (reply ≡ ok tt)
        × ((rollback_admitted e s id injected fault now now_after).1
            ≡ end_transaction (put_worker s id w') id clear_transaction)
        × (handle_of e (end_transaction (put_worker s id w') id clear_transaction) id ≡ ok h')
  unfolding rollback_admitted
  rollback_inversion s id injected fault now now_after h h' w there done =
      let (reply, w') = rollback_reply w injected fault now now_after in
      elim (Result-cases reply) [
        | inl (passed, r) ↦ ground (arith, there, done, r)
        | inr (x, r) ↦
            ground (arith, there, done, r, fail_rollback_err (put_worker s id w') id x h')
      ]

  handle_of_lem :
      (s : State e) (id : ℕ) (h h' : Handle) (w : Worker e)
      → get s.handles id ≡ some (h, w)
      → handle_of e s id ≡ ok h'
      → h' ≡ h
  unfolding handle_of
  handle_of_lem s id h h' w there done = ground (arith, there, done)

  ended :
      (s : State e) (id : ℕ) (w' : Worker e) (h : Handle) (w : Worker e)
      → get s.handles id ≡ some (h, w)
      → (get (end_transaction (put_worker s id w') id clear_transaction).handles id
          ≡ some (clear_transaction (restore (get s.transaction_schema id) h), w'))
        × (contains_key
              (end_transaction (put_worker s id w') id clear_transaction).transaction_schema
              id
            ≡ false)
  unfolding put_worker contains_key end_transaction
  ended s id w' h w there = ground (
    arith,
    get-end_transaction e (put_worker s id w') id clear_transaction h w'
        (get-put_worker e s id h w w' there),
    get-remove s.transaction_schema id id,
    ==_iff id id,
  )

  rollback_restores :
      (s : State e) (id : ℕ) (injected fault : Bool) (now now_after : ℕ) (h h' : Handle)
      (w : Worker e)
      → handle_gate s id ≡ ok (h, w)
      → (rollback_admitted e s id injected fault now now_after).0 ≡ ok h'
      → (h' ≡ clear_transaction (restore (get s.transaction_schema id) h))
        × ((w' : Worker e) × (get
                (rollback_admitted e s id injected fault now now_after).1.handles
                id
              ≡ some (h', w'))
            × (autocommit w' ≡ true))
        × (contains_key
              (rollback_admitted e s id injected fault now now_after).1.transaction_schema
              id
            ≡ false)
  rollback_restores s id injected fault now now_after h h' w there done =
      let (reply, w') = rollback_reply w injected fault now now_after in
      let (replied, published, answered) =
        rollback_inversion s id injected fault now now_after h h' w there done in
      let (entry, forgotten) = ended s id w' h w (handle_gate_lem s id h w there) in
      let same_handle =
        handle_of_lem (end_transaction (put_worker s id w') id clear_transaction) id
          (clear_transaction (restore (get s.transaction_schema id) h)) h' w' entry answered in
      let (job_done, session) =
        run_control_ok w (rollback_job e injected) fault now now_after tt replied in
      (
        same_handle,
        (
          w',
          rw (published, same_handle) entry,
          ap (λ t. e.is_autocommit t.conn) session ∙ rollback_job_ok injected w.session job_done,
        ),
        rw published forgotten,
      )

  -- The handle behind a rollback: it has no transaction, and its observation of the schema is the one
  -- that the bookkeeping of the transaction has kept.
  unfoldable pub AfterRollback : Option (TransactionSchemaState e) → Handle → Handle → Type 0
  AfterRollback none h h' = h' ≡ record h { transaction_id = none; transaction_mode = none }
  AfterRollback (some tx) h h' = h' ≡ record h {
    transaction_id = none;
    transaction_mode = none;
    schema_observed = tx.pre_observed;
    schema_version = tx.pre_version;
    observation_generation = tx.pre_generation;
  }

  restore-AfterRollback :
      (tx : Option (TransactionSchemaState e)) (h h' : Handle)
      → h' ≡ clear_transaction (restore tx h)
      → AfterRollback tx h h'
  unfolding AfterRollback restore
  restore-AfterRollback none h h' p = p
  restore-AfterRollback (some tx) h h' p = p

  -- A rollback that succeeds leaves no transaction open in SQLite and no bookkeeping of one; the
  -- handle has no transaction, and its observation of the schema, whether there is one, of which
  -- version and of which generation, is the one that was kept when the transaction began.
  pub rollback_success :
      (s : State e) (id : ℕ) (injected fault : Bool) (now now_after : ℕ) (h h' : Handle)
      (w : Worker e)
      → handle_gate s id ≡ ok (h, w)
      → (rollback_admitted e s id injected fault now now_after).0 ≡ ok h'
      → AfterRollback (get s.transaction_schema id) h h'
        × ((w' : Worker e) × (get
                (rollback_admitted e s id injected fault now now_after).1.handles
                id
              ≡ some (h', w'))
            × (autocommit w' ≡ true))
        × (contains_key
              (rollback_admitted e s id injected fault now now_after).1.transaction_schema
              id
            ≡ false)
  rollback_success s id injected fault now now_after h h' w there done =
      let (restored, closed, forgotten) =
        rollback_restores s id injected fault now now_after h h' w there done in
      (restore-AfterRollback (get s.transaction_schema id) h h' restored, closed, forgotten)

  -- What a begin publishes for the handle.
  published :
      (s : State e) (id : ℕ) (h : Handle) (w : Worker e) (live : ℤ) (mode : TransactionMode)
      (fresh : ℕ)
      → handle_gate s id ≡ ok (h, w)
      → let (reply, s') = publish_begin e s id h live mode fresh in
        let h' : Handle = record h { transaction_id = some fresh; transaction_mode = some mode } in
        (handle_gate s' id ≡ ok (h', w))
        × (get s'.transaction_schema id ≡ some (fresh_transaction e h live))
        × (reply ≡ ok h')
  unfolding handle_gate publish_begin put_handle handle_of
  published s id h w live mode fresh there = ground (
    arith,
    there,
    handle_gate_lem s id h w there,
    Option-cases (get s.gates id),
    get-insert s.transaction_schema id id (fresh_transaction e h live),
    get-modify s.handles id id (λ entry.
        (record entry.0 { transaction_id = some fresh; transaction_mode = some mode }, entry.1)),
    ==_iff id id,
  )

  handle_gate-put_worker :
      (s : State e) (id : ℕ) (h : Handle) (w w' : Worker e)
      → handle_gate s id ≡ ok (h, w)
      → handle_gate (put_worker s id w') id ≡ ok (h, w')
  unfolding handle_gate put_worker
  handle_gate-put_worker s id h w w' there = ground (
    arith,
    there,
    handle_gate_lem s id h w there,
    Option-cases (get s.gates id),
    get-modify s.handles id id (λ entry. (entry.0, w')),
    ==_iff id id,
  )

  clear_transaction-idle :
      (h : Handle) → h.transaction_id ≡ none → h.transaction_mode ≡ none → clear_transaction h ≡ h
  clear_transaction-idle h p q = ground (arith, p, q)

  -- A begin and then a rollback, both of which succeed, of a handle that has no transaction mode give
  -- back the handle as it was before the begin, its observation of the schema included.
  pub begin_rollback :
      (s : State e) (id : ℕ) (mode : TransactionMode) (fresh : ℕ) (o : Observed)
      (injected fault : Bool) (now now_after : ℕ) (h h' h'' : Handle) (w : Worker e)
      → handle_gate s id ≡ ok (h, w)
      → h.transaction_mode ≡ none
      → (begin_admitted e s id mode fresh o).0 ≡ ok h'
      → (rollback_admitted e
          (begin_admitted e s id mode fresh o).1
          id
          injected
          fault
          now
          now_after).0
        ≡ ok h''
      → h'' ≡ h
  unfolding restore fresh_transaction check_begin
  begin_rollback s id mode fresh o injected fault now now_after h h' h'' w there idle began undone =
      let (q, (live, r, t)) = begin_inversion e s id mode fresh o h h' w there began in
      let w' = (begin_reply e w h mode o).1 in
      let (gate, tracked, reply) =
        published (put_worker s id w') id h w' live mode fresh
          (handle_gate-put_worker s id h w w' there) in
      let g : Handle = record h { transaction_id = some fresh; transaction_mode = some mode } in
      let s' = (publish_begin e (put_worker s id w') id h live mode fresh).1 in
      let undone' : (rollback_admitted e s' id injected fault now now_after).0 ≡ ok h'' =
        rw (sym t) undone in
      let (back, _, _) =
        rollback_restores s' id injected fault now now_after g h'' w' gate undone' in
      let restored : h'' ≡ clear_transaction h =
        back ∙ ap (λ tx. clear_transaction (restore tx g)) tracked in
      restored ∙ clear_transaction-idle h (check_begin_ok e h (is_immediate mode) q).1 idle

-- ===== src/Core/Synced.antt =====
-- core.rs and worker.rs: what a commit leaves in the registry is what it leaves in SQLite.
use sqlite_mcp.Prelude.{
  ℕ, ◌<◌, ◌≡◌, Bool, true, false, not, Option, none, some, arith, ==_iff, is_some, ok, is_ok, same,
  if◌then◌else◌, Bool-cases,
}
use sqlite_mcp.Prelude.Words.{saturating_add}
use sqlite_mcp.Core.State.{TransactionSchemaState}
use sqlite_mcp.Prelude.{inl, inr, ap, ◌∙◌, Bool-cases, if◌then◌else◌}
use sqlite_mcp.Prelude.Table.{get, contains_key}
use sqlite_mcp.Sqlite.{Engine, commit}
use sqlite_mcp.Worker.State.{Worker}
use sqlite_mcp.Worker.Commit.{CommitOutcome, CommitFault, run_commit, failure, expired_outcome}
use sqlite_mcp.Core.State.{
  Handle, State, clear_transaction, expire, handle_gate, put_worker, put_handle,
  TransactionSchemaState,
}
use sqlite_mcp.Prelude.Table.{get-modify, get-remove}
use sqlite_mcp.Core.Begin.{handle_of}
use sqlite_mcp.Core.Commit.{
  committed, unconfirmed, confirmed, publish_commit, commit_admitted, is_pending,
}
use sqlite_mcp.Core.Registry.{handle_gate_lem}
use sqlite_mcp.Core.Commit.{is_pending}
use sqlite_mcp.Worker.State.{autocommit}
use sqlite_mcp.Worker.Truth.{run_commit-CommitTruth, run_commit-confirmed, CommitTruth}
use sqlite_mcp.Core.Entry.{
  get-end_transaction, get-confirmed, get-put_worker, get-invalidate_handle,
}
use sqlite_mcp.Core.Commit.{is_pending}

module _ (e : Engine) where
  -- Whether the registry and the connection agree that a transaction is open.
  abbrev pub is_synced : Option (Handle × Worker e) → Bool
  is_synced none = true
  is_synced (some (h, w)) = same (is_some h.transaction_id) (not (autocommit w))

  -- A commit only calls open a transaction that was open.
  run_commit_open :
      (w : Worker e) (fault : Option CommitFault) (now : ℕ)
      → autocommit w ≡ true
      → (run_commit e w fault now).0.transaction_open ≡ false
  unfolding run_commit failure expired_outcome
  run_commit_open w fault now closed = ground (arith, closed)

  publish_commit-IsSynced :
      (s : State e) (id : ℕ) (o : CommitOutcome) (h : Handle) (w : Worker e)
      → get s.handles id ≡ some (h, w)
      → CommitTruth e o w.session.conn
      → (o.transaction_open ≡ true → is_some h.transaction_id ≡ true)
      → is_synced (get (publish_commit e s id o).1.handles id) ≡ true
  unfolding publish_commit unconfirmed committed
  publish_commit-IsSynced s id o h w there truth was_open = ground (
    arith,
    there,
    truth.open_exact,
    truth.confirmed_closed,
    truth.expired_closed,
    was_open,
    get-end_transaction e s id expire h w there,
    get-end_transaction e s id clear_transaction h w there,
    get-confirmed e s id o h w there,
    get-invalidate_handle e s id,
  )

  -- After a commit, if the handle is still open, the registry says that it has a transaction exactly
  -- if its connection has one, whatever the outcome of the commit and injected faults included; before
  -- it, the registry and the connection agree, the handle has not expired, and the worker has no open
  -- transaction if its own has expired.
  pub commit-IsSynced :
      (s : State e) (id : ℕ) (fault : Option CommitFault) (now : ℕ) (h : Handle) (w : Worker e)
      → handle_gate s id ≡ ok (h, w)
      → h.expired ≡ false
      → (w.expired ≡ true → autocommit w ≡ true)
      → is_synced (some (h, w)) ≡ true
      → is_synced (get (commit_admitted e s id fault now).1.handles id) ≡ true
  unfolding commit_admitted
  commit-IsSynced s id fault now h w there live truth synced =
      let (o, w') = run_commit e w fault now in
      let entry = get-put_worker e s id h w w' (handle_gate_lem s id h w there) in
      ground (
        arith,
        there,
        live,
        publish_commit-IsSynced (put_worker s id w') id o h w' entry
            (run_commit-CommitTruth e w fault now truth)
            (λ is_open. ground (arith, is_open, synced, run_commit_open w fault now)),
      )

  confirmed_ok :
      (s : State e) (id : ℕ) (o : CommitOutcome) (h h' : Handle) (w : Worker e)
      → get s.handles id ≡ some (h, w)
      → (confirmed e s id o).0 ≡ ok h'
      → (is_ok o.result ≡ true)
        × (h' ≡ committed (is_pending (get s.transaction_schema id)) h)
        × (contains_key (confirmed e s id o).1.transaction_schema id ≡ false)
  unfolding confirmed put_handle handle_of contains_key
  confirmed_ok s id o h h' w there done = ground (
    arith,
    there,
    done,
    get-modify s.handles id id
        (λ entry. (committed (is_pending (get s.transaction_schema id)) entry.0, entry.1)),
    get-remove s.transaction_schema id id,
    ==_iff id id,
  )

  publish_commit_ok :
      (s : State e) (id : ℕ) (o : CommitOutcome) (h h' : Handle) (w : Worker e)
      → get s.handles id ≡ some (h, w)
      → (publish_commit e s id o).0 ≡ ok h'
      → (o.commit_confirmed ≡ true)
        × (h' ≡ committed (is_pending (get s.transaction_schema id)) h)
        × (contains_key (publish_commit e s id o).1.transaction_schema id ≡ false)
  unfolding publish_commit unconfirmed
  publish_commit_ok s id o h h' w there done =
      ground (arith, done, confirmed_ok s id o h h' w there)

  -- The handle behind a commit: it has no transaction, and a schema change of the transaction has made
  -- its observation stale and begun the next generation.
  unfoldable pub AfterCommit : Option (TransactionSchemaState e) → Handle → Handle → Type 0
  AfterCommit none h h' = h' ≡ record h { transaction_id = none; transaction_mode = none }
  AfterCommit (some tx) h h' =
      if tx.pending_schema_change
      then h' ≡ record h {
        transaction_id = none;
        transaction_mode = none;
        schema_observed = false;
        observation_generation = saturating_add h.observation_generation 1;
      }
      else h' ≡ record h { transaction_id = none; transaction_mode = none }

  committed-AfterCommit :
      (tx : Option (TransactionSchemaState e)) (h h' : Handle)
      → h' ≡ committed (is_pending tx) h
      → AfterCommit tx h h'
  unfolding AfterCommit committed
  committed-AfterCommit none h h' p = p
  committed-AfterCommit (some tx) h h' p = elim (Bool-cases tx.pending_schema_change) [
    | inl b ↦ rw b (p ∙ ap (λ v. committed v h) b)
    | inr b ↦ rw b (p ∙ ap (λ v. committed v h) b)
  ]

  -- A commit that succeeds, no fault being injected, has ended the transaction in SQLite: COMMIT
  -- succeeded on a connection with an open transaction that had not idled too long. The handle has no
  -- transaction and no bookkeeping of one; its observation of the schema is kept if the transaction
  -- did not change the schema, and otherwise dropped, with the next generation.
  pub commit_success :
      (s : State e) (id now : ℕ) (h h' : Handle) (w : Worker e)
      → handle_gate s id ≡ ok (h, w)
      → (commit_admitted e s id none now).0 ≡ ok h'
      → ((e.execute commit w.session.conn).0 ≡ none)
        × (autocommit w ≡ false)
        × (now < w.idle_deadline)
        × AfterCommit (get s.transaction_schema id) h h'
        × (contains_key (commit_admitted e s id none now).1.transaction_schema id ≡ false)
  unfolding commit_admitted put_worker
  commit_success s id now h h' w there done =
      let (o, w') = run_commit e w none now in
      let entry = get-put_worker e s id h w w' (handle_gate_lem s id h w there) in
      let (ended, closed, early, same_handle, forgotten) : ((e.execute commit w.session.conn).0
            ≡ none)
          × (autocommit w ≡ false)
          × (now < w.idle_deadline)
          × (h' ≡ committed (is_pending (get s.transaction_schema id)) h)
          × (contains_key (commit_admitted e s id none now).1.transaction_schema id ≡ false) =
        ground (
          arith,
          there,
          done,
          publish_commit_ok (put_worker s id w') id o h h' w' entry,
          run_commit-confirmed e w now,
        ) in
      (
        ended,
        closed,
        early,
        committed-AfterCommit (get s.transaction_schema id) h h' same_handle,
        forgotten,
      )

-- ===== src/Core/Commit.antt =====
-- core.rs: `commit`.
use sqlite_mcp.Prelude.{
  ℕ, Bool, true, false, not, Option, none, some, if◌then◌else◌, Result, ok, err, ◌>>=◌,
}
use sqlite_mcp.Prelude.Text.{Text, codes}
use sqlite_mcp.Prelude.Int.{ℤ}
use sqlite_mcp.Prelude.Words.{saturating_add}
use sqlite_mcp.Prelude.Table.{get, remove}
use sqlite_mcp.Sqlite.{Engine}
use sqlite_mcp.Worker.Error.{WorkerError, message}
use sqlite_mcp.Worker.Commit.{CommitOutcome, CommitFault, run_commit}
use sqlite_mcp.Core.Error.{CoreError}
use sqlite_mcp.Core.State.{
  Handle, TransactionSchemaState, State, clear_transaction, expire, handle_gate, put_worker,
  put_handle, end_transaction, invalidate_handle,
}
use sqlite_mcp.Core.Begin.{handle_of}

-- The error of an outcome, or a message where there is none.
abbrev pub error_or : Result ℤ WorkerError → Text → WorkerError
error_or (ok v) m = message m
error_or (err x) m = x

abbrev pub lifecycle : CommitOutcome → WorkerError → Bool → CoreError
lifecycle o x uncertain = CoreError.commit_lifecycle (record {
  error = x;
  commit_confirmed = o.commit_confirmed;
  transaction_open = o.transaction_open;
  transaction_continuable = o.transaction_continuable;
  expired = o.expired;
  uncertain_or_invalidated = uncertain;
})

abbrev pub is_pending : {e : Engine} → Option (TransactionSchemaState e) → Bool
is_pending none = false
is_pending (some tx) = tx.pending_schema_change

-- The handle behind a confirmed commit: a schema change makes the observation stale.
unfoldable pub committed : Bool → Handle → Handle
committed pending h = record (clear_transaction h) {
  schema_observed = if pending then false else h.schema_observed;
  observation_generation =
      if pending then saturating_add h.observation_generation 1 else h.observation_generation;
}

module _ (e : Engine) where
  -- A commit that was not confirmed.
  unfoldable pub unconfirmed : State e → ℕ → CommitOutcome → Result Handle CoreError × State e
  unconfirmed s id o =
      if o.expired then (err CoreError.transaction_expired, end_transaction s id expire) else (
        err (
            lifecycle o (error_or o.result (codes "commit was not confirmed"))
              o.uncertain_or_invalidated),
        if o.transaction_open then s else end_transaction s id clear_transaction,
      )

  -- A confirmed commit.
  unfoldable pub confirmed : State e → ℕ → CommitOutcome → Result Handle CoreError × State e
  unfolding committed
  confirmed s id o =
      let pending = is_pending (get s.transaction_schema id) in
      let s' =
        put_handle (record s { transaction_schema = remove s.transaction_schema id }) id
          (committed pending) in
      (
        handle_of e s' id >>= λ h. elim o.result [
          | ok v ↦ ok h
          | err x ↦ err (lifecycle o x o.uncertain_or_invalidated)
        ],
        s',
      )

  -- `commit_admitted` behind the outcome.
  unfoldable pub publish_commit : State e → ℕ → CommitOutcome → Result Handle CoreError × State e
  publish_commit s id o =
      if o.uncertain_or_invalidated
      then (
        err (lifecycle o (error_or o.result (codes "commit state uncertain")) true),
        invalidate_handle s id,
      )
      else if not o.commit_confirmed
      then unconfirmed s id o
      else confirmed s id o

  -- `commit_admitted`; the worker is alive.
  unfoldable pub commit_admitted :
      State e → ℕ → Option CommitFault → ℕ → Result Handle CoreError × State e
  commit_admitted s id fault now = elim (handle_gate s id) [
    | err x ↦ (err x, s)
    | ok (h, w) ↦
        let (o, w') = run_commit e w fault now in
        if h.expired
        then (err CoreError.transaction_expired, s)
        else publish_commit (put_worker s id w') id o
  ]

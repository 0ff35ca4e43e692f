-- ===== src/Core/Rollback.antt =====
-- core.rs: `rollback` and `expire_handle`.
use sqlite_mcp.Prelude.{ℕ, Bool, true, none, some, if◌then◌else◌, Result, ok, err}
use sqlite_mcp.Prelude.Text.{codes}
use sqlite_mcp.Sqlite.{Engine, rollback}
use sqlite_mcp.Worker.Error.{WorkerError, message}
use sqlite_mcp.Worker.State.{Job}
use sqlite_mcp.Worker.Control.{run_control, run_expire}
use sqlite_mcp.Core.Error.{CoreError, says_expired, says_invalidated, classify_worker_error}
use sqlite_mcp.Core.State.{
  Handle, State, clear_transaction, expire, handle_gate, put_worker, end_transaction,
  invalidate_handle,
}
use sqlite_mcp.Core.Begin.{at_conn, handle_of}

module _ (e : Engine) where
  -- The job of a rollback; `injected` is the cleanup fault of the test hooks.
  unfoldable pub rollback_job : Bool → Job e (Unit {0})
  rollback_job injected s =
      let failed = err (message (codes "rollback cleanup failed; handle invalidated")) in
      let (r, c) = e.execute rollback s.conn in
      if e.is_autocommit s.conn then (ok tt, s) else if injected then (failed, s) else elim r [
        | some x ↦ (err (WorkerError.sqlite x), at_conn e s c)
        | none ↦ ((if e.is_autocommit c then ok tt else failed), at_conn e s c)
      ]

  unfoldable pub fail_rollback : State e → ℕ → WorkerError → Result Handle CoreError × State e
  fail_rollback s id x =
      let s' = if says_expired x then end_transaction s id expire else s in
      if says_invalidated x
      then (err (CoreError.worker x), invalidate_handle s' id)
      else (err (classify_worker_error x true), s')

  -- `rollback_admitted`; the clock is read at the idle check and behind the job. The lock of the
  -- registry, which the code tries for, is free.
  unfoldable pub rollback_admitted :
      State e → ℕ → Bool → Bool → ℕ → ℕ → Result Handle CoreError × State e
  rollback_admitted s id injected fault now now_after = elim (handle_gate s id) [
    | err x ↦ (err x, s)
    | ok (h, w) ↦
        let (reply, w') = run_control e w (rollback_job injected) fault now now_after in
        let s' = put_worker s id w' in
        elim reply [
          | err x ↦ fail_rollback s' id x
          | ok _ ↦ let done = end_transaction s' id clear_transaction in (handle_of e done id, done)
        ]
  ]

  -- `expire_admitted`: whether a transaction was open and has been rolled back.
  unfoldable pub expire_admitted : State e → ℕ → Bool → Result Bool CoreError × State e
  expire_admitted s id injected = elim (handle_gate s id) [
    | err x ↦ (err x, s)
    | ok (h, w) ↦
        let (expired, w') = run_expire e w injected in
        let s' = put_worker s id w' in
        (ok expired, if expired then end_transaction s' id expire else s')
  ]

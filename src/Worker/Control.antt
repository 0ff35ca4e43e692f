-- ===== src/Worker/Control.antt =====
-- worker.rs: the arms `Command::Control`, `Command::Expire` and `Command::Shutdown`, and the caller's
-- side of a shutdown. The flags `injected` are the cleanup faults of the test hooks.
use sqlite_mcp.Prelude.{
  ℕ, Bool, true, false, not, ◌&&◌, Option, none, some, leb, if◌then◌else◌, is_none, unwrap_or,
  Result, ok, err,
}
use sqlite_mcp.Prelude.Text.{codes, contains}
use sqlite_mcp.Sqlite.{Engine, rollback}
use sqlite_mcp.Operation.{
  ShutdownStatus, is_success, WorkerShutdownError, rollback_uncertain, join_uncertain,
}
use sqlite_mcp.Worker.Error.{WorkerError, transaction_expired, expiry_uncertain}
use sqlite_mcp.Worker.State.{Worker, Job, idle_from, autocommit, with_conn}

module _ (e : Engine) where
  module _ {A : Type 0} where
    -- The clock is read at the idle check and behind the job.
    unfoldable pub run_control : Worker e → Job e A → Bool → ℕ → ℕ → Result A WorkerError × Worker e
    unfolding idle_from
    run_control w job injected now now_after =
        let (r, c) = e.execute rollback w.session.conn in
        let (result, s) = job w.session in
        if w.expired
        then (err transaction_expired, w)
        else if not (autocommit w) && leb w.idle_deadline now
        then (if injected
            then (err expiry_uncertain, w)
            else if is_none r && e.is_autocommit c
            then (err transaction_expired, record (with_conn w c) { expired = true })
            else (err expiry_uncertain, with_conn w c))
        else (result, record w { session = s; idle_deadline = idle_from now_after w.idle_seconds })

  -- `Command::Expire`: whether a transaction was open and has been rolled back. Its local `expired`
  -- is not the flag of the loop.
  unfoldable pub run_expire : Worker e → Bool → Bool × Worker e
  run_expire w injected =
      let (r, c) = e.execute rollback w.session.conn in
      if autocommit w
      then (false, w)
      else if injected
      then (false, w)
      else (is_none r && e.is_autocommit c, with_conn w c)

  -- `Command::Shutdown`: the reply; the thread ends behind it.
  unfoldable pub run_shutdown :
      Worker e → Bool → Result ShutdownStatus WorkerShutdownError × Worker e
  run_shutdown w injected =
      let closed_status = ok (record { connection_closed = true; thread_joined = false }) in
      let (r, c) = e.execute rollback w.session.conn in
      if autocommit w
      then (closed_status, w)
      else if injected
      then (err (rollback_uncertain (codes "injected connection rollback failure")), with_conn w c)
      else (
        elim r [
          | none ↦ closed_status
          | some x ↦
              if e.is_autocommit c && contains x.text (codes "no transaction is active")
              then closed_status
              else err (rollback_uncertain x.text)
        ],
        with_conn w c,
      )

-- `Worker::shutdown` behind the reply: nothing if the channel was closed or the reply was dropped;
-- `joined` is what joining the thread gave, if there was a thread to join.
unfoldable pub finish_shutdown :
    Option (Option (Result ShutdownStatus WorkerShutdownError))
    → Option Bool
    → Result ShutdownStatus WorkerShutdownError
unfolding is_success
finish_shutdown none joined =
    err (join_uncertain (codes "worker channel closed before shutdown completed"))
finish_shutdown (some none) joined =
    err (join_uncertain (codes "worker dropped the shutdown report"))
finish_shutdown (some (some (err x))) joined = err x
finish_shutdown (some (some (ok s))) joined =
    let status : ShutdownStatus = record s { thread_joined = unwrap_or joined false } in
    if is_success status
    then ok status
    else err (join_uncertain (codes "worker thread did not confirm a clean exit"))

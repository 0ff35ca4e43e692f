-- ===== src/Worker/Run.antt =====
-- worker.rs: the arm `Command::Run` of the worker's loop, for any job.
use sqlite_mcp.Prelude.{
  Bool, true, false, not, ◌&&◌, Option, none, some, [], ◌∷◌, ◌++◌, leb, if◌then◌else◌, Result, err,
}
use sqlite_mcp.Prelude.Text.{Text, codes, contains}
use sqlite_mcp.Sqlite.{Engine, SqliteError, rollback}
use sqlite_mcp.Policy.Signal.{MutationSignal, reset_for_request, clear_source}
use sqlite_mcp.Worker.Error.{
  WorkerError, message, policy_denied, interrupted, is_sqlite, is_interrupted, server_shutdown,
  transaction_expired,
}
use sqlite_mcp.Worker.State.{Session, Worker, Job, Observed, idle_from, autocommit, with_conn}

-- The text of an error, if there is one.
abbrev pub detail : Option SqliteError → Text
detail none = []
detail (some x) = x.text

-- `: {detail}`, unless the detail is empty.
unfoldable pub suffix : Text → Text
suffix [] = []
suffix (c ∷ s) = codes ": " ++ (c ∷ s)

unfoldable pub lost_work : Option SqliteError → WorkerError
unfolding suffix
lost_work r = message (codes "handle invalidated; lost uncommitted work" ++ suffix (detail r))

unfoldable pub lost_in_shutdown : Option SqliteError → WorkerError
unfolding suffix
lost_in_shutdown r =
    message
      (codes "SERVER_SHUTDOWN; handle invalidated; lost uncommitted work" ++ suffix (detail r))

module _ (e : Engine) where
  -- The checks before a request, in their order of precedence.
  unfoldable pub before_job : Worker e → Observed → Option WorkerError × Worker e
  before_job w o =
      if o.shutdown_before
      then (some server_shutdown, w)
      else if w.expired
      then (some transaction_expired, w)
      else if leb w.idle_deadline o.now_before && not (autocommit w)
      then (
        some transaction_expired,
        record (with_conn w (e.execute rollback w.session.conn).1) { expired = true },
      )
      else if o.cancelled_before
      then (some (interrupted true (not (autocommit w)) (not (autocommit w))), w)
      else if o.deadline_before
      then (some (interrupted false (not (autocommit w)) (not (autocommit w))), w)
      else (none, w)

  -- The rollback behind an interrupted request has left uncommitted work in an unknown state. An
  -- error that only says that there was no transaction is benign.
  unfoldable pub is_lost : Option SqliteError → e.Conn → Bool
  is_lost none c = not (e.is_autocommit c)
  is_lost (some x) c = not (e.is_autocommit c && contains x.text (codes "no transaction is active"))

  module _ {A : Type 0} where
    -- The cleanup behind the job: by cause, client cancellation first, then shutdown, then deadline.
    unfoldable pub after_job :
        Observed → Result A WorkerError → e.Conn → Result A WorkerError × e.Conn
    unfolding is_lost lost_work lost_in_shutdown
    after_job o result c =
        let (r, c') = e.execute rollback c in
        let open' = not (e.is_autocommit c') in
        if o.cancelled_after
        then (
          (if is_lost r c'
              then err (lost_work r)
              else if is_sqlite result
              then err (interrupted true open' open')
              else result),
          c',
        )
        else if o.shutdown_after && is_sqlite result
        then ((if is_lost r c' then err (lost_in_shutdown r) else err server_shutdown), c')
        else if is_sqlite result && o.deadline_after
        then ((if is_lost r c' then err (lost_work r) else err (interrupted false open' open')), c')
        else (result, c)

    -- A denial by the authorizer replaces every result but an interruption.
    unfoldable pub apply_policy :
        MutationSignal → e.Conn → Result A WorkerError → Result A WorkerError
    apply_policy seen c result =
        if seen.policy_denied && not (is_interrupted result)
        then err (policy_denied (not (e.is_autocommit c)) (not (e.is_autocommit c)))
        else result

    -- The job and what follows it.
    unfoldable pub serve : Worker e → Job e A → Observed → Result A WorkerError × Worker e
    unfolding reset_for_request after_job apply_policy clear_source idle_from
    serve w job o =
        let start : Session e = record w.session { signal = reset_for_request w.session.signal } in
        let (result, s) = job start in
        let (result', c) = after_job o result s.conn in
        (
          apply_policy s.signal c result',
          record w {
            session = record { conn = c; signal = clear_source s.signal };
            idle_deadline = idle_from o.now_after w.idle_seconds;
          },
        )

    -- The whole arm.
    unfoldable pub run : Worker e → Job e A → Observed → Result A WorkerError × Worker e
    run w job o =
        let (refused, w') = before_job w o in
        elim refused [ some x ↦ (err x, w') | none ↦ serve w' job o ]

-- ===== src/Worker/Interrupt.antt =====
-- worker.rs: what an interruption does to the transaction.
use sqlite_mcp.Prelude.{
  ◌≡◌, ap, ◌⊎◌, Bool, true, false, ◌&&◌, ◌||◌, Option, none, some, arith, if◌then◌else◌, Bool-cases,
  Result, ok, err,
}
use sqlite_mcp.Sqlite.{Engine, SqliteError, rollback}
use sqlite_mcp.Policy.Signal.{MutationSignal, reset_for_request}
use sqlite_mcp.Worker.Error.{WorkerError, policy_denied, is_sqlite, is_interrupted}
use sqlite_mcp.Worker.State.{Session, Worker, Job, Observed, autocommit}
use sqlite_mcp.Worker.Run.{
  before_job, is_lost, lost_work, lost_in_shutdown, after_job, apply_policy, serve, run,
}

not-is_lost :
    (e : Engine) (r : Option SqliteError) (c : e.Conn)
    → is_lost e r c ≡ false
    → e.is_autocommit c ≡ true
unfolding is_lost
not-is_lost e r c h = ground arith

-- The session in which the job starts.
abbrev pub started : {e : Engine} → Worker e → Session e
started w = record w.session { signal = reset_for_request w.session.signal }

module _ (e : Engine) {A : Type 0} where
  -- A request was served, and one of its causes of interruption took effect: the client had
  -- cancelled, or the job failed in SQLite under a shutdown or past the deadline.
  abbrev pub interrupts : Result A WorkerError → Observed → Bool
  interrupts result o =
      o.cancelled_after || (is_sqlite result && (o.shutdown_after || o.deadline_after))

  -- What the reply of a lost rollback is.
  abbrev pub lost_reply : Observed → Result A WorkerError → Option SqliteError → WorkerError
  lost_reply o result r =
      if o.cancelled_after
      then lost_work r
      else if o.shutdown_after && is_sqlite result
      then lost_in_shutdown r
      else lost_work r

  after_job_lost :
      (o : Observed) (result : Result A WorkerError) (c : e.Conn)
      → interrupts result o ≡ true
      → is_lost e (e.execute rollback c).0 (e.execute rollback c).1 ≡ true
      → (after_job e o result c).0 ≡ err (lost_reply o result (e.execute rollback c).0)
  unfolding after_job
  after_job_lost o result c h lost = ground arith

  after_job_kept :
      (o : Observed) (result : Result A WorkerError) (c : e.Conn)
      → interrupts result o ≡ true
      → is_lost e (e.execute rollback c).0 (e.execute rollback c).1 ≡ false
      → e.is_autocommit (after_job e o result c).1 ≡ true
  unfolding after_job
  after_job_kept o result c h kept =
      ground (arith, not-is_lost e (e.execute rollback c).0 (e.execute rollback c).1 kept)

  -- A policy denial replaces the reply, with the connection's own flags.
  apply_policy-WarnsOpen :
      (seen : MutationSignal) (c : e.Conn) (x : WorkerError)
      → is_interrupted {A = A} (err x) ≡ false
      → (e.is_autocommit c ≡ true)
        ⊎ (apply_policy e {A = A} seen c (err x) ≡ err x)
        ⊎ (apply_policy e {A = A} seen c (err x) ≡ err (policy_denied true true))
  unfolding apply_policy
  apply_policy-WarnsOpen seen c x h = ground arith

  serve_closes :
      (w : Worker e) (job : Job e A) (o : Observed)
      → interrupts (job (started w)).0 o ≡ true
      → let (result, s) = job (started w) in
        let (reply, w') = serve e w job o in
        (autocommit w' ≡ true)
        ⊎ (reply ≡ err (lost_reply o result (e.execute rollback s.conn).0))
        ⊎ (reply ≡ err (policy_denied true true))
  unfolding serve
  serve_closes w job o h =
      let result = (job (started w)).0 in
      let c = (job (started w)).1.conn in
      let seen = (job (started w)).1.signal in
      ground (
        arith,
        after_job_lost o result c h,
        after_job_kept o result c h,
        Bool-cases (is_lost e (e.execute rollback c).0 (e.execute rollback c).1),
        apply_policy-WarnsOpen seen (after_job e o result c).1
            (lost_reply o result (e.execute rollback c).0),
      )

  pub run_admitted :
      (w : Worker e) (job : Job e A) (o : Observed)
      → before_job e w o ≡ (none, w)
      → run e w job o ≡ serve e w job o
  unfolding run
  run_admitted w job o admitted = ap (next w job o) admitted
    where
      next :
          (w : Worker e) (job : Job e A) (o : Observed)
          → Option WorkerError × Worker e
          → Result A WorkerError × Worker e
      next w job o (refused, w') = elim refused [ some x ↦ (err x, w') | none ↦ serve e w' job o ]

  -- No interrupted request leaves its transaction open in silence. If a request was admitted and
  -- then cancelled by its client, or its job failed in SQLite under a shutdown or past its deadline,
  -- then the connection has no transaction open behind it, or the reply is the message that the
  -- handle is invalidated, or it is a policy denial that says that the transaction is open.
  pub run_closes :
      (w : Worker e) (job : Job e A) (o : Observed)
      → (before_job e w o) ≡ (none, w)
      → interrupts (job (started w)).0 o ≡ true
      → let (result, s) = job (started w) in
        let (reply, w') = run e w job o in
        (autocommit w' ≡ true)
        ⊎ (reply ≡ err (lost_reply o result (e.execute rollback s.conn).0))
        ⊎ (reply ≡ err (policy_denied true true))
  run_closes w job o admitted h = rw (run_admitted w job o admitted) (serve_closes w job o h)

  -- A cancelled request can report success for work that is gone: whenever a job succeeds and
  -- nothing was denied, but its client has cancelled by the time it ends, and the rollback that
  -- follows succeeds, the reply is the job's success and no transaction is open any more.
  pub run_cancelled_success :
      (w : Worker e) (job : Job e A) (o : Observed) (a : A) (s : Session e)
      → before_job e w o ≡ (none, w)
      → job (started w) ≡ (ok a, s)
      → s.signal.policy_denied ≡ false
      → o.cancelled_after ≡ true
      → (e.execute rollback s.conn).0 ≡ none
      → e.is_autocommit (e.execute rollback s.conn).1 ≡ true
      → ((run e w job o).0 ≡ ok a) × (autocommit (run e w job o).1 ≡ true)
  unfolding serve after_job apply_policy is_lost
  run_cancelled_success w job o a s admitted done allowed cancelled rolled closes =
      rw (run_admitted w job o admitted) (ground arith)

-- ===== src/Core/Lifecycle.antt =====
-- core.rs: what a begin that succeeds has checked, and what it publishes.
use sqlite_mcp.Prelude.{
  ℕ, ◌≡◌, ◌≢◌, inl, inr, Bool, true, false, ◌&&◌, none, arith, if◌then◌else◌, Option-cases,
  Result-cases, Result, ok,
}
use sqlite_mcp.Prelude.Int.{ℤ, ◌==ℤ◌}
use sqlite_mcp.Sqlite.{Engine, begin_deferred, begin_immediate}
use sqlite_mcp.Operation.{TransactionMode}
use sqlite_mcp.Worker.Error.{WorkerError}
use sqlite_mcp.Worker.State.{Session, Worker, Job, Observed}
use sqlite_mcp.Worker.Run.{run}
use sqlite_mcp.Core.State.{Handle, State, handle_gate, put_worker}
use sqlite_mcp.Core.Begin.{
  begin_job, publish_begin, fail_begin, check_begin, is_immediate, begin_admitted,
}
use sqlite_mcp.Worker.Run.{before_job, serve, after_job, apply_policy}
use sqlite_mcp.Worker.Interrupt.{started}

module _ (e : Engine) where
  -- A request that succeeds was admitted, and its job has succeeded.
  pub run_ok :
      {A : Type 0} (w : Worker e) (job : Job e A) (o : Observed) (a : A)
      → (run e w job o).0 ≡ ok a
      → (job (started w)).0 ≡ ok a
  unfolding run before_job serve after_job apply_policy
  run_ok w job o a h = ground (arith, h)

  -- The connection behind the BEGIN of a mode.
  abbrev pub begun : Worker e → TransactionMode → e.Conn
  begun w mode =
      (e.execute (if is_immediate mode then begin_immediate else begin_deferred) w.session.conn).1

  begin_job_ok :
      (now : Bool) (expected live : ℤ) (s : Session e)
      → (begin_job e now expected s).0 ≡ ok live
      → ((e.execute (if now then begin_immediate else begin_deferred) s.conn).0 ≡ none)
        × (e.schema_version (e.execute (if now then begin_immediate else begin_deferred) s.conn).1
            ≡ ok live)
        × ((live ==ℤ expected) ≡ true)
  unfolding begin_job
  begin_job_ok now expected live s h = ground (arith, h)

  fail_begin_err :
      (s : State e) (id : ℕ) (x : WorkerError) (h : Handle) → (fail_begin e s id x).0 ≢ ok h
  unfolding fail_begin
  fail_begin_err s id x h p = ground (arith, p)

  pub check_begin_ok :
      (h : Handle) (now : Bool)
      → check_begin h now ≡ ok tt
      → (h.expired ≡ false)
        × (h.transaction_id ≡ none)
        × (h.schema_observed ≡ true)
        × ((now && h.readonly) ≡ false)
  unfolding check_begin
  check_begin_ok h now q = ground (arith, q, Option-cases h.transaction_id)

  -- The answer of the worker to a begin.
  abbrev pub begin_reply :
      Worker e → Handle → TransactionMode → Observed → Result ℤ WorkerError × Worker e
  begin_reply w h mode o = run e w (begin_job e (is_immediate mode) h.schema_version) o

  -- A begin that succeeds has passed the checks, and the worker has answered with the cookie.
  pub begin_inversion :
      (s : State e) (id : ℕ) (mode : TransactionMode) (fresh : ℕ) (o : Observed) (h h' : Handle)
      (w : Worker e)
      → handle_gate s id ≡ ok (h, w)
      → (begin_admitted e s id mode fresh o).0 ≡ ok h'
      → (check_begin h (is_immediate mode) ≡ ok tt)
        × ((live : ℤ) × ((begin_reply w h mode o).0 ≡ ok live)
            × (begin_admitted e s id mode fresh o
                ≡ publish_begin e
                    (put_worker s id (begin_reply w h mode o).1)
                    id
                    h
                    live
                    mode
                    fresh))
  unfolding begin_admitted
  begin_inversion s id mode fresh o h h' w there done =
      elim (Result-cases (check_begin h (is_immediate mode))) [
        | inr (x, q) ↦ ground (arith, there, done, q)
        | inl (passed, q) ↦ elim (Result-cases (begin_reply w h mode o).0) [
          | inl (live, r) ↦ (q, (live, r, ground (arith, there, q, r)))
          | inr (x, r) ↦ ground (
            arith,
            there,
            done,
            q,
            r,
            fail_begin_err (put_worker s id (begin_reply w h mode o).1) id x h',
          )
        ]
      ]

  -- A transaction begins only on a handle that has observed the schema, has no transaction and has
  -- not expired, and is writable if the mode is immediate; BEGIN has succeeded, and the schema cookie
  -- that the transaction sees is the observed one.
  pub begin_current :
      (s : State e) (id : ℕ) (mode : TransactionMode) (fresh : ℕ) (o : Observed) (h h' : Handle)
      (w : Worker e)
      → handle_gate s id ≡ ok (h, w)
      → (begin_admitted e s id mode fresh o).0 ≡ ok h'
      → (h.expired ≡ false)
        × (h.transaction_id ≡ none)
        × (h.schema_observed ≡ true)
        × ((is_immediate mode && h.readonly) ≡ false)
        × ((e.execute
              (if is_immediate mode then begin_immediate else begin_deferred)
              w.session.conn).0
            ≡ none)
        × ((live : ℤ) × (e.schema_version (begun w mode) ≡ ok live)
            × ((live ==ℤ h.schema_version) ≡ true))
  begin_current s id mode fresh o h h' w there done =
      let (q, (live, r, t)) = begin_inversion s id mode fresh o h h' w there done in
      let job_done =
        begin_job_ok (is_immediate mode) h.schema_version live (started w)
          (run_ok w (begin_job e (is_immediate mode) h.schema_version) o live r) in
      let (unexpired, idle, seen, writable) = check_begin_ok h (is_immediate mode) q in
      (unexpired, idle, seen, writable, job_done.0, (live, job_done.1, job_done.2))

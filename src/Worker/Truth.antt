-- ===== src/Worker/Truth.antt =====
-- worker.rs: the lifecycle flags in the replies are those of the connection.
use sqlite_mcp.Sqlite.{Engine, SqliteError, commit, rollback}
use sqlite_mcp.Policy.Signal.{MutationSignal, reset_for_request}
use sqlite_mcp.Worker.Error.{WorkerError, policy_denied, interrupted}
use sqlite_mcp.Worker.State.{Session, Worker, Job, Observed, autocommit}
use sqlite_mcp.Worker.Run.{
  before_job, lost_work, lost_in_shutdown, after_job, apply_policy, serve, run,
}
use sqlite_mcp.Worker.Commit.{
  CommitOutcome, CommitFault, failure, expired_outcome, execute_commit, classify_commit, run_commit,
}
use sqlite_mcp.Prelude.{
  ℕ, ◌<◌, ◌≡◌, inl, inr, Bool, true, false, not, ◌&&◌, Option, none, some, arith, Option-cases,
  Result, ok, err, is_ok, same,
}

-- The lifecycle flags of a reply, if it has any, say whether a transaction is open.
abbrev pub error_says : WorkerError → Bool → Bool
error_says (interrupted by_client o k) is_open = same o is_open && same k is_open
error_says (policy_denied o k) is_open = same o is_open && same k is_open
error_says _ is_open = true

abbrev pub flags_say {ℓ} : {A : Type ℓ} → Result A WorkerError → Bool → Bool
flags_say (ok a) is_open = true
flags_say (err x) is_open = error_says x is_open

-- The results that the server's own jobs give: interruptions and denials are the worker's.
abbrev pub is_plain {ℓ} : {A : Type ℓ} → Result A WorkerError → Bool
is_plain (err (interrupted b o k)) = false
is_plain (err (policy_denied o k)) = false
is_plain _ = true

before_job-error_says :
    (e : Engine) (w : Worker e) (o : Observed) (x : WorkerError)
    → (before_job e w o).0 ≡ some x
    → error_says x (not (autocommit (before_job e w o).1)) ≡ true
unfolding before_job
before_job-error_says e w o x h = ground arith

module _ (e : Engine) {A : Type 0} where
  -- The flags of a reply are those of the connection that it leaves.
  abbrev pub IsTruthful : Result A WorkerError × Worker e → Type 0
  IsTruthful (r, w) = flags_say r (not (autocommit w)) ≡ true

  plain-flags_say : (r : Result A WorkerError) (b : Bool) → is_plain r ≡ true → flags_say r b ≡ true
  plain-flags_say r b h = ground arith

  after_job-flags_say :
      (o : Observed) (r : Result A WorkerError) (c : e.Conn)
      → is_plain r ≡ true
      → let (r', c') = after_job e o r c in flags_say r' (not (e.is_autocommit c')) ≡ true
  unfolding after_job lost_work lost_in_shutdown
  after_job-flags_say o r c h = ground (
    arith,
    plain-flags_say r (not (e.is_autocommit c)),
    plain-flags_say r (not (e.is_autocommit (e.execute rollback c).1)),
  )

  apply_policy-flags_say :
      (seen : MutationSignal) (c : e.Conn) (r : Result A WorkerError)
      → flags_say r (not (e.is_autocommit c)) ≡ true
      → flags_say (apply_policy e seen c r) (not (e.is_autocommit c)) ≡ true
  unfolding apply_policy
  apply_policy-flags_say seen c r h = ground arith

  serve-IsTruthful :
      (w : Worker e) (job : Job e A) (o : Observed)
      → ((s : Session e) → is_plain (job s).0 ≡ true)
      → IsTruthful (serve e w job o)
  unfolding serve
  serve-IsTruthful w job o plain =
      let start : Session e = record w.session { signal = reset_for_request w.session.signal } in
      let s = (job start).1 in
      let (result, c) = after_job e o (job start).0 s.conn in
      apply_policy-flags_say s.signal c result
        (after_job-flags_say o (job start).0 s.conn (plain start))

  -- Every reply to a request is truthful: if it carries the flags `transaction_open` and
  -- `transaction_continuable` (an interruption or a policy denial), both say whether the connection
  -- has a transaction open behind the request. The job is one that leaves those two kinds of error
  -- to the worker, as all jobs of the server do.
  pub run-IsTruthful :
      (w : Worker e) (job : Job e A) (o : Observed)
      → ((s : Session e) → is_plain (job s).0 ≡ true)
      → IsTruthful (run e w job o)
  unfolding run
  run-IsTruthful w job o plain = elim (Option-cases (before_job e w o).0) [
    | inl admitted ↦ rw (admitted, run) (serve-IsTruthful (before_job e w o).1 job o plain)
    | inr (x, refused) ↦ rw (refused, run) (before_job-error_says e w o x refused)
  ]

-- What a commit reports of the connection behind it.
pub record CommitTruth (e : Engine) (o : CommitOutcome) (c : e.Conn) : Type 0 where
  pub open_exact : o.uncertain_or_invalidated ≡ false → o.transaction_open ≡ not (e.is_autocommit c)
  pub continuable_open : o.transaction_continuable ≡ true → o.transaction_open ≡ true
  pub confirmed_closed : o.commit_confirmed ≡ true → e.is_autocommit c ≡ true
  pub expired_closed : o.expired ≡ true → e.is_autocommit c ≡ true
  pub success_confirmed :
      is_ok o.result ≡ true → (o.commit_confirmed ≡ true) × (o.uncertain_or_invalidated ≡ false)

classify_commit-CommitTruth :
    (e : Engine) (fault : Option CommitFault) (r : Option SqliteError) (c : e.Conn)
    → CommitTruth e (classify_commit e fault r c) c
unfolding classify_commit
classify_commit-CommitTruth e fault r c = ground arith

-- The reply to a commit is truthful on every branch, injected faults included. Unless it calls the
-- state uncertain, it says exactly whether a transaction is open; continuable implies open; a commit
-- that is reported confirmed, or expired, has left no transaction; and a successful one is
-- confirmed and not uncertain. The worker has no transaction open if its transaction has expired.
pub run_commit-CommitTruth :
    (e : Engine) (w : Worker e) (fault : Option CommitFault) (now : ℕ)
    → (w.expired ≡ true → autocommit w ≡ true)
    → let (o, w') = run_commit e w fault now in CommitTruth e o w'.session.conn
unfolding run_commit failure expired_outcome
run_commit-CommitTruth e w fault now h = ground (
  arith,
  classify_commit-CommitTruth e fault (execute_commit e fault w.session.conn).0
      (execute_commit e fault w.session.conn).1,
)

-- A commit is confirmed, where no fault is injected, only if SQLite executed COMMIT without error on
-- a connection with an open transaction whose idle deadline had not passed, and the connection
-- after the COMMIT has no transaction open.
pub run_commit-confirmed :
    (e : Engine) (w : Worker e) (now : ℕ)
    → (run_commit e w none now).0.commit_confirmed ≡ true
    → ((e.execute commit w.session.conn).0 ≡ none)
      × (autocommit w ≡ false)
      × (now < w.idle_deadline)
      × (w.expired ≡ false)
      × ((run_commit e w none now).1.session.conn ≡ (e.execute commit w.session.conn).1)
      × (autocommit (run_commit e w none now).1 ≡ true)
unfolding run_commit failure expired_outcome execute_commit classify_commit
run_commit-confirmed e w now h = ground arith

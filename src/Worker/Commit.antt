-- ===== src/Worker/Commit.antt =====
-- worker.rs: `CommitOutcome` and the arm `Command::Commit`. The injected faults are those of the
-- test hooks, which are off unless a marker is set in the environment.
use sqlite_mcp.Prelude.{
  ℕ, Bool, true, false, not, ◌&&◌, Option, none, some, leb, if◌then◌else◌, is_none, Result, ok, err,
}
use sqlite_mcp.Prelude.Text.{Text, codes}
use sqlite_mcp.Prelude.Int.{ℤ}
use sqlite_mcp.Sqlite.{Engine, SqliteError, commit, rollback}
use sqlite_mcp.Worker.Error.{WorkerError, sqlite, message, transaction_expired, expiry_uncertain}
use sqlite_mcp.Worker.State.{Worker, autocommit, with_conn}

-- The value of a confirmed commit is the schema cookie read behind it.
pub record CommitOutcome : Type 0 where
  pub result : Result ℤ WorkerError
  pub commit_confirmed : Bool
  pub transaction_open : Bool
  pub transaction_continuable : Bool
  pub expired : Bool
  pub uncertain_or_invalidated : Bool

unfoldable pub success : ℤ → CommitOutcome
success schema_version = record {
  result = ok schema_version;
  commit_confirmed = true;
  transaction_open = false;
  transaction_continuable = false;
  expired = false;
  uncertain_or_invalidated = false;
}

unfoldable pub failure : WorkerError → Bool → Bool → Bool → CommitOutcome
failure x open' continuable uncertain = record {
  result = err x;
  commit_confirmed = false;
  transaction_open = open';
  transaction_continuable = open' && continuable;
  expired = false;
  uncertain_or_invalidated = uncertain;
}

unfoldable pub expired_outcome : CommitOutcome
expired_outcome = record {
  result = err transaction_expired;
  commit_confirmed = false;
  transaction_open = false;
  transaction_continuable = false;
  expired = true;
  uncertain_or_invalidated = false;
}

-- The commit went through, and only what was read behind it failed.
unfoldable pub confirmed_failure : SqliteError → Bool → CommitOutcome
confirmed_failure x uncertain = record {
  result = err (sqlite x);
  commit_confirmed = true;
  transaction_open = false;
  transaction_continuable = false;
  expired = false;
  uncertain_or_invalidated = uncertain;
}

pub data CommitFault : Type 0 where
  open_continuable autocommit_restored_unconfirmed : CommitFault
  uncertain autocommit_restored : CommitFault

abbrev pub busy_code : ℕ
busy_code = 5

abbrev pub injected : Text → SqliteError
injected text = record { extended = some busy_code; text = text }

module _ (e : Engine) where
  -- The statement that is executed for `COMMIT`, with its outcome.
  unfoldable pub execute_commit : Option CommitFault → e.Conn → Option SqliteError × e.Conn
  execute_commit none c = e.execute commit c
  execute_commit (some open_continuable) c =
      (some (injected (codes "injected open continuable commit fault")), c)
  execute_commit (some autocommit_restored) c =
      let (r, c') = e.execute commit c in
      (if is_none r && e.is_autocommit c' then (some e.invalid_query, c') else (r, c'))
  execute_commit (some _) c =
      let (r, c') = e.execute rollback c in
      if is_none r && e.is_autocommit c'
      then (some e.invalid_query, c')
      else (some (injected (codes "injected uncertain commit fault")), c')

  -- The last two arms of the `match`, which serve every fault.
  unfoldable pub unexpected : Option SqliteError → Bool → CommitOutcome
  unfolding failure
  unexpected none auto =
      failure (message (codes "commit completed without restoring autocommit")) true true true
  unexpected (some x) auto =
      if auto then failure (sqlite x) false false true else failure (sqlite x) true true false

  -- `match (fault, commit)`, for the connection behind the statement.
  unfoldable pub classify_commit : Option CommitFault → Option SqliteError → e.Conn → CommitOutcome
  unfolding success failure confirmed_failure unexpected
  classify_commit none none c =
      if e.is_autocommit c
      then elim (e.schema_version c) [
        | ok version ↦ success version
        | err x ↦ confirmed_failure x true
      ]
      else unexpected none false
  classify_commit (some autocommit_restored) (some x) c =
      if e.is_autocommit c then confirmed_failure x false else unexpected (some x) false
  classify_commit (some autocommit_restored_unconfirmed) (some x) c =
      if e.is_autocommit c then failure (sqlite x) false false false else unexpected (some x) false
  classify_commit (some uncertain) (some x) c =
      failure (sqlite x) (not (e.is_autocommit c)) false true
  classify_commit (some open_continuable) (some x) c =
      failure (sqlite x) (not (e.is_autocommit c)) (not (e.is_autocommit c)) false
  classify_commit fault r c = unexpected r (e.is_autocommit c)

  -- The whole arm; `now` is the clock at the idle check.
  unfoldable pub run_commit : Worker e → Option CommitFault → ℕ → CommitOutcome × Worker e
  unfolding execute_commit classify_commit failure expired_outcome
  run_commit w fault now =
      let (r, c) = e.execute rollback w.session.conn in
      let (r', c') = execute_commit fault w.session.conn in
      if not w.expired && not (autocommit w) && leb w.idle_deadline now
      then (if is_none r && e.is_autocommit c
          then (expired_outcome, record (with_conn w c) { expired = true })
          else (failure expiry_uncertain (not (e.is_autocommit c)) false true, with_conn w c))
      else if w.expired
      then (expired_outcome, w)
      else if autocommit w
      then (failure (message (codes "no transaction open")) false false false, w)
      else (classify_commit fault r' c', with_conn w c')

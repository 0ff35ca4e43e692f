-- ===== src/Worker/State.antt =====
-- worker.rs: what the worker thread keeps between two commands, and what it reads of its
-- environment while it serves one.
use sqlite_mcp.Prelude.{ℕ, Bool, Result}
use sqlite_mcp.Prelude.Words.{saturating_add, saturating_mul}
use sqlite_mcp.Sqlite.{Engine}
use sqlite_mcp.Policy.Signal.{MutationSignal}
use sqlite_mcp.Worker.Error.{WorkerError}

-- What a job may change: the connection, and the flags that the authorizer sets on the way.
pub record Session (e : Engine) : Type 0 where
  pub conn : e.Conn
  pub signal : MutationSignal

pub record Worker (e : Engine) : Type 0 where
  pub session : Session e
  pub expired : Bool
  pub idle_deadline : ℕ
  pub idle_seconds : ℕ

-- A job with results in `A`: `FnOnce(&mut Connection, &RequestContext)`.
abbrev pub Job : Engine → Type 0 → Type 0
Job e A = Session e → Result A WorkerError × Session e

-- What the thread reads of clocks and tokens in the course of one `Run` command, in the order of
-- the reads: the first four before the job, the others behind it. Time is in milliseconds.
pub record Observed : Type 0 where
  pub shutdown_before : Bool
  pub now_before : ℕ
  pub cancelled_before : Bool
  pub deadline_before : Bool
  pub cancelled_after : Bool
  pub shutdown_after : Bool
  pub deadline_after : Bool
  pub now_after : ℕ

-- `now_ms().saturating_add(idle_seconds.saturating_mul(1000))`.
unfoldable pub idle_from : ℕ → ℕ → ℕ
unfolding saturating_add saturating_mul
idle_from now idle_seconds = saturating_add now (saturating_mul idle_seconds 1000)

module _ {e : Engine} where
  abbrev pub autocommit : Worker e → Bool
  autocommit w = e.is_autocommit w.session.conn

  -- Only the connection changes.
  abbrev pub with_conn : Worker e → e.Conn → Worker e
  with_conn w c = record w { session = record { conn = c; signal = w.session.signal } }

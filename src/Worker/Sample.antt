-- ===== src/Worker/Sample.antt =====
-- Workers, jobs and readings of the clocks for tests, on the sample engine.
use sqlite_mcp.Prelude.{ℕ, Bool, true, false, ok, err}
use sqlite_mcp.Sqlite.Sample.{sample, refusal}
use sqlite_mcp.Policy.Signal.{new}
use sqlite_mcp.Worker.Error.{sqlite}
use sqlite_mcp.Worker.State.{Worker, Job, Observed, autocommit}

-- A worker with a connection under autocommit or not.
abbrev pub worker_at : Bool → Worker sample
worker_at autocommit = record {
  session = record { conn = autocommit; signal = new };
  expired = false;
  idle_deadline = 60000;
  idle_seconds = 60;
}

abbrev pub expired_worker : Worker sample
expired_worker = record (worker_at true) { expired = true }

-- Nothing happens in the course of a request.
abbrev pub calm : Observed
calm = record {
  shutdown_before = false;
  now_before = 100;
  cancelled_before = false;
  deadline_before = false;
  cancelled_after = false;
  shutdown_after = false;
  deadline_after = false;
  now_after = 110;
}

abbrev pub cancelled_late : Observed
cancelled_late = record calm { cancelled_after = true }

abbrev pub counting : Job sample ℕ
counting s = (ok 3, s)

abbrev pub failing : Job sample ℕ
failing s = (err (sqlite refusal), s)

-- ===== src/Worker/Shutdown.antt =====
-- worker.rs: what a successful shutdown has verified.
use sqlite_mcp.Prelude.{◌≡◌, ◌⊎◌, Bool, true, false, Option, none, some, arith, ok}
use sqlite_mcp.Sqlite.{Engine, rollback}
use sqlite_mcp.Operation.{ShutdownStatus, is_success}
use sqlite_mcp.Worker.State.{Worker, autocommit}
use sqlite_mcp.Worker.Control.{run_shutdown, finish_shutdown}

-- A shutdown is reported as a success only if it was one: the status says that the connection was
-- closed and the thread joined, the thread was there and its join succeeded, and on the connection
-- there was no open transaction to begin with, or its ROLLBACK reported no error, or there is none
-- behind it.
pub shutdown_verified :
    (e : Engine) (w : Worker e) (injected : Bool) (joined : Option Bool) (s : ShutdownStatus)
    → finish_shutdown (some (some (run_shutdown e w injected).0)) joined ≡ ok s
    → (is_success s ≡ true)
      × (joined ≡ some true)
      × ((autocommit w ≡ true)
          ⊎ ((injected ≡ false) × ((e.execute rollback w.session.conn).0 ≡ none))
          ⊎ ((injected ≡ false) × (autocommit (run_shutdown e w injected).1 ≡ true)))
unfolding finish_shutdown run_shutdown is_success
shutdown_verified e w injected joined s h = ground arith

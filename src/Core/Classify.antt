-- ===== src/Core/Classify.antt =====
-- core/error.rs: what the classification of worker errors can and cannot give.
use sqlite_mcp.Prelude.{ℕ, ◌≡◌, ◌≢◌, Bool, true, Option, ◌++◌, arith}
use sqlite_mcp.Prelude.Text.{Text, codes}
use sqlite_mcp.Worker.Error.{WorkerError}
use sqlite_mcp.Core.Error.{CoreError, says_expired, classify_worker_error}
use sqlite_mcp.Worker.Error.{to_string}
use sqlite_mcp.Prelude.Text.{contains-append}
use sqlite_mcp.Core.Error.{classify_kind, classify_sqlite, classify_text}

-- The branch for a locked database is dead: no error of a worker is ever classified as `Locked`.
pub classify_never_locked :
    (x : WorkerError) (open' : Bool) (primary extended : Option ℕ) (is_open continuable : Bool)
    → classify_worker_error x open' ≢ CoreError.locked primary extended is_open continuable
unfolding classify_worker_error classify_kind classify_sqlite classify_text
classify_never_locked x open' primary extended is_open continuable p = ground (arith, p)

expired_lem :
    (x : WorkerError) (open' : Bool)
    → says_expired x ≡ true
    → classify_worker_error x open' ≡ CoreError.transaction_expired
unfolding classify_worker_error
expired_lem x open' p = ground (arith, p)

says_expired_part :
    (code : Option ℕ) (before after : Text)
    → says_expired (
        WorkerError.sqlite
          (record { extended = code; text = before ++ (codes "TRANSACTION_EXPIRED" ++ after) }))
      ≡ true
unfolding says_expired to_string
says_expired_part code before after =
    contains-append (codes "sqlite: " ++ before) (codes "TRANSACTION_EXPIRED") after

-- An error of SQLite whose text has `TRANSACTION_EXPIRED` anywhere in it, such as in the name of a
-- table that a statement spells, is reported as an expired transaction, whatever its code.
pub classify_injected_expiry :
    (code : Option ℕ) (before after : Text) (open' : Bool)
    → classify_worker_error
        (WorkerError.sqlite
          (record { extended = code; text = before ++ (codes "TRANSACTION_EXPIRED" ++ after) }))
        open'
      ≡ CoreError.transaction_expired
classify_injected_expiry code before after open' =
    expired_lem
      (WorkerError.sqlite
        (record { extended = code; text = before ++ (codes "TRANSACTION_EXPIRED" ++ after) }))
      open' (says_expired_part code before after)

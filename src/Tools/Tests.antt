-- ===== src/Tools/Tests.antt =====
-- The theorems on error envelopes at concrete inputs.
use sqlite_mcp.Tools.{core_text}
use sqlite_mcp.Prelude.Text.{contains, codes, starts_with, to_ascii_lowercase, lower}
use sqlite_mcp.Core.Error.{CoreError, CommitLifecycle}
use sqlite_mcp.Core.State.{Handle, new_handle}
use sqlite_mcp.Worker.Error.{WorkerError, to_string}
use sqlite_mcp.Tools.Envelope.{error, open_flag, explicit_lifecycle}
use sqlite_mcp.Prelude.{◌≡◌, refl, true, false, some}

abbrev handle : Handle
handle = record (new_handle 1 (codes "/data/a.db") false (codes "wal")) {
  schema_observed = true;
  transaction_id = some 9;
}

abbrev abort : CoreError
abort =
    CoreError.worker (WorkerError.message (codes "outer transaction aborted: constraint failed"))

-- The registry still has the transaction.
says_open : (error (codes "query") abort (some handle)).transaction_open ≡ true
unfolding error open_flag explicit_lifecycle new_handle
says_open = refl

abbrev busy_commit : CommitLifecycle
busy_commit = record {
  error = WorkerError.message (codes "disk is Busy");
  commit_confirmed = true;
  transaction_open = false;
  transaction_continuable = false;
  expired = false;
  uncertain_or_invalidated = false;
}

present :
    contains (core_text (CoreError.commit_lifecycle busy_commit)) (codes "no transaction") ≡ false
unfolding contains starts_with core_text to_string
present = refl

not_required :
    contains (core_text (CoreError.commit_lifecycle busy_commit)) (codes "transaction required")
    ≡ false
unfolding contains starts_with core_text to_string
not_required = refl

spells_busy :
    contains
      (to_ascii_lowercase (core_text (CoreError.commit_lifecycle busy_commit)))
      (codes "busy")
    ≡ true
unfolding contains starts_with core_text to_string to_ascii_lowercase lower
spells_busy = refl

-- ===== src/Operation.antt =====
-- crates/sqlite-mcp-core/src/operation.rs: transaction modes, operation outcomes and the report of a
-- shutdown. The ids of handles are texts that are only compared, so they are numbers here, with
-- the order of numbers for that of the texts.
pub mod Laws
mod Tests
use sqlite_mcp.Prelude.{
  ℕ, zero, suc, ◌+◌, ◌-◌, ◌*◌, ◌≤◌, ◌<◌, ◌≡◌, refl, sym, ap, ◌∙◌, ◌≢◌, ◌↔◌, ◌⊎◌, inl, inr, Bool,
  true, false, not, ◌&&◌, ◌||◌, Option, none, some, List, [], ◌∷◌, ◌++◌, map, arith, ltb, leb, ◌==◌,
  if◌then◌else◌, ==_iff, leb→le, Bool-cases, Option-cases, Result-cases, is_some, is_none,
  unwrap_or, Result, ok, err, is_ok, is_err, ◌>>=◌, ◌>>◌, fail_if, ok_or, length, length-append,
  All, all, any, is_empty,
}
use Prim.Native.String.{String}
use sqlite_mcp.Prelude.Text.{Text}
use text.Mathlib.Text.{◌==◌ as str_eq}

pub data InterruptionCause : Type 0 where
  client deadline shutdown : InterruptionCause

pub data TransactionMode : Type 0 where
  deferred immediate exclusive : TransactionMode

-- `TransactionMode::parse`: exact lowercase.
unfoldable pub parse : String → Option TransactionMode
parse value =
    if str_eq value "deferred"
    then some deferred
    else if str_eq value "immediate"
    then some immediate
    else if str_eq value "exclusive"
    then some exclusive
    else none

unfoldable pub render : TransactionMode → String
render deferred = "deferred"
render immediate = "immediate"
render exclusive = "exclusive"

pub data CleanupStage : Type 0 where
  expiry_rollback savepoint_restore managed_schema_cleanup : CleanupStage
  connection_rollback connection_close : CleanupStage

pub record CleanupFailure : Type 0 where
  pub stage : CleanupStage
  pub known_transaction_open : Bool
  pub known_invalidated : Bool
  pub detail : String

pub record OperationOutcome (R : Type 0) : Type 0 where
  pub result : R
  pub transaction_open : Bool
  pub transaction_continuable : Bool
  pub expired : Bool
  pub invalidated : Bool
  pub mutation_attempted : Bool
  pub cleanup_error : Option CleanupFailure

module _ {R : Type 0} where
  -- `OperationOutcome::new`.
  unfoldable pub new : R → Bool → Bool → OperationOutcome R
  new result transaction_open transaction_continuable =
      let open' = transaction_open && transaction_continuable in
      record {
        result = result;
        transaction_open = open';
        transaction_continuable = transaction_continuable && open';
        expired = false;
        invalidated = false;
        mutation_attempted = false;
        cleanup_error = none;
      }

  unfoldable pub autocommit : R → OperationOutcome R
  unfolding new
  autocommit result = new result false false

  unfoldable pub with_expired : OperationOutcome R → Bool → OperationOutcome R
  with_expired o expired = record o {
    expired = expired;
    transaction_continuable = if expired then false else o.transaction_continuable;
  }

  unfoldable pub with_invalidated : OperationOutcome R → Bool → OperationOutcome R
  with_invalidated o invalidated = record o {
    invalidated = invalidated;
    transaction_continuable = if invalidated then false else o.transaction_continuable;
  }

  unfoldable pub with_mutation_attempted : OperationOutcome R → Bool → OperationOutcome R
  with_mutation_attempted o attempted = record o { mutation_attempted = attempted }

  unfoldable pub with_cleanup_error : OperationOutcome R → CleanupFailure → OperationOutcome R
  with_cleanup_error o failure = record o { cleanup_error = some failure }

pub record ShutdownStatus : Type 0 where
  pub connection_closed : Bool
  pub thread_joined : Bool

unfoldable pub is_success : ShutdownStatus → Bool
is_success s = s.connection_closed && s.thread_joined

pub data WorkerShutdownError : Type 0 where
  rollback_uncertain close_uncertain join_uncertain : Text → WorkerShutdownError

abbrev pub Status : Type 0
Status = Result ShutdownStatus WorkerShutdownError

pub record ShutdownReport : Type 0 where
  pub entries : List (ℕ × Status)
  pub registry_cleanup_errors : List String

unfoldable pub new_report : ShutdownReport
new_report = record { entries = []; registry_cleanup_errors = [] }

-- The binary search of a sorted vector finds the entry of the id, or the place where it belongs; a
-- walk along the vector finds the same.
unfoldable pub place : ℕ → Status → List (ℕ × Status) → List (ℕ × Status)
place id status [] = (id, status) ∷ []
place id status ((i, s) ∷ es) =
    let rest = place id status es in
    if i == id then (i, s) ∷ es else if ltb i id then (i, s) ∷ rest else (id, status) ∷ (i, s) ∷ es

-- `ShutdownReport::record`.
unfoldable pub record_entry : ShutdownReport → ℕ → Status → ShutdownReport
unfolding place
record_entry r id status = record r { entries = place id status r.entries }

unfoldable pub entry_succeeds : Status → Bool
unfolding is_success
entry_succeeds (ok status) = is_success status
entry_succeeds (err e) = false

-- `ShutdownReport::is_success`.
unfoldable pub report_succeeds : ShutdownReport → Bool
unfolding entry_succeeds
report_succeeds r = all (λ e. entry_succeeds e.1) r.entries && is_empty r.registry_cleanup_errors

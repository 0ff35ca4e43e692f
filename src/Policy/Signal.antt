-- ===== src/Policy/Signal.antt =====
-- policy.rs: `MutationSignal`, the flags that the authorizer shares with the worker. The atomic
-- cells are fields of a record, and `approved_pragma` keeps its number.
use sqlite_mcp.Prelude.{ℕ, Bool, true, false, ◌==◌, if◌then◌else◌}
use sqlite_mcp.Prelude.Text.{Text}
use sqlite_mcp.Policy.Pragma.{
  ApprovedPragma, no_pragma, foreign_keys, recursive_triggers, classify_approved_pragma,
}

pub record MutationSignal : Type 0 where
  pub attempted : Bool
  pub ddl : Bool
  pub policy_denied : Bool
  pub approved_pragma : ℕ

-- `kind as u8`.
abbrev pub pragma_code : ApprovedPragma → ℕ
pragma_code no_pragma = 0
pragma_code foreign_keys = 1
pragma_code recursive_triggers = 2

unfoldable pub new : MutationSignal
new = record { attempted = false; ddl = false; policy_denied = false; approved_pragma = 0 }

unfoldable pub reset_for_request : MutationSignal → MutationSignal
reset_for_request s = record s {
  attempted = false;
  ddl = false;
  policy_denied = false;
  approved_pragma = 0;
}

unfoldable pub classify_source : MutationSignal → Text → MutationSignal
classify_source s sql = record s { approved_pragma = pragma_code (classify_approved_pragma sql) }

unfoldable pub clear_source : MutationSignal → MutationSignal
clear_source s = record s { approved_pragma = 0 }

-- The getter `approved_pragma()`.
unfoldable pub approved : MutationSignal → ApprovedPragma
approved s =
    if s.approved_pragma == 1
    then foreign_keys
    else if s.approved_pragma == 2
    then recursive_triggers
    else no_pragma

unfoldable pub mark_policy_denied : MutationSignal → MutationSignal
mark_policy_denied s = record s { policy_denied = true }

unfoldable pub clear_policy_denied : MutationSignal → MutationSignal
clear_policy_denied s = record s { policy_denied = false }

unfoldable pub mark_attempt : MutationSignal → MutationSignal
mark_attempt s = record s { attempted = true }

unfoldable pub mark_ddl_attempt : MutationSignal → MutationSignal
mark_ddl_attempt s = record s { ddl = true; attempted = true }

unfoldable pub take_after_request : MutationSignal → Bool × MutationSignal
take_after_request s = (s.attempted, record s { attempted = false })

unfoldable pub take_ddl_after_request : MutationSignal → Bool × MutationSignal
take_ddl_after_request s = (s.ddl, record s { ddl = false })

-- ===== src/Policy/Authorize.antt =====
-- policy.rs: the decision of the authorizer and the callback that is installed on a connection.
use sqlite_mcp.Prelude.{
  Bool, true, false, not, ◌&&◌, ◌||◌, Option, none, some, if◌then◌else◌, is_none,
}
use sqlite_mcp.Prelude.Text.{
  Text, codes, text_eq, starts_with, to_ascii_lowercase, eq_ignore_ascii_case,
}
use sqlite_mcp.Policy.Pragma.{ApprovedPragma, no_pragma, foreign_keys, recursive_triggers}
use sqlite_mcp.Policy.Signal.{
  MutationSignal, approved, mark_attempt, mark_ddl_attempt, mark_policy_denied,
}
use sqlite_mcp.Policy.Action.{AuthAction, ActionKind, classify, is_dml, is_ddl, is_object_scoped}

pub data Authorization : Type 0 where
  allow deny : Authorization

-- What SQLite tells the callback; the accessor is the innermost trigger or view.
pub record AuthContext : Type 0 where
  pub action : AuthAction
  pub database_name : Option Text
  pub accessor : Option Text

unfoldable pub database_is_main : Option Text → Bool
database_is_main none = true
database_is_main (some name) = text_eq name (codes "main")

-- The qualifier that counts: ALTER TABLE carries its own.
abbrev pub database_of : ActionKind → Option Text → Option Text
database_of (ActionKind.alter_table own) database = some own
database_of _ database = database

unfoldable pub source_matches : ApprovedPragma → Text → Bool
source_matches foreign_keys name = eq_ignore_ascii_case name (codes "foreign_keys")
source_matches recursive_triggers name = eq_ignore_ascii_case name (codes "recursive_triggers")
source_matches no_pragma name = false

unfoldable pub denied_function : Text → Bool
denied_function name =
    starts_with (to_ascii_lowercase name) (codes "pragma_")
    || text_eq (to_ascii_lowercase name) (codes "load_extension")

-- The last `match` of `decide_kind`.
unfoldable pub decide_action :
    ActionKind → Option Text → Option Text → ApprovedPragma → Authorization
decide_action ActionKind.analyze database accessor a = deny
decide_action (ActionKind.pragma name value) database accessor a =
    if source_matches a name && is_none value && database_is_main database && is_none accessor
    then allow
    else deny
decide_action ActionKind.reindex database accessor a = allow
decide_action ActionKind.select database accessor a = allow
decide_action ActionKind.read database accessor a = allow
decide_action ActionKind.recursive database accessor a = allow
decide_action (ActionKind.function name) database accessor a =
    if denied_function name then deny else allow
decide_action ActionKind.insert database accessor a = allow
decide_action ActionKind.update database accessor a = allow
decide_action ActionKind.delete database accessor a = allow
decide_action ActionKind.create_index database accessor a = allow
decide_action ActionKind.create_table database accessor a = allow
decide_action ActionKind.create_trigger database accessor a = allow
decide_action ActionKind.create_view database accessor a = allow
decide_action ActionKind.drop_index database accessor a = allow
decide_action ActionKind.drop_table database accessor a = allow
decide_action ActionKind.drop_trigger database accessor a = allow
decide_action ActionKind.drop_view database accessor a = allow
decide_action (ActionKind.alter_table own) database accessor a = allow
decide_action _ database accessor a = deny

unfoldable pub mark : ActionKind → MutationSignal → MutationSignal
unfolding mark_attempt mark_ddl_attempt
mark kind seen =
    if is_dml kind then mark_attempt seen else if is_ddl kind then mark_ddl_attempt seen else seen

unfoldable pub decide_kind :
    ActionKind → Option Text → Option Text → Bool → MutationSignal → Authorization × MutationSignal
unfolding mark decide_action approved
decide_kind kind database accessor readonly seen =
    let seen' = mark kind seen in
    if (is_dml kind || is_ddl kind) && readonly
    then (deny, seen')
    else if is_object_scoped kind && not (database_is_main (database_of kind database))
    then (deny, seen')
    else (decide_action kind database accessor (approved seen'), seen')

unfoldable pub authorize : AuthContext → Bool → MutationSignal → Authorization × MutationSignal
unfolding decide_kind classify
authorize ctx readonly seen =
    decide_kind (classify ctx.action) ctx.database_name ctx.accessor readonly seen

abbrev pub is_denied : Authorization → Bool
is_denied allow = false
is_denied deny = true

-- The closure of `install_authorizer`, under the thread's flag `TRUSTED`.
unfoldable pub callback :
    Bool → Bool → AuthContext → MutationSignal → Authorization × MutationSignal
unfolding authorize mark_policy_denied
callback trusted readonly ctx seen =
    let (decision, seen') = authorize ctx readonly seen in
    if trusted
    then (allow, seen)
    else (decision, if is_denied decision then mark_policy_denied seen' else seen')

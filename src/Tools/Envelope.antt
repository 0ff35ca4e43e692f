-- ===== src/Tools/Envelope.antt =====
-- tools.rs: the next moves, and the envelope of an error.
use sqlite_mcp.Prelude.{
  Bool, true, false, ◌&&◌, ◌||◌, Option, none, some, List, [], ◌∷◌, any, if◌then◌else◌, is_some,
}
use sqlite_mcp.Prelude.Text.{Text, codes, text_eq, contains}
use sqlite_mcp.Core.Error.{CoreError}
use sqlite_mcp.Core.State.{Handle}
use sqlite_mcp.Tools.{core_text, class_of}

-- `TOOLS`.
abbrev pub tools : List Text
tools =
    codes "create_database"
    ∷ codes "open_database"
    ∷ codes "list_handles"
    ∷ codes "get_schema"
    ∷ codes "begin_transaction"
    ∷ codes "query"
    ∷ codes "query_batch"
    ∷ codes "execute_sql_file"
    ∷ codes "commit"
    ∷ codes "rollback"
    ∷ codes "close_database"
    ∷ codes "extract_sqlite_merge"
    ∷ codes "import_sqlite_text"
    ∷ []

abbrev pub statement_moves : List Text
statement_moves =
    codes "query"
    ∷ codes "query_batch"
    ∷ codes "execute_sql_file"
    ∷ codes "commit"
    ∷ codes "rollback"
    ∷ []

abbrev pub closed_moves : List Text
closed_moves = codes "begin_transaction" ∷ codes "get_schema" ∷ codes "close_database" ∷ []

abbrev pub is_name : Text → List Text → Bool
is_name name names = any (text_eq name) names

-- `next`.
unfoldable pub next : Text → List Text
unfolding text_eq
next name =
    if text_eq name (codes "create_database")
    then codes "open_database" ∷ []
    else if text_eq name (codes "open_database")
    then codes "get_schema" ∷ codes "list_handles" ∷ codes "close_database" ∷ []
    else if text_eq name (codes "get_schema")
    then codes "begin_transaction" ∷ codes "get_schema" ∷ []
    else if text_eq name (codes "begin_transaction")
    then statement_moves
    else if is_name name (codes "query" ∷ codes "query_batch" ∷ codes "execute_sql_file" ∷ [])
    then statement_moves
    else if is_name name (codes "commit" ∷ codes "rollback" ∷ [])
    then closed_moves
    else if text_eq name (codes "close_database")
    then codes "open_database" ∷ []
    else codes "open_database" ∷ codes "list_handles" ∷ []

-- The fields of an error envelope, version and details aside.
pub record Envelope : Type 0 where
  pub handle_state : Option Handle
  pub next_moves : List Text
  pub class : Text
  pub message : Text
  pub transaction_open : Bool
  pub transaction_continuable : Bool

-- The flags that an error itself carries.
unfoldable pub explicit_lifecycle : CoreError → Option (Bool × Bool)
explicit_lifecycle (CoreError.cancelled o k) = some (o, k)
explicit_lifecycle (CoreError.deadline_exceeded o k) = some (o, k)
explicit_lifecycle (CoreError.busy primary extended o k) = some (o, k)
explicit_lifecycle (CoreError.busy_snapshot primary extended o k) = some (o, k)
explicit_lifecycle (CoreError.locked primary extended o k) = some (o, k)
explicit_lifecycle (CoreError.policy_denied o k) = some (o, k)
explicit_lifecycle (CoreError.commit_lifecycle c) =
    some (c.transaction_open, c.transaction_continuable)
explicit_lifecycle x = none

abbrev pub has_transaction : Option Handle → Bool
has_transaction none = false
has_transaction (some h) = is_some h.transaction_id

-- `transaction_open`: the flag of the error, or else what the registry says.
unfoldable pub open_flag : CoreError → Option Handle → Bool
unfolding explicit_lifecycle
open_flag x handle = elim (explicit_lifecycle x) [ some (o, k) ↦ o | none ↦ has_transaction handle ]

unfoldable pub continuable_flag : CoreError → Option Handle → Bool
unfolding explicit_lifecycle core_text contains
continuable_flag x handle =
    if contains (core_text x) (codes "handle invalidated")
      || contains (core_text x) (codes "outer transaction aborted")
    then false
    else elim (explicit_lifecycle x) [ some (o, k) ↦ k | none ↦ has_transaction handle ]

abbrev pub is_server_shutdown : CoreError → Bool
is_server_shutdown CoreError.server_shutdown = true
is_server_shutdown _ = false

abbrev pub is_transaction_open : CoreError → Bool
is_transaction_open CoreError.transaction_open = true
is_transaction_open _ = false

abbrev pub is_unknown_handle : CoreError → Bool
is_unknown_handle CoreError.unknown_handle = true
is_unknown_handle _ = false

-- The moves that an error offers.
unfoldable pub error_moves : Text → CoreError → List Text
unfolding next
error_moves tool x =
    if text_eq tool (codes "create_database")
    then []
    else if text_eq tool (codes "close_database") && is_transaction_open x
    then codes "commit" ∷ codes "rollback" ∷ []
    else if is_unknown_handle x
    then []
    else next tool

-- `error`.
unfoldable pub error : Text → CoreError → Option Handle → Envelope
unfolding class_of open_flag continuable_flag error_moves
error tool x handle =
    if is_server_shutdown x
    then record {
      handle_state = none;
      next_moves = [];
      class = codes "SERVER_SHUTDOWN";
      message = codes "server is shutting down";
      transaction_open = false;
      transaction_continuable = false;
    }
    else record {
      handle_state = handle;
      next_moves = error_moves tool x;
      class = class_of x;
      message = core_text x;
      transaction_open = open_flag x handle;
      transaction_continuable = continuable_flag x handle;
    }

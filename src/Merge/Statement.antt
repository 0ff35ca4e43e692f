-- ===== src/Merge/Statement.antt =====
-- merge.rs: the kind of a statement of a merge text, and its execution in an import.
use sqlite_mcp.Prelude.{
  ℕ, zero, suc, ◌-◌, Bool, false, ◌&&◌, ◌||◌, Option, none, some, List, [], ◌∷◌, ◌++◌, leb, ◌==◌,
  if◌then◌else◌, ok, err, length,
}
use sqlite_mcp.Prelude.Text.{Text, codes, text_eq, starts_with}
use sqlite_mcp.Sqlite.{Engine}
use sqlite_mcp.Sql.{Formats}
use sqlite_mcp.Policy.Cursor.{Unicode, is_white}
use sqlite_mcp.Policy.Stored.{accepted, denied, crashed, drop, check_stored_body}
use sqlite_mcp.Policy.Tail.{PolicyError, policy_text, prepare_exact}
use sqlite_mcp.Policy.Signal.{new}
use sqlite_mcp.Worker.Error.{decimal}
use sqlite_mcp.Worker.State.{Session}
use sqlite_mcp.Core.Query.Statement.{Statements}
use sqlite_mcp.Merge.Split.{MergeClass, format_invalid, policy_denied, MergeError}

-- The five answers of `statement_kind`.
pub data StatementKind : Type 0 where
  create insert transaction policy other : StatementKind

-- `u8::is_ascii_whitespace`.
abbrev pub is_ascii_whitespace : ℕ → Bool
is_ascii_whitespace c = c == 32 || c == 9 || c == 10 || c == 12 || c == 13

-- `trim_start_matches` of white space and semicolons.
unfoldable pub trim_front : Text → Text
trim_front [] = []
trim_front (c ∷ s) =
    let rest = trim_front s in if is_ascii_whitespace c || c == b';' then rest else c ∷ s

-- What follows the next newline, if there is one.
unfoldable pub behind_newline : Text → Text
behind_newline [] = []
behind_newline (c ∷ s) = let rest = behind_newline s in if c == b'\n' then s else rest

-- What follows the next end of a block comment.
unfoldable pub behind_close : Text → Text
behind_close [] = []
behind_close (c ∷ []) = []
behind_close (c ∷ d ∷ s) =
    let rest = behind_close (d ∷ s) in if c == b'*' && d == b'/' then s else rest

-- `u8::to_ascii_uppercase`.
unfoldable pub to_ascii_uppercase : Text → Text
to_ascii_uppercase [] = []
to_ascii_uppercase (c ∷ s) = (if leb b'a' c && leb c b'z' then c - 32 else c) ∷ to_ascii_uppercase s

-- The first piece of a split at white space and opening parentheses.
unfoldable pub first_piece : Text → Text
first_piece [] = []
first_piece (c ∷ s) =
    let rest = first_piece s in if is_ascii_whitespace c || c == b'(' then [] else c ∷ rest

unfoldable pub is_one_of : Text → List Text → Bool
unfolding text_eq
is_one_of word [] = false
is_one_of word (w ∷ ws) = text_eq word w || is_one_of word ws

unfoldable pub kind_of : Text → StatementKind
unfolding is_one_of
kind_of word =
    if is_one_of word (codes "CREATE" ∷ [])
    then create
    else if is_one_of word (codes "INSERT" ∷ [])
    then insert
    else if is_one_of word (
        codes "BEGIN"
        ∷ codes "COMMIT"
        ∷ codes "ROLLBACK"
        ∷ codes "SAVEPOINT"
        ∷ codes "RELEASE"
        ∷ [])
    then transaction
    else if is_one_of word (codes "PRAGMA" ∷ codes "ATTACH" ∷ codes "DETACH" ∷ codes "VACUUM" ∷ [])
    then policy
    else other

-- The message of a statement, by its index.
abbrev pub about_statement : Text → ℕ → Text → Text
about_statement before index after = before ++ (decimal index ++ after)

-- How the execution of a statement ends; a guard may panic.
pub data Executed : Type 0 where
  done panicked : Executed
  refused : MergeError → Executed

module _ (u : Unicode) where
  -- `trim_start`.
  unfoldable pub trim_start : Text → Text
  trim_start [] = []
  trim_start (c ∷ s) = let rest = trim_start s in if is_white u c then rest else c ∷ s

  -- The loop over comments; each turn takes a character.
  unfoldable pub skip_comments : ℕ → Text → Text
  unfolding starts_with behind_newline behind_close trim_start drop
  skip_comments zero s = s
  skip_comments (suc fuel) s =
      let behind_line = skip_comments fuel (trim_start (behind_newline (drop 2 s))) in
      let behind_block = skip_comments fuel (trim_start (behind_close (drop 2 s))) in
      if starts_with s (codes "--")
      then behind_line
      else if starts_with s (codes "/*")
      then behind_block
      else s

  unfoldable pub statement_kind : Text → StatementKind
  unfolding skip_comments trim_front first_piece to_ascii_uppercase kind_of
  statement_kind sql =
      let trimmed = trim_front sql in
      kind_of (to_ascii_uppercase (first_piece (skip_comments (suc (length trimmed)) trimmed)))

  -- What the kind of a statement forbids.
  unfoldable pub check_grammar : StatementKind → ℕ → Option MergeError
  check_grammar transaction index = some (record {
    class = policy_denied;
    message = about_statement (codes "transaction control is not allowed in statement ") index [];
  })
  check_grammar policy index = some (record {
    class = policy_denied;
    message = about_statement (codes "statement ") index (codes " is denied by merge policy");
  })
  check_grammar other index = some (record {
    class = format_invalid;
    message = about_statement (codes "statement ") index (codes " is outside the merge grammar");
  })
  check_grammar _ index = none

  -- An error behind the grammar: `statement {index}: {e}`.
  abbrev pub statement_error : MergeClass → ℕ → Text → Executed
  statement_error class index text = refused (record {
    class = class;
    message = about_statement (codes "statement ") index (codes ": " ++ text);
  })

  module _ (e : Engine) (f : Formats) (q : Statements e f) where
    -- The compilation and the run of the statement.
    unfoldable pub run_one : Text → ℕ → Session e → Executed × Session e
    run_one sql index s =
        let (compiled, s1) = q.prepare s sql in
        let ((rows, failed), s2) = q.step s1 sql [] in
        elim compiled [
          | err x ↦ (statement_error policy_denied index x.text, s1)
          | ok names ↦ elim failed [
            | some x ↦ (statement_error policy_denied index x.text, s2)
            | none ↦ (done, s2)
          ]
        ]

    -- `execute_one`. The signal that the guard marks is dropped.
    unfoldable pub execute_one : Text → ℕ → Session e → Executed × Session e
    unfolding statement_kind check_grammar check_stored_body prepare_exact run_one
    execute_one sql index s = elim (check_grammar (statement_kind sql) index) [
      | some x ↦ (refused x, s)
      | none ↦ elim (check_stored_body u sql new).0 [
        | crashed ↦ (panicked, s)
        | denied ↦ (statement_error policy_denied index (policy_text PolicyError.denied), s)
        | accepted ↦ elim (prepare_exact u (q.discover s.conn) sql) [
          | err x ↦ (statement_error format_invalid index (policy_text x), s)
          | ok _ ↦ run_one sql index s
        ]
      ]
    ]

-- ===== src/Merge/Import.antt =====
-- merge.rs: `import`, the replay of a merge text in a database in memory and the output of its image.
-- The answers of the cancellation token are a function of the number of the question.
use sqlite_mcp.Prelude.Text.{Text, codes, text_eq}
use sqlite_mcp.Sqlite.{Engine, SqliteError}
use sqlite_mcp.Policy.Cursor.{Unicode, is_white}
use sqlite_mcp.Worker.State.{Session}
use sqlite_mcp.Disk.{FileSystem, IoError, Io}
use sqlite_mcp.Merge.Split.{
  MergeClass, format_invalid, input_invalid, validation_failed, MergeError,
}
use sqlite_mcp.Merge.Baseline.{Encodings, Baseline, lookup}
use sqlite_mcp.Merge.Paths.{error_of, error_io}
use sqlite_mcp.Merge.Statement.{create, statement_kind, trim_start}
use sqlite_mcp.Prelude.{
  ℕ, Bool, ◌&&◌, ◌||◌, Option, none, some, List, [], ◌∷◌, ◌++◌, ◌==◌, if◌then◌else◌, Result, ok,
  err, is_empty,
}

-- What SQLite does for an import, besides the execution of its statements.
pub record ImportSqlite (e : Engine) (fs : FileSystem) : Type 1 where
  pub open_in_memory : Result (Session e) SqliteError
  -- The registration of the authorizer for a connection that may write.
  pub install_authorizer : Session e → Result (Session e) SqliteError
  -- `PRAGMA foreign_keys`, `BEGIN` and `COMMIT`: the error, if it fails, and the connection after it.
  pub foreign_keys : Bool → Session e → Result (Unit {0}) SqliteError × Session e
  pub begin : Session e → Result (Unit {0}) SqliteError × Session e
  pub commit : Session e → Result (Unit {0}) SqliteError × Session e
  -- The number of rows of `PRAGMA foreign_key_check`, and the first text of `PRAGMA integrity_check`.
  pub foreign_key_check : Session e → Result ℕ SqliteError
  pub integrity_check : Session e → Result Text SqliteError
  pub serialize : Session e → Result (List ℕ) SqliteError
  -- The file that was written, opened for reading only: its journal mode, and the numbers of its
  -- objects and tables, which SQLite counts.
  pub Verify : Type 0
  pub open_read_only : fs.FilePath → Io fs.World SqliteError Verify
  pub journal_mode : Verify → Io fs.World SqliteError Text
  pub object_count : Verify → Io fs.World SqliteError ℕ
  pub table_count : Verify → Io fs.World SqliteError ℕ

pub data OutputState : Type 0 where
  not_created removed uncertain committed : OutputState

-- `ImportResult`; the checks that it reports as passed have constant fields.
pub record ImportResult : Type 0 where
  pub output_path : Text
  pub output_state : OutputState
  pub statement_count : ℕ
  pub byte_count : ℕ
  pub journal_mode : Text
  pub object_count : ℕ
  pub table_count : ℕ

-- `MergeError::import`: the error with its details.
pub record ImportError (fs : FileSystem) : Type 0 where
  pub error : MergeError
  pub output : Option fs.FilePath
  pub state : OutputState
  pub statements : ℕ
  pub bytes : ℕ
  pub cleanup_errors : List Text
  pub root_class : Option MergeClass

-- How the replay stops: with an error, or by a panic.
pub data Stop : Type 0 where
  failed : MergeError → Stop
  crashed : Stop

pub data Imported (fs : FileSystem) : Type 0 where
  success : ImportResult → Imported fs
  failure : ImportError fs → Imported fs
  crash : Imported fs

abbrev pub stop_sqlite : MergeClass → SqliteError → Stop
stop_sqlite class x = failed (error_of class x.text)

abbrev pub stop_sqlite_at : Text → SqliteError → Stop
stop_sqlite_at where' x = failed (error_of validation_failed (where' ++ x.text))

abbrev pub stop_io : IoError → Stop
stop_io x = failed (error_io input_invalid x)

abbrev pub stop_text : Text → Stop
stop_text message = failed (error_of input_invalid message)

-- The third word, if there is one.
abbrev pub third : List Text → Option Text
third (a ∷ b ∷ c ∷ _) = some c
third _ = none

abbrev pub is_quote : ℕ → Bool
is_quote c = c == b'"' || c == b'`' || c == b'[' || c == b']'

-- `trim_matches` of quotes, in front and behind.
unfoldable pub trim_quotes_front : Text → Text
trim_quotes_front [] = []
trim_quotes_front (c ∷ s) = let rest = trim_quotes_front s in if is_quote c then rest else c ∷ s

unfoldable pub trim_quotes_end : Text → Text
trim_quotes_end [] = []
trim_quotes_end (c ∷ s) =
    let rest = trim_quotes_end s in if is_empty rest && is_quote c then [] else c ∷ rest

module _ (u : Unicode) where
  unfoldable pub trim_end : Text → Text
  trim_end [] = []
  trim_end (c ∷ s) = let rest = trim_end s in if is_empty rest && is_white u c then [] else c ∷ rest

  -- `trim`.
  unfoldable pub trim : Text → Text
  unfolding trim_start trim_end
  trim s = trim_end (trim_start u s)

  abbrev pub with_word : Text → List Text → List Text
  with_word [] ws = ws
  with_word (c ∷ w) ws = (c ∷ w) ∷ ws

  -- `split_whitespace`; the first argument is the word so far.
  unfoldable pub words_from : Text → Text → List Text
  words_from word [] = with_word word []
  words_from word (c ∷ s) =
      let ended = words_from [] s in
      let longer = words_from (word ++ (c ∷ [])) s in
      if is_white u c then with_word word ended else longer

  -- The name that a statement is looked up by.
  unfoldable pub created_name : Text → Option Text
  unfolding words_from trim_quotes_front trim_quotes_end
  created_name trimmed = elim (third (words_from [] trimmed)) [
    | none ↦ none
    | some name ↦ some (trim_quotes_end (trim_quotes_front name))
  ]

  -- A CREATE statement that the baseline has under its name has the text that it has there.
  unfoldable pub check_baseline : Encodings → Baseline → Text → Result (Unit {0}) Stop
  unfolding statement_kind trim created_name lookup text_eq
  check_baseline x baseline sql =
      let trimmed = trim sql in
      elim (statement_kind u sql) [
        | create ↦ elim (created_name trimmed) [
          | none ↦ ok tt
          | some name ↦ elim (lookup name baseline) [
            | none ↦ ok tt
            | some expected ↦
                if text_eq expected (x.as_bytes trimmed)
                then ok tt
                else err (
                    failed (
                      error_of format_invalid (
                        codes "schema statement "
                        ++ (x.debug name ++ codes " differs from its baseline"))))
          ]
        ]
        | _ ↦ ok tt
      ]

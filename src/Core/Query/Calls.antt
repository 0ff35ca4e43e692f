-- ===== src/Core/Query/Calls.antt =====
-- core/query.rs: the calls `query`, `query_batch` and `execute_sql_file`, which check the text before
-- the handle is asked for.
use sqlite_mcp.Prelude.{
  ℕ, Bool, true, false, Option, none, some, List, [], ◌∷◌, ltb, if◌then◌else◌, Result, ok, err,
  ◌>>=◌, ◌>>◌, fail_if, length,
}
use sqlite_mcp.Prelude.Text.{Text, codes, utf8_len}
use sqlite_mcp.Prelude.Words.{saturating_add}
use sqlite_mcp.Sqlite.{Engine}
use sqlite_mcp.Sql.{Formats, Cell, Value, validate_with_limit, has_nul}
use sqlite_mcp.Policy.Cursor.{Unicode}
use sqlite_mcp.Policy.Tail.{take}
use sqlite_mcp.Worker.Error.{message}
use sqlite_mcp.Worker.State.{Observed}
use sqlite_mcp.Config.{Config}
use sqlite_mcp.Core.Error.{CoreError, PathError}
use sqlite_mcp.Core.State.{State}
use sqlite_mcp.Core.Query.Statement.{QueryResult, Statements}
use sqlite_mcp.Core.Query.Publish.{limits, execute_batch_admitted}

abbrev pub core_message : Text → CoreError
core_message text = CoreError.worker (message text)

abbrev pub map_err {ℓ} : {A : Type ℓ} {E F : Type 0} → (E → F) → Result A E → Result A F
map_err g (ok a) = ok a
map_err g (err x) = err (g x)

-- The checks and the parameters of `query_with_ct`.
unfoldable pub check_text :
    (f : Formats) → Config → Text → List Cell → Result (List (Value f)) CoreError
unfolding validate_with_limit utf8_len
check_text f config sql params = do
  fail_if (ltb config.sql_byte_limit (utf8_len sql))
      (core_message (codes "SQL exceeds configured byte limit"))
  fail_if (ltb config.parameter_limit (length params)) (core_message (codes "too many parameters"))
  map_err core_message (validate_with_limit f sql params config.parameter_limit)

-- `validate_batch_sql`.
unfoldable pub validate_batch_sql : Config → Text → Result (Unit {0}) CoreError
unfolding utf8_len
validate_batch_sql config sql = do
  fail_if (ltb config.batch_sql_byte_limit (utf8_len sql))
      (core_message (codes "batch SQL exceeds configured byte limit"))
  fail_if (has_nul sql) (core_message (codes "batch SQL contains NUL"))

-- What the file system gives for the path of a file of statements: the path or its error, its text,
-- if it is UTF-8, and the bytes of the file or the error of opening or reading it.
pub record SqlFile : Type 0 where
  pub path : Result (Option Text) PathError
  pub bytes : Result (List ℕ) Text

-- The text of a file: one byte past the limit is read, and refused.
unfoldable pub read_sql : Formats → Config → List ℕ → Result Text CoreError
unfolding take
read_sql f config bytes =
    let got = take (saturating_add config.batch_sql_byte_limit 1) bytes in
    if ltb config.batch_sql_byte_limit (length got)
    then err (core_message (codes "batch SQL exceeds configured byte limit"))
    else elim (f.from_utf8 got) [
      | none ↦ err (core_message (codes "batch SQL file is not valid UTF-8"))
      | some sql ↦ ok sql
    ]

-- The path of a file and its text, as far as they are good.
unfoldable pub load_sql : Formats → Config → SqlFile → Result (Text × Text) CoreError
unfolding read_sql validate_batch_sql
load_sql f config file = elim file.path [
  | err x ↦ err (CoreError.path x)
  | ok none ↦ err (core_message (codes "SQL path is not valid UTF-8"))
  | ok (some path) ↦ elim file.bytes [
    | err x ↦ err (CoreError.io x)
    | ok bytes ↦ read_sql f config bytes >>= λ sql. validate_batch_sql config sql >> ok (path, sql)
  ]
]

-- The first of the results.
abbrev pub first_result : Result (List QueryResult) CoreError → Result QueryResult CoreError
first_result (err x) = err x
first_result (ok []) = err (core_message (codes "SQL is empty"))
first_result (ok (x ∷ xs)) = ok x

abbrev pub with_path :
    Text → Result (List QueryResult) CoreError → Result (Text × List QueryResult) CoreError
with_path path (err x) = err x
with_path path (ok xs) = ok (path, xs)

module _ (e : Engine) (f : Formats) (q : Statements e f) (u : Unicode) (config : Config) where
  -- `query_with_ct`.
  unfoldable pub query :
      State e
      → ℕ
      → Bool
      → Text
      → List Cell
      → Observed
      → Observed
      → Result QueryResult CoreError × State e
  unfolding check_text execute_batch_admitted
  query s id injected sql params o o' = elim (check_text f config sql params) [
    | err x ↦ (err x, s)
    | ok values ↦
        let (r, s') =
          execute_batch_admitted e f q u s id (limits e f q u config true) injected sql values o
            o' in
        (first_result r, s')
  ]

  -- `query_batch_with_ct`.
  unfoldable pub query_batch :
      State e
      → ℕ
      → Bool
      → Text
      → Observed
      → Observed
      → Result (List QueryResult) CoreError × State e
  unfolding validate_batch_sql execute_batch_admitted
  query_batch s id injected sql o o' = elim (validate_batch_sql config sql) [
    | err x ↦ (err x, s)
    | ok _ ↦ execute_batch_admitted e f q u s id (limits e f q u config false) injected sql [] o o'
  ]

  -- `execute_sql_file_with_ct`.
  unfoldable pub execute_sql_file :
      State e
      → ℕ
      → Bool
      → SqlFile
      → Observed
      → Observed
      → Result (Text × List QueryResult) CoreError × State e
  unfolding load_sql execute_batch_admitted
  execute_sql_file s id injected file o o' = elim (load_sql f config file) [
    | err x ↦ (err x, s)
    | ok (path, sql) ↦
        let (r, s') =
          execute_batch_admitted e f q u s id (limits e f q u config false) injected sql [] o o' in
        (with_path path r, s')
  ]

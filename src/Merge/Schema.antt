-- ===== src/Merge/Schema.antt =====
-- merge.rs: `canonical_schema_rows` and `table_metadata`, what an extraction reads of a schema. The
-- text of a statement is UTF-8 in Rust, so the test that refuses other bytes never does.
use sqlite_mcp.Merge.Split.{input_invalid, unrepresentable_content}
use sqlite_mcp.Merge.Paths.{error_of}
use sqlite_mcp.Merge.Literal.{quoted_identifier}
use sqlite_mcp.Merge.Import.{Stop, trim, failed}
use sqlite_mcp.Policy.Cursor.{Unicode}
use sqlite_mcp.Merge.Baseline.{Encodings}
use sqlite_mcp.Sql.{Formats, ValueRef}
use sqlite_mcp.Sqlite.{SqliteError}
use sqlite_mcp.Prelude.Text.{Text, codes, text_eq, eq_ignore_ascii_case}
use sqlite_mcp.Prelude.{
  ℕ, Bool, true, false, not, ◌&&◌, ◌||◌, Option, none, some, List, [], ◌∷◌, ◌++◌, map, ltb, leb,
  ◌==◌, if◌then◌else◌, Result, ok, err, ◌>>=◌, ◌>>◌, fail_if, ok_or, is_empty,
}

-- The rows of a query, each of which may fail.
abbrev pub Rows : Type 0 → Type 0
Rows A = Result (List (Result A SqliteError)) SqliteError

-- What SQLite answers on a connection, inside its transaction, which only reads.
pub record ExtractSqlite (f : Formats) : Type 1 where
  pub Conn : Type 0
  -- Type, name and statement of the objects in `sqlite_schema` that have one and whose names do not
  -- start with `sqlite_`.
  pub schema_rows : Conn → Rows (Text × Text × Text)
  -- `PRAGMA table_list`: name, type, and whether the table is without rowids.
  pub table_list : Conn → Rows (Text × Text × ℕ)
  -- `PRAGMA table_xinfo` of a quoted name: name, declared type, place in the key, and hidden.
  pub table_xinfo : Conn → Text → Rows (Text × Text × ℕ × ℕ)
  -- The rows of a SELECT, each with its values.
  pub select_rows : Conn → Text → Rows (List (Result (ValueRef f) SqliteError))

pub data SchemaClass : Type 0 where
  table index view trigger : SchemaClass

abbrev pub class_text : SchemaClass → Text
class_text table = codes "table"
class_text index = codes "index"
class_text view = codes "view"
class_text trigger = codes "trigger"

-- No other class stands in the rows that are sorted.
unfoldable pub class_rank : SchemaClass → ℕ
class_rank table = 0
class_rank index = 1
class_rank view = 2
class_rank trigger = 3

-- An object of the schema: its class, its name, and its statement with a semicolon.
pub record SchemaRow : Type 0 where
  pub class : SchemaClass
  pub name : Text
  pub sql : Text

unfoldable pub schema_class : Text → Option SchemaClass
unfolding text_eq
schema_class kind =
    if text_eq kind (codes "table")
    then some table
    else if text_eq kind (codes "index")
    then some index
    else if text_eq kind (codes "view")
    then some view
    else if text_eq kind (codes "trigger")
    then some trigger
    else none

-- `trim_end_matches(';')`.
unfoldable pub trim_semicolons : Text → Text
trim_semicolons [] = []
trim_semicolons (c ∷ s) =
    let rest = trim_semicolons s in if is_empty rest && c == b';' then [] else c ∷ rest

-- `cmp` of bytes: whether the first is at most the second.
unfoldable pub bytes_le : List ℕ → List ℕ → Bool
bytes_le [] bs = true
bytes_le (a ∷ as') [] = false
bytes_le (a ∷ as') (b ∷ bs) = ltb a b || (a == b && bytes_le as' bs)

abbrev pub sqlite_stop : SqliteError → Stop
sqlite_stop y = failed (error_of input_invalid y.text)

abbrev pub or_stop : {A : Type 0} → Result A SqliteError → Result A Stop
or_stop (ok a) = ok a
or_stop (err y) = err (sqlite_stop y)

module _ (x : Encodings) where
  -- The order of the rows, as `sort_by` asks for it: the first is not behind the second.
  unfoldable pub row_le : SchemaRow → SchemaRow → Bool
  unfolding class_rank bytes_le
  row_le a b =
      let names_agree = bytes_le (x.as_bytes b.name) (x.as_bytes a.name) in
      let name_below = bytes_le (x.as_bytes a.name) (x.as_bytes b.name) && not names_agree in
      let name_same = bytes_le (x.as_bytes a.name) (x.as_bytes b.name) && names_agree in
      ltb (class_rank a.class) (class_rank b.class)
      || (class_rank a.class == class_rank b.class
          && (name_below || (name_same && bytes_le (x.as_bytes a.sql) (x.as_bytes b.sql))))

  unfoldable pub insert_row : SchemaRow → List SchemaRow → List SchemaRow
  unfolding row_le
  insert_row a [] = a ∷ []
  insert_row a (b ∷ rows) =
      let rest = insert_row a rows in if row_le a b then a ∷ b ∷ rows else b ∷ rest

  -- A stable sort.
  unfoldable pub sort_rows : List SchemaRow → List SchemaRow
  unfolding insert_row
  sort_rows [] = []
  sort_rows (a ∷ rows) = insert_row a (sort_rows rows)

  -- The loop over the rows.
  unfoldable pub collect_rows :
      List (Result (Text × Text × Text) SqliteError) → Result (List SchemaRow) Stop
  unfolding schema_class trim_semicolons
  collect_rows [] = ok []
  collect_rows (row ∷ rows) = do
    (kind, name, sql) ← or_stop row
    rest ← collect_rows rows
    ok (elim (schema_class kind) [
      | none ↦ rest
      | some class ↦
          record { class = class; name = name; sql = trim_semicolons sql ++ codes ";" } ∷ rest
    ])

  module _ (f : Formats) (sqlite : ExtractSqlite f) where
    unfoldable pub canonical_schema_rows : sqlite.Conn → Result (List SchemaRow) Stop
    unfolding collect_rows sort_rows
    canonical_schema_rows conn = do
      rows ← or_stop (sqlite.schema_rows conn)
      result ← collect_rows rows
      ok (sort_rows result)

-- The kind of a table in the list, and whether it is without rowids.
unfoldable pub find_table :
    Text → List (Result (Text × Text × ℕ) SqliteError) → Result (Option (Text × Bool)) Stop
unfolding text_eq
find_table table' [] = ok none
find_table table' (err y ∷ rows) = err (sqlite_stop y)
find_table table' (ok (name, kind, wr) ∷ rows) =
    let rest = find_table table' rows in
    if text_eq name table' then ok (some (kind, not (wr == 0))) else rest

-- What `table_metadata` gives.
pub record TableMetadata : Type 0 where
  pub without_rowid : Bool
  pub columns : List Text
  pub integer_primary_key : Bool
  pub primary_key : List Text

-- The primary key is sorted by the places of its columns, which the sort leaves in order where they
-- are the same.
unfoldable pub insert_key : ℕ → Text → List (ℕ × Text) → List (ℕ × Text)
insert_key p name [] = (p, name) ∷ []
insert_key p name ((place, other) ∷ keys) =
    let rest = insert_key p name keys in
    if leb p place then (p, name) ∷ (place, other) ∷ keys else (place, other) ∷ rest

module _ (u : Unicode) where
  -- The columns that are not hidden, the key by place, and whether it is one integer.
  unfoldable pub read_columns :
      List (Result (Text × Text × ℕ × ℕ) SqliteError)
      → Result (List Text × List (ℕ × Text) × Bool) Stop
  unfolding insert_key eq_ignore_ascii_case trim
  read_columns [] = ok ([], [], false)
  read_columns (row ∷ rows) = do
    (name, declared_type, pk, hidden) ← or_stop row
    (names, key, integer) ← read_columns rows
    ok (
      if hidden == 0 then name ∷ names else names,
      if ltb 0 pk then insert_key pk name key else key,
      integer
          || (pk == 1
              && hidden == 0
              && eq_ignore_ascii_case (trim u declared_type) (codes "INTEGER")),
    )

  -- `quoted_identifier` as an extraction reports it.
  abbrev pub identifier : Encodings → Text → Result Text Stop
  identifier x name = elim (quoted_identifier name) [
    | ok quoted' ↦ ok quoted'
    | err _ ↦ err (
        failed
          (error_of unrepresentable_content (codes "identifier contains NUL: " ++ x.debug name)))
  ]

  module _ (x : Encodings) (f : Formats) (sqlite : ExtractSqlite f) where
    unfoldable pub table_metadata : sqlite.Conn → Text → Result TableMetadata Stop
    unfolding find_table text_eq read_columns quoted_identifier
    table_metadata conn table' = do
      list ← or_stop (sqlite.table_list conn)
      found ← find_table table' list
      (kind, without_rowid) ← ok_or found (
          failed (
            error_of input_invalid
              (codes "table " ++ (x.debug table' ++ codes " is missing from table_list"))))
      fail_if (not (text_eq kind (codes "table"))) (
          failed (
            error_of unrepresentable_content
              (codes "virtual table " ++ (x.debug table' ++ codes " is unsupported"))))
      quoted' ← identifier x table'
      rows ← or_stop (sqlite.table_xinfo conn quoted')
      (names, key, integer) ← read_columns rows
      ok (record {
        without_rowid = without_rowid;
        columns = names;
        integer_primary_key = integer;
        primary_key = map (λ entry. entry.1) key;
      })

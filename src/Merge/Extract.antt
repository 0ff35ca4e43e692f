-- ===== src/Merge/Extract.antt =====
-- merge.rs: `extract_one`, which writes the merge text of a database.
use sqlite_mcp.Sqlite.{SqliteError}
use sqlite_mcp.Merge.Literal.{value_literal, quoted_identifier}
use sqlite_mcp.Policy.Cursor.{Unicode}
use sqlite_mcp.Worker.Error.{decimal}
use sqlite_mcp.Merge.Split.{limit_exceeded, unrepresentable_content, format_header}
use sqlite_mcp.Merge.Baseline.{Encodings, record_header, baseline_header, end_marker}
use sqlite_mcp.Merge.Paths.{error_of}
use sqlite_mcp.Prelude.Text.{Text, codes}
use sqlite_mcp.Merge.Schema.{
  ExtractSqlite, SchemaRow, table, class_text, TableMetadata, table_metadata, canonical_schema_rows,
  identifier, or_stop,
}
use sqlite_mcp.Merge.Import.{Stop, failed, crashed}
use sqlite_mcp.Sql.{
  Formats, ValueRef, null_ref, integer_ref, real_ref, text_ref, blob_ref, i64_to_string, has_nul,
}
use sqlite_mcp.Prelude.{
  ℕ, ◌+◌, Bool, true, false, not, ◌||◌, none, some, List, [], ◌∷◌, ◌++◌, map, leb, if◌then◌else◌,
  Result, ok, err, ◌>>=◌, ◌>>◌, fail_if, length, is_empty,
}

-- The JSON values of `typed_value`, by their kinds.
pub data TypedValue : Type 0 where
  typed_null : TypedValue
  typed_integer typed_real typed_text typed_blob : Text → TypedValue

-- What the standard library and `serde_json` give: the bits of a number in hexadecimal, and the JSON
-- text of typed values.
pub record TypedFormats (f : Formats) : Type 0 where
  pub real_bits : f.Real → Text
  pub values_json : List TypedValue → Text

-- `join(",")`.
unfoldable pub join_commas : List Text → Text
join_commas [] = []
join_commas (s ∷ []) = s
join_commas (s ∷ t ∷ ts) = s ++ (b',' ∷ join_commas (t ∷ ts))

-- `unwrap_or_else(|_| "\"\"".into())`.
abbrev pub or_empty : Result Text Text → Text
or_empty (ok s) = s
or_empty (err _) = b'"' ∷ b'"' ∷ []

abbrev pub or_crash : Result Text Text → Result Text Stop
or_crash (ok s) = ok s
or_crash (err _) = err crashed

abbrev pub is_table : SchemaRow → Bool
is_table row = elim row.class [ table ↦ true | _ ↦ false ]

abbrev pub limit_error : Stop
limit_error = failed (error_of limit_exceeded (codes "merge statement limit exceeded"))

-- The line of a schema statement.
abbrev pub onto_line : Text → Text
onto_line sql = sql ++ (b'\n' ∷ [])

module _ (x : Encodings) where
  -- A record of the baseline, and all of them.
  unfoldable pub record_line : SchemaRow → Text
  record_line row =
      record_header
      ++ (codes "kind="
          ++ (class_text row.class
              ++ (codes " name_b64="
                  ++ (x.b64 (x.as_bytes row.name)
                      ++ (codes " sql_sha256="
                          ++ (x.schema_digest (x.as_bytes row.sql)
                              ++ (codes " sql_bytes="
                                  ++ (x.b64 (x.as_bytes row.sql) ++ codes "\n"))))))))

  unfoldable pub record_lines : List SchemaRow → Text
  unfolding record_line
  record_lines [] = []
  record_lines (row ∷ rows) = record_line row ++ record_lines rows

  -- The baseline, from its header to its end.
  unfoldable pub baseline_text : List SchemaRow → Text
  unfolding record_lines decimal
  baseline_text schemas =
      baseline_header
      ++ (decimal (length schemas) ++ (codes "\n" ++ (record_lines schemas ++ end_marker)))

  module _ (f : Formats) (t : TypedFormats f) where
    unfoldable pub typed_value : ValueRef f → Result TypedValue Text
    typed_value null_ref = ok typed_null
    typed_value (integer_ref v) = ok (typed_integer (i64_to_string v))
    typed_value (real_ref v) = ok (typed_real (t.real_bits v))
    typed_value (text_ref bytes) = elim (x.from_utf8 bytes) [
      | none ↦ err (codes "TEXT is not valid UTF-8")
      | some s ↦
          if has_nul bytes
          then err (codes "TEXT contains NUL")
          else ok (typed_text (x.b64 (x.as_bytes s)))
    ]
    typed_value (blob_ref bytes) = ok (typed_blob (x.b64 bytes))

    module _ (u : Unicode) (sqlite : ExtractSqlite f) where
      -- An error of a value: `{label}.{name} row {ordinal}: {message}`.
      abbrev pub or_unrepresentable : {A : Type 0} → Text → Text → ℕ → Result A Text → Result A Stop
      or_unrepresentable label name ordinal (ok a) = ok a
      or_unrepresentable label name ordinal (err message) = err (
          failed (
            error_of unrepresentable_content (
              label
              ++ (codes "."
                  ++ (name ++ (codes " row " ++ (decimal ordinal ++ (codes ": " ++ message))))))))

      -- The literals and the typed values of a row.
      unfoldable pub row_values :
          Text
          → Text
          → ℕ
          → List (Result (ValueRef f) SqliteError)
          → Result (List Text × List TypedValue) Stop
      unfolding value_literal typed_value
      row_values label name ordinal [] = ok ([], [])
      row_values label name ordinal (value ∷ values) = do
        v ← or_stop value
        literal ← or_unrepresentable label name ordinal (value_literal f v)
        typed ← or_unrepresentable label name ordinal (typed_value v)
        (literals, typeds) ← row_values label name ordinal values
        ok (literal ∷ literals, typed ∷ typeds)

      -- The columns of an insertion; a name with a NUL is a panic.
      unfoldable pub quote_all : List Text → Result (List Text) Stop
      unfolding quoted_identifier
      quote_all [] = ok []
      quote_all (c ∷ cs) = do q ← or_crash (quoted_identifier c); qs ← quote_all cs; ok (q ∷ qs)

      -- Whether the rows have no rowid to be written.
      abbrev pub has_no_rowid : TableMetadata → Bool
      has_no_rowid m = m.without_rowid || m.integer_primary_key

      abbrev pub with_rowid : TableMetadata → List Text → List Text
      with_rowid m columns = if has_no_rowid m then columns else codes "rowid" ∷ columns

      -- The two lines of a row.
      unfoldable pub row_text : Text → Text → ℕ → Text → List Text → List TypedValue → Text
      unfolding join_commas
      row_text name qname ordinal insert_columns literals typed =
          codes "-- sqlite-mcp typed-value: v1 table_b64="
          ++ (x.b64 (x.as_bytes name)
              ++ (codes " row="
                  ++ (decimal ordinal
                      ++ (codes " values_b64="
                          ++ (x.b64 (x.as_bytes (t.values_json typed))
                              ++ (codes "\nINSERT INTO "
                                  ++ (qname
                                      ++ (codes " ("
                                          ++ (insert_columns
                                              ++ (codes ") VALUES ("
                                                  ++ (join_commas literals
                                                      ++ codes ");\n")))))))))))

      module _ (label : Text) (limit : ℕ) where
        -- The loop over the rows of a table: their text, and the number of statements with them.
        unfoldable pub extract_rows :
            Text
            → Text
            → TableMetadata
            → ℕ
            → ℕ
            → List (Result (List (Result (ValueRef f) SqliteError)) SqliteError)
            → Result (Text × ℕ) Stop
        unfolding row_values quote_all row_text
        extract_rows name qname m count ordinal [] = ok ([], count)
        extract_rows name qname m count ordinal (row ∷ rows) = do
          r ← or_stop row
          fail_if (leb limit count) limit_error
          (literals, typed) ← row_values label name ordinal r
          columns ← quote_all m.columns
          let written =
              row_text name qname ordinal (join_commas (with_rowid m columns)) literals typed
          (rest, n) ← extract_rows name qname m (count + 1) (ordinal + 1) rows
          ok (written ++ rest, n)

        -- The order of the rows; a key without columns has none.
        unfoldable pub order_by : Text → TableMetadata → Result Text Stop
        unfolding join_commas quoted_identifier
        order_by name m =
            let order = join_commas (map (λ c. or_empty (quoted_identifier c)) m.primary_key) in
            if not m.without_rowid
            then ok (codes " ORDER BY rowid")
            else if is_empty order
            then err (
                failed (
                  error_of unrepresentable_content (
                    codes "WITHOUT ROWID table "
                    ++ (x.debug name ++ codes " has no deterministic primary key"))))
            else ok (codes " ORDER BY " ++ order)

        abbrev pub select : TableMetadata → Text → Text → Text
        select m qname order =
            let columns = map (λ c. or_empty (quoted_identifier c)) m.columns in
            codes "SELECT "
            ++ (join_commas (with_rowid m columns) ++ (codes " FROM " ++ (qname ++ order)))

        -- A table: its statement and its rows.
        unfoldable pub extract_table : sqlite.Conn → SchemaRow → ℕ → Result (Text × ℕ) Stop
        unfolding table_metadata order_by extract_rows join_commas quoted_identifier
        extract_table conn row count = do
          m ← table_metadata u x f sqlite conn row.name
          qname ← identifier u x row.name
          order ← order_by row.name m
          rows ← or_stop (sqlite.select_rows conn (select m qname order))
          (written, n) ← extract_rows row.name qname m count 0 rows
          ok (onto_line row.sql ++ written, n)

        -- The tables come first; the other objects are passed over.
        unfoldable pub extract_tables : sqlite.Conn → List SchemaRow → ℕ → Result (Text × ℕ) Stop
        unfolding extract_table
        extract_tables conn [] count = ok ([], count)
        extract_tables conn (row ∷ rows) count =
            let others = extract_tables conn rows count in
            if is_table row
            then (do
              (written, n) ← extract_table conn row count
              (rest, total) ← extract_tables conn rows n
              ok (written ++ rest, total))
            else others

        -- The objects that are no tables, each counted once more.
        unfoldable pub extract_others : List SchemaRow → ℕ → Result (Text × ℕ) Stop
        extract_others [] count = ok ([], count)
        extract_others (row ∷ rows) count =
            let skipped = extract_others rows count in
            if is_table row then skipped else (do
              fail_if (leb limit count) limit_error
              (rest, total) ← extract_others rows (count + 1)
              ok (onto_line row.sql ++ rest, total))

        -- The text of a schema that is not empty, with its count.
        unfoldable pub extract_schema : sqlite.Conn → List SchemaRow → Result (Text × ℕ) Stop
        unfolding baseline_text extract_tables extract_others
        extract_schema conn schemas = do
          (tables, n) ← extract_tables conn schemas (length schemas)
          (others, total) ← extract_others schemas n
          ok (format_header ++ (baseline_text schemas ++ (tables ++ others)), total)

        -- `extract_one`: the text, and the count that it returns.
        unfoldable pub extract_one : sqlite.Conn → Result (Text × ℕ) Stop
        unfolding canonical_schema_rows extract_schema
        extract_one conn = do
          schemas ← canonical_schema_rows x f sqlite conn
          if is_empty schemas then ok (format_header, 0) else extract_schema conn schemas

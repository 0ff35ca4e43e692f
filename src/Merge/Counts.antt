-- ===== src/Merge/Counts.antt =====
-- merge.rs: `extract_one`, what it counts.
use sqlite_mcp.Merge.Import.{Stop}
use sqlite_mcp.Prelude.Text.{Text}
use sqlite_mcp.Policy.Cursor.{Unicode}
use sqlite_mcp.Sql.{Formats}
use sqlite_mcp.Merge.Baseline.{Encodings}
use sqlite_mcp.Merge.Schema.{SchemaRow, ExtractSqlite, table_metadata, identifier, or_stop}
use sqlite_mcp.Merge.Extract.{
  extract_others, extract_schema, is_table, limit_error, TypedFormats, extract_tables, extract_rows,
  extract_table, row_values, quote_all, order_by, select,
}
use sqlite_mcp.Merge.Schema.{TableMetadata}
use sqlite_mcp.Sql.{ValueRef}
use sqlite_mcp.Sqlite.{SqliteError}
use sqlite_mcp.Prelude.{
  err, ◌>>=◌, ℕ, ◌+◌, ◌≤◌, ◌≡◌, refl, inl, inr, ◌⊎◌, List, [], ◌∷◌, arith, if◌then◌else◌,
  Bool-cases, ok, Result, length, then-ok, fail_if, fail_if-ok, leb, false,
}

-- The number of objects that are no tables.
abbrev pub others : List SchemaRow → ℕ
others [] = 0
others (row ∷ rows) = if is_table row then others rows else others rows + 1

module _ (x : Encodings) (f : Formats) (t : TypedFormats f) (u : Unicode) (sqlite : ExtractSqlite f)
    (label : Text) (limit : ℕ) where
  -- A text with a count, made longer.
  then_count :
      (m : Result (Text × ℕ) Stop) (longer : Text → Text) {text : Text} {n : ℕ}
      → ◌>>=◌ {B = Text × ℕ} m (λ (rest, k). ok (longer rest, k)) ≡ ok (text, n)
      → (rest : Text) × (m ≡ ok (rest, n))
  then_count (ok (rest, k)) longer h = (rest, ground (arith, h))
  then_count (err y) longer h = absurd (cc h)

  extract_rows_count :
      (name qname : Text) (m : TableMetadata) (count ordinal : ℕ)
      (rows : List (Result (List (Result (ValueRef f) SqliteError)) SqliteError)) (text : Text)
      (n : ℕ)
      → extract_rows x f t u sqlite label limit name qname m count ordinal rows ≡ ok (text, n)
      → n ≡ count + length rows
  unfolding extract_rows
  extract_rows_count name qname m count ordinal [] text n h = ground (arith, h)
  extract_rows_count name qname m count ordinal (err y ∷ rows) text n h = absurd (cc h)
  extract_rows_count name qname m count ordinal (ok r ∷ rows) text n h =
      elim (Bool-cases (leb limit count)) [
        | inl full ↦ absurd (cc (rw full at h))
        | inr room ↦
            then-ok (row_values x f t u sqlite label name ordinal r) _ (rw room at h)
              λ values e3 h3. then-ok (quote_all x f t u sqlite m.columns) _ h3 λ columns e4 h4.
                let (rest, e5) =
                  then_count
                    (extract_rows x f t u sqlite label limit name qname m (count + 1) (ordinal + 1)
                      rows)
                    _ h4 in
                omega
                  (arith, extract_rows_count name qname m (count + 1) (ordinal + 1) rows rest n e5)
      ]

  extract_table_count :
      (conn : sqlite.Conn) (row : SchemaRow) (count : ℕ) (text : Text) (n : ℕ)
      → extract_table x f t u sqlite label limit conn row count ≡ ok (text, n)
      → count ≤ n
  unfolding extract_table
  extract_table_count conn row count text n h =
      then-ok (table_metadata u x f sqlite conn row.name) _ h λ m e1 h1.
        then-ok (identifier u x row.name) _ h1 λ qname e2 h2.
          then-ok (order_by x f t u sqlite label limit row.name m) _ h2 λ order e3 h3.
            then-ok
              (or_stop (sqlite.select_rows conn (select x f t u sqlite label limit m qname order)))
              _ h3
              λ rows e4 h4.
                let (rest, e5) =
                  then_count (extract_rows x f t u sqlite label limit row.name qname m count 0 rows)
                    _ h4 in
                omega (arith, extract_rows_count row.name qname m count 0 rows rest n e5)

  extract_tables_count :
      (conn : sqlite.Conn) (rows : List SchemaRow) (count : ℕ) (text : Text) (n : ℕ)
      → extract_tables x f t u sqlite label limit conn rows count ≡ ok (text, n)
      → count ≤ n
  unfolding extract_tables
  extract_tables_count conn [] count text n h = ground (arith, h)
  extract_tables_count conn (row ∷ rows) count text n h = elim (Bool-cases (is_table row)) [
    | inr no' ↦ extract_tables_count conn rows count text n (ground (arith, no', h))
    | inl yes' ↦ then-ok _ _ (rw yes' at h) λ r e1 h1.
        let (rest, e2) =
          then_count (extract_tables x f t u sqlite label limit conn rows r.1) _ h1 in
        omega (
          arith,
          extract_table_count conn row count r.0 r.1 e1,
          extract_tables_count conn rows r.1 rest n e2,
        )
  ]

  -- Each object that is no table is counted, and the count is checked before.
  extract_others_count :
      (rows : List SchemaRow) (count : ℕ) (text : Text) (n : ℕ)
      → extract_others x f t u sqlite label limit rows count ≡ ok (text, n)
      → (n ≡ count + others rows) × ((others rows ≡ 0) ⊎ (n ≤ limit))
  unfolding extract_others
  extract_others_count [] count text n h = (ground (arith, h), inl refl)
  extract_others_count (row ∷ rows) count text n h = elim (Bool-cases (is_table row)) [
    | inl yes' ↦ ground (arith, yes', h, extract_others_count rows count text n)
    | inr no' ↦ then-ok (fail_if (leb limit count) limit_error) _ (rw no' at h) λ _ e1 h1.
        let (rest, e2) =
          then_count (extract_others x f t u sqlite label limit rows (count + 1)) _ h1 in
        let room : leb limit count ≡ false = fail_if-ok (leb limit count) limit_error e1 in
        let (counted, fits) = extract_others_count rows (count + 1) rest n e2 in
        ground (arith, no', room, counted, fits)
  ]

  -- An extraction of a schema that succeeds answers a count in which each object is counted once and
  -- each one that is no table, thus an index, a view or a trigger, a second time, though each is one
  -- statement of the text; and if there is such an object, this count fits the limit.
  pub extract_schema_count :
      (conn : sqlite.Conn) (schemas : List SchemaRow) (text : Text) (total : ℕ)
      → extract_schema x f t u sqlite label limit conn schemas ≡ ok (text, total)
      → (length schemas + others schemas ≤ total) × ((others schemas ≡ 0) ⊎ (total ≤ limit))
  unfolding extract_schema
  extract_schema_count conn schemas text total h = then-ok _ _ h λ tables e1 h1.
      then-ok _ _ h1 λ rest e2 h2.
        let more = extract_tables_count conn schemas (length schemas) tables.0 tables.1 e1 in
        let (counted, fits) = extract_others_count schemas tables.1 rest.0 rest.1 e2 in
        ground (arith, more, counted, fits, h2)

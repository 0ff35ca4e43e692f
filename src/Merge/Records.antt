-- ===== src/Merge/Records.antt =====
-- merge.rs: the records of a baseline are read back from where an extraction writes them.
use sqlite_mcp.Merge.Extract.{record_line, record_lines}
use sqlite_mcp.Merge.Lines.{
  Lacks, strip_prefix-append, Lacks-append, split_spaces-append, split_spaces_whole, Lacks-test,
  Lacks-behind, split_line-append,
}
use sqlite_mcp.Merge.Schema.{SchemaRow, SchemaClass, class_text}
use sqlite_mcp.Prelude.Text.{Text, codes, text_eq_refl}
use mathlib.Core.List.{append_assoc}
use sqlite_mcp.Merge.Schema.{table, index, view, trigger}
use sqlite_mcp.Merge.Baseline.{
  Encodings, read_record, read_records, read_fields, split_spaces, fields_of, record_header,
  strip_prefix, Baseline, split_line,
}
use sqlite_mcp.Prelude.{
  ℕ, suc, ◌≡◌, refl, sym, ap, ◌∙◌, some, List, [], ◌∷◌, ◌++◌, map, ok, length, subst,
}

module _ (x : Encodings) where
  -- What the crates promise: base64 and UTF-8 are read back, and the texts of base64 and of a digest
  -- have neither spaces nor newlines.
  pub record IsLossless : Type 0 where
    pub b64_back : (bytes : List ℕ) → x.from_b64 (x.b64 bytes) ≡ some bytes
    pub utf8_back : (s : Text) → x.from_utf8 (x.as_bytes s) ≡ some s
    pub b64_space : (bytes : List ℕ) → Lacks b' ' (x.b64 bytes)
    pub b64_newline : (bytes : List ℕ) → Lacks b'\n' (x.b64 bytes)
    pub digest_space : (bytes : List ℕ) → Lacks b' ' (x.schema_digest bytes)
    pub digest_newline : (bytes : List ℕ) → Lacks b'\n' (x.schema_digest bytes)

  -- The entry of an object in the map.
  abbrev pub entry : SchemaRow → Text × List ℕ
  entry row = (row.name, x.as_bytes row.sql)

  -- The map behind some records, the last first.
  abbrev pub entries : List SchemaRow → Baseline → Baseline
  entries [] found = found
  entries (row ∷ rows) found = entries rows (entry row ∷ found)

  -- A record without its newline and without its header.
  abbrev payload : SchemaRow → Text
  payload row =
      codes "kind="
      ++ (class_text row.class
          ++ (codes " name_b64="
              ++ (x.b64 (x.as_bytes row.name)
                  ++ (codes " sql_sha256="
                      ++ (x.schema_digest (x.as_bytes row.sql)
                          ++ (codes " sql_bytes=" ++ x.b64 (x.as_bytes row.sql)))))))

  -- `name=value`.
  abbrev item : Text → Text → Text
  item k v = k ++ (b'=' ∷ v)

  class_space : (c : SchemaClass) → Lacks b' ' (class_text c) × Lacks b'\n' (class_text c)
  class_space table =
      (Lacks-test b' ' (class_text table) refl, Lacks-test b'\n' (class_text table) refl)
  class_space index =
      (Lacks-test b' ' (class_text index) refl, Lacks-test b'\n' (class_text index) refl)
  class_space view =
      (Lacks-test b' ' (class_text view) refl, Lacks-test b'\n' (class_text view) refl)
  class_space trigger =
      (Lacks-test b' ' (class_text trigger) refl, Lacks-test b'\n' (class_text trigger) refl)

  module _ (lossless : IsLossless) where
    payload_items :
        (row : SchemaRow)
        → split_spaces (payload row)
          ≡ item (codes "kind") (class_text row.class)
            ∷ item (codes "name_b64") (x.b64 (x.as_bytes row.name))
            ∷ item (codes "sql_sha256") (x.schema_digest (x.as_bytes row.sql))
            ∷ item (codes "sql_bytes") (x.b64 (x.as_bytes row.sql))
            ∷ []
    payload_items row =
        let kind = item (codes "kind") (class_text row.class) in
        let name = item (codes "name_b64") (x.b64 (x.as_bytes row.name)) in
        let digest = item (codes "sql_sha256") (x.schema_digest (x.as_bytes row.sql)) in
        let sql = item (codes "sql_bytes") (x.b64 (x.as_bytes row.sql)) in
        let lacks_kind : Lacks b' ' kind =
          Lacks-behind b' ' (codes "kind=") (class_text row.class) refl (class_space row.class).0 in
        let lacks_name : Lacks b' ' name =
          Lacks-behind b' ' (codes "name_b64=") (x.b64 (x.as_bytes row.name)) refl
            (lossless.b64_space _) in
        let lacks_digest : Lacks b' ' digest =
          Lacks-behind b' ' (codes "sql_sha256=") (x.schema_digest (x.as_bytes row.sql)) refl
            (lossless.digest_space _) in
        let lacks_sql : Lacks b' ' sql =
          Lacks-behind b' ' (codes "sql_bytes=") (x.b64 (x.as_bytes row.sql)) refl
            (lossless.b64_space _) in
        split_spaces-append kind _ lacks_kind
        ∙ ap (λ l. kind ∷ l)
            (split_spaces-append name _ lacks_name
              ∙ ap (λ l. name ∷ l)
                  (split_spaces-append digest _ lacks_digest
                    ∙ ap (λ l. digest ∷ l) (split_spaces_whole sql lacks_sql)))

    fields_back :
        (a b c d : Text)
        → fields_of
            (item (codes "kind") a
              ∷ item (codes "name_b64") b
              ∷ item (codes "sql_sha256") c
              ∷ item (codes "sql_bytes") d
              ∷ [])
            []
          ≡ ok (
              (codes "sql_bytes", d)
              ∷ (codes "sql_sha256", c)
              ∷ (codes "name_b64", b)
              ∷ (codes "kind", a)
              ∷ [])
    unfolding fields_of
    fields_back a b c d = refl

    read_fields-entry :
        (row : SchemaRow) (kind : Text)
        → read_fields x (
            (codes "sql_bytes", x.b64 (x.as_bytes row.sql))
            ∷ (codes "sql_sha256", x.schema_digest (x.as_bytes row.sql))
            ∷ (codes "name_b64", x.b64 (x.as_bytes row.name))
            ∷ (codes "kind", kind)
            ∷ [])
          ≡ ok (entry row)
    unfolding read_fields
    read_fields-entry row kind =
        rw
          (
            lossless.b64_back (x.as_bytes row.name),
            lossless.utf8_back row.name,
            lossless.b64_back (x.as_bytes row.sql),
            text_eq_refl (x.schema_digest (x.as_bytes row.sql)),
          )
          refl

    read_record_lem :
        (line p : Text) (items : List Text) (fields : List (Text × Text))
        → strip_prefix record_header line ≡ some p
        → split_spaces p ≡ items
        → fields_of items [] ≡ ok fields
        → read_record x line ≡ read_fields x fields
    unfolding read_record
    read_record_lem line p items fields h g k = rw (h, g, k) refl

    read_record-payload :
        (row : SchemaRow) → read_record x (record_header ++ payload row) ≡ ok (entry row)
    read_record-payload row =
        read_record_lem _ (payload row) _ _ (strip_prefix-append record_header (payload row))
          (payload_items row) (fields_back _ _ _ _)
        ∙ read_fields-entry row (class_text row.class)

    payload_newline : (row : SchemaRow) → Lacks b'\n' (payload row)
    payload_newline row =
        let sql = x.b64 (x.as_bytes row.sql) in
        let sql' = codes " sql_bytes=" ++ sql in
        let digest = x.schema_digest (x.as_bytes row.sql) in
        let digest' = codes " sql_sha256=" ++ (digest ++ sql') in
        let name = x.b64 (x.as_bytes row.name) in
        let name' = codes " name_b64=" ++ (name ++ digest') in
        let kind = class_text row.class in
        Lacks-behind b'\n' (codes "kind=") (kind ++ name') refl (
          Lacks-append b'\n' kind name' (class_space row.class).1 (
            Lacks-behind b'\n' (codes " name_b64=") (name ++ digest') refl (
              Lacks-append b'\n' name digest' (lossless.b64_newline _) (
                Lacks-behind b'\n' (codes " sql_sha256=") (digest ++ sql') refl (
                  Lacks-append b'\n' digest sql' (lossless.digest_newline _) (
                    Lacks-behind b'\n' (codes " sql_bytes=") sql refl (lossless.b64_newline _)))))))

    record_line_lem :
        (row : SchemaRow) (rest : Text)
        → record_line x row ++ rest ≡ (record_header ++ payload row) ++ (b'\n' ∷ rest)
    unfolding record_line
    record_line_lem row rest = simp (append_assoc)

    read_records_step :
        (count : ℕ) (text line rest : Text) (map : Baseline) (e : Text × List ℕ)
        → split_line text ≡ some (line, rest)
        → read_record x line ≡ ok e
        → read_records x (suc count) text map ≡ read_records x count rest (e ∷ map)
    unfolding read_records
    read_records_step count text line rest map e h g = rw (h, g) refl

    next_record :
        (row : SchemaRow) (rest : Text)
        → split_line (record_line x row ++ rest) ≡ some (record_header ++ payload row, rest)
    next_record row rest =
        subst (λ t. split_line t ≡ some (record_header ++ payload row, rest))
          (sym (record_line_lem row rest))
          (split_line-append (record_header ++ payload row) rest
            (Lacks-behind b'\n' record_header (payload row) refl (payload_newline row)))

    records_assoc :
        (row : SchemaRow) (rows : List SchemaRow) (rest : Text)
        → record_lines x (row ∷ rows) ++ rest ≡ record_line x row ++ (record_lines x rows ++ rest)
    unfolding record_lines
    records_assoc row rows rest = append_assoc (record_line x row) (record_lines x rows) rest

    no_records : (text : Text) (map : Baseline) → read_records x 0 text map ≡ ok (map, text)
    unfolding read_records
    no_records text map = refl

    no_lines : (rest : Text) → record_lines x [] ++ rest ≡ rest
    unfolding record_lines
    no_lines rest = refl

    pub read_records_lem :
        (rows : List SchemaRow) (rest : Text) (map : Baseline)
        → read_records x (length rows) (record_lines x rows ++ rest) map
          ≡ ok (entries rows map, rest)
    read_records_lem [] rest map = no_records _ map ∙ ap (λ t. ok (map, t)) (no_lines rest)
    read_records_lem (row ∷ rows) rest map =
        read_records_step (length rows) _ _ (record_lines x rows ++ rest) map (entry row)
          (ap split_line (records_assoc row rows rest)
            ∙ next_record row (record_lines x rows ++ rest))
          (read_record-payload row)
        ∙ read_records_lem rows rest (entry row ∷ map)

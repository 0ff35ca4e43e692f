-- ===== src/Merge/Baseline.antt =====
-- merge.rs: `parse_baseline`, which reads the list of schema statements at the head of a merge text.
-- Base64, SHA-256 and UTF-8 are a parameter. Offsets count characters.
use sqlite_mcp.Prelude.Text.{Text, codes, text_eq, starts_with}
use sqlite_mcp.Policy.Stored.{drop}
use sqlite_mcp.Sql.{number}
use sqlite_mcp.Merge.Split.{format_invalid, limit_exceeded, MergeError}
use sqlite_mcp.Prelude.{
  ℕ, zero, suc, ◌-◌, not, ◌||◌, Option, none, some, List, [], ◌∷◌, map, ltb, leb, ◌==◌,
  if◌then◌else◌, Result, ok, err, ◌>>=◌, ◌>>◌, fail_if, ok_or, length,
}

-- What the standard library and the crates `base64` and `sha2` give: `as_bytes`, `from_utf8`, the
-- URL-safe base64 alphabet without padding, `schema_digest`, the digest in hexadecimal, and `{:?}`.
pub record Encodings : Type 0 where
  pub as_bytes : Text → List ℕ
  pub from_utf8 : List ℕ → Option Text
  pub b64 : List ℕ → Text
  pub from_b64 : Text → Option (List ℕ)
  pub schema_digest : List ℕ → Text
  pub debug : Text → Text

-- The map from names to statements: an insertion hides what it replaces.
abbrev pub Baseline : Type 0
Baseline = List (Text × List ℕ)

-- The value of a key in a map with texts for keys.
unfoldable pub lookup {ℓ} : {V : Type ℓ} → Text → List (Text × V) → Option V
unfolding text_eq
lookup k [] = none
lookup k ((j, v) ∷ m) = if text_eq j k then some v else lookup k m

-- `find('\n')` with the slices before and behind it.
unfoldable pub split_line : Text → Option (Text × Text)
split_line [] = none
split_line (c ∷ s) =
    let rest = split_line s in
    if c == b'\n' then some ([], s) else elim rest [ none ↦ none | some (l, r) ↦ some (c ∷ l, r) ]

unfoldable pub strip_prefix : Text → Text → Option Text
strip_prefix [] s = some s
strip_prefix (p ∷ ps) [] = none
strip_prefix (p ∷ ps) (c ∷ s) = let rest = strip_prefix ps s in if p == c then rest else none

abbrev pub onto_first : ℕ → List Text → List Text
onto_first c [] = (c ∷ []) ∷ []
onto_first c (p ∷ ps) = (c ∷ p) ∷ ps

-- `split(' ')`: one piece more than there are spaces.
unfoldable pub split_spaces : Text → List Text
split_spaces [] = [] ∷ []
split_spaces (c ∷ s) =
    let rest = split_spaces s in if c == b' ' then [] ∷ rest else onto_first c rest

-- `split_once('=')`.
unfoldable pub split_once : Text → Option (Text × Text)
split_once [] = none
split_once (c ∷ s) =
    let rest = split_once s in
    if c == b'=' then some ([], s) else elim rest [ none ↦ none | some (k, v) ↦ some (c ∷ k, v) ]

abbrev pub invalid : Text → MergeError
invalid message = record { class = format_invalid; message = message }

abbrev pub excessive : Text → MergeError
excessive message = record { class = limit_exceeded; message = message }

-- The fields of a record, the last first, in front of those that precede them.
unfoldable pub fields_of : List Text → List (Text × Text) → Result (List (Text × Text)) MergeError
unfolding split_once
fields_of [] fields = ok fields
fields_of (item ∷ items) fields = elim (split_once item) [
  | none ↦ err (invalid (codes "invalid schema baseline field"))
  | some field ↦ fields_of items (field ∷ fields)
]

-- `trim_start_matches([' ', '\n', '\t'])`.
unfoldable pub trim_blanks : Text → Text
trim_blanks [] = []
trim_blanks (c ∷ s) =
    let rest = trim_blanks s in if c == b' ' || c == b'\n' || c == b'\t' then rest else c ∷ s

abbrev pub usize_max : ℕ
usize_max = 18446744073709551615

abbrev pub fits_usize : Option ℕ → Option ℕ
fits_usize none = none
fits_usize (some n) = if leb n usize_max then some n else none

-- `str::parse::<usize>`.
unfoldable pub parse_usize : Text → Option ℕ
unfolding number
parse_usize [] = none
parse_usize (c ∷ s) = fits_usize (if c == b'+' then number s else number (c ∷ s))

abbrev pub baseline_mark : Text
baseline_mark = codes "-- sqlite-mcp schema-baseline:"

abbrev pub baseline_header : Text
baseline_header = codes "-- sqlite-mcp schema-baseline: v1 count="

abbrev pub record_header : Text
record_header = codes "-- sqlite-mcp schema-hash: v1 "

abbrev pub end_marker : Text
end_marker = codes "-- sqlite-mcp schema-baseline-end: v1\n"

abbrev pub baseline_limit : ℕ
baseline_limit = 1000000

-- A number of records is read, and what stands behind them.
abbrev pub checked_count : Option ℕ → Result ℕ MergeError
checked_count none = err (excessive (codes "invalid or excessive schema baseline count"))
checked_count (some n) =
    if ltb baseline_limit n
    then err (excessive (codes "schema baseline count exceeds limit"))
    else ok n

module _ (x : Encodings) where
  -- What a record says once its fields are known.
  unfoldable pub read_fields : List (Text × Text) → Result (Text × List ℕ) MergeError
  unfolding lookup text_eq
  read_fields fields = do
    name_b64 ← ok_or (lookup (codes "name_b64") fields) (invalid (codes "missing baseline name"))
    bytes ← ok_or (x.from_b64 name_b64) (invalid (codes "invalid baseline name"))
    name ← ok_or (x.from_utf8 bytes) (invalid (codes "baseline name is not UTF-8"))
    sql_b64 ← ok_or (lookup (codes "sql_bytes") fields) (invalid (codes "missing baseline SQL"))
    sql ← ok_or (x.from_b64 sql_b64) (invalid (codes "invalid baseline SQL"))
    digest ← ok_or (lookup (codes "sql_sha256") fields) (invalid (codes "missing baseline digest"))
    fail_if (not (text_eq (x.schema_digest sql) digest))
        (invalid (codes "schema baseline digest mismatch"))
    ok (name, sql)

  -- A line, which is a record.
  unfoldable pub read_record : Text → Result (Text × List ℕ) MergeError
  unfolding strip_prefix split_spaces fields_of read_fields
  read_record line = do
    payload ←
        ok_or (strip_prefix record_header line) (invalid (codes "invalid schema baseline record"))
    fields ← fields_of (split_spaces payload) []
    read_fields fields

  -- The loop over the records: the map, and the text behind them.
  unfoldable pub read_records : ℕ → Text → Baseline → Result (Baseline × Text) MergeError
  unfolding split_line read_record
  read_records zero text map = ok (map, text)
  read_records (suc count) text map = do
    (line, rest) ← ok_or (split_line text) (invalid (codes "unterminated schema baseline record"))
    entry ← read_record line
    read_records count rest (entry ∷ map)

  -- The lines of a baseline.
  unfoldable pub read_baseline : Text → Result (Baseline × Text) MergeError
  unfolding split_line strip_prefix parse_usize read_records starts_with drop
  read_baseline text = do
    (line, rest) ← ok_or (split_line text) (invalid (codes "unterminated schema baseline header"))
    count_text ←
        ok_or (strip_prefix baseline_header line) (invalid (codes "invalid schema baseline header"))
    count ← checked_count (parse_usize count_text)
    (map, behind) ← read_records count rest []
    fail_if (not (starts_with behind end_marker)) (invalid (codes "schema baseline is not closed"))
    ok (map, drop (length end_marker) behind)

  -- `parse_baseline`: the map, and the offset behind the baseline.
  unfoldable pub parse_baseline : Text → ℕ → Result (Baseline × ℕ) MergeError
  unfolding drop trim_blanks starts_with read_baseline
  parse_baseline text offset =
      let rest = drop offset text in
      if starts_with (trim_blanks rest) baseline_mark
      then (read_baseline rest >>= λ r. ok (r.0, length text - length r.1))
      else ok ([], offset)

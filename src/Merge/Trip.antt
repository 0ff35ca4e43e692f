-- ===== src/Merge/Trip.antt =====
-- merge.rs: an import reads the baseline that an extraction writes.
use sqlite_mcp.Merge.Split.{format_header}
use sqlite_mcp.Policy.Stored.{drop}
use sqlite_mcp.Sql.{number}
use sqlite_mcp.Sql.Decimal.{decimal_cons, number-decimal}
use sqlite_mcp.Worker.Error.{decimal}
use sqlite_mcp.Merge.Extract.{record_lines, baseline_text}
use sqlite_mcp.Merge.Lines.{
  Lacks, strip_prefix-append, Lacks-behind, drop-append, split_line-append, IsDigits-Lacks,
}
use sqlite_mcp.Merge.Schema.{SchemaRow}
use sqlite_mcp.Prelude.Text.{Text, starts_with}
use mathlib.Core.List.{append_assoc}
use sqlite_mcp.Merge.Baseline.{
  Encodings, read_records, read_baseline, parse_baseline, end_marker, strip_prefix, Baseline,
  split_line, parse_usize, baseline_limit, baseline_header, trim_blanks, baseline_mark,
}
use sqlite_mcp.Prelude.{
  ℕ, ◌-◌, ◌≤◌, ◌≡◌, refl, sym, ap, ◌∙◌, true, false, some, List, [], ◌∷◌, ◌++◌, arith, ltb, ok,
  length, length-append, same, subst,
}
use sqlite_mcp.Merge.Records.{IsLossless, entries, read_records_lem}

module _ (x : Encodings) (lossless : IsLossless x) where
  parse_usize-decimal : (n : ℕ) → n ≤ baseline_limit → parse_usize (decimal n) ≡ some n
  unfolding parse_usize
  parse_usize-decimal n h =
      let (d, s, same, digit, _) = decimal_cons n in
      let value : number (d ∷ s) ≡ some n =
        subst (λ t. number t ≡ some n) same (number-decimal n) in
      subst (λ t. parse_usize t ≡ some n) (sym same) (ground (arith, value, digit))

  read_baseline_step :
      (text line rest count_text behind : Text) (n : ℕ) (found : Baseline)
      → split_line text ≡ some (line, rest)
      → strip_prefix baseline_header line ≡ some count_text
      → parse_usize count_text ≡ some n
      → n ≤ baseline_limit
      → read_records x n rest [] ≡ ok (found, end_marker ++ behind)
      → read_baseline x text ≡ ok (found, behind)
  unfolding read_baseline
  read_baseline_step text line rest count_text behind n found a b c d r =
      let below : ltb baseline_limit n ≡ false = ground (arith, d) in rw (a, b, c, below, r) refl

  measured : (a b c : Text) → length (a ++ (b ++ c)) - length c ≡ length (a ++ b)
  measured a b c = omega (arith, length-append a (b ++ c), length-append b c, length-append a b)

  header_line :
      (schemas : List SchemaRow) (rest : Text)
      → baseline_text x schemas ++ rest
        ≡ (baseline_header ++ decimal (length schemas))
          ++ (b'\n' ∷ (record_lines x schemas ++ (end_marker ++ rest)))
  unfolding baseline_text
  header_line schemas rest = simp (append_assoc)

  decimal-Lacks : (n : ℕ) → Lacks b'\n' (decimal n)
  decimal-Lacks n =
      let (d, s, same, digit, rest) = decimal_cons n in
      subst (Lacks b'\n') (sym same) (IsDigits-Lacks (d ∷ s) b'\n' refl (digit, rest))

  read_baseline-baseline_text :
      (schemas : List SchemaRow) (rest : Text)
      → length schemas ≤ baseline_limit
      → read_baseline x (baseline_text x schemas ++ rest) ≡ ok (entries x schemas [], rest)
  read_baseline-baseline_text schemas rest h =
      let n = decimal (length schemas) in
      let behind = record_lines x schemas ++ (end_marker ++ rest) in
      read_baseline_step (baseline_text x schemas ++ rest) (baseline_header ++ n) behind n rest
        (length schemas) (entries x schemas [])
        (ap split_line (header_line schemas rest)
          ∙ split_line-append (baseline_header ++ n) behind
              (Lacks-behind b'\n' baseline_header n refl (decimal-Lacks (length schemas))))
        (strip_prefix-append baseline_header n) (parse_usize-decimal (length schemas) h) h
        (read_records_lem x lossless schemas (end_marker ++ rest) [])

  is_marked :
      (schemas : List SchemaRow) (rest : Text)
      → starts_with (trim_blanks (baseline_text x schemas ++ rest)) baseline_mark ≡ true
  unfolding baseline_text trim_blanks starts_with
  is_marked schemas rest = refl

  parse_baseline_step :
      (text rest behind : Text) (offset : ℕ) (found : Baseline)
      → drop offset text ≡ rest
      → starts_with (trim_blanks rest) baseline_mark ≡ true
      → read_baseline x rest ≡ ok (found, behind)
      → parse_baseline x text offset ≡ ok (found, length text - length behind)
  unfolding parse_baseline
  parse_baseline_step text rest behind offset found a b c = rw (a, b, c) refl

  -- The baseline that an extraction writes behind the header of a text is read back by an import as
  -- the names of the schema objects with the bytes of their statements, each in front of those
  -- before it, and the statements are looked for where the baseline ends. The objects are at most
  -- as many as the limit, and base64, UTF-8 and the digests are as their crates promise.
  pub parse_baseline-extract :
      (schemas : List SchemaRow) (rest : Text)
      → length schemas ≤ baseline_limit
      → parse_baseline x (format_header ++ (baseline_text x schemas ++ rest)) (length format_header)
        ≡ ok (entries x schemas [], length (format_header ++ baseline_text x schemas))
  parse_baseline-extract schemas rest h =
      parse_baseline_step _ (baseline_text x schemas ++ rest) rest (length format_header)
        (entries x schemas []) (drop-append format_header (baseline_text x schemas ++ rest))
        (is_marked schemas rest) (read_baseline-baseline_text schemas rest h)
      ∙ ap (λ n. ok (entries x schemas [], n))
          (measured format_header (baseline_text x schemas) rest)

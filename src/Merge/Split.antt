-- ===== src/Merge/Split.antt =====
-- merge.rs: the header of a merge text, and the splitter that finds its statements. It looks at ASCII
-- characters alone, so offsets count characters where the source counts bytes.
use sqlite_mcp.Prelude.{
  ℕ, suc, ◌+◌, ◌-◌, Bool, not, ◌&&◌, ◌||◌, List, [], ◌∷◌, all, ◌==◌, if◌then◌else◌, Result, ok, err,
  length,
}
use sqlite_mcp.Prelude.Text.{Text, codes, starts_with, contains}
use sqlite_mcp.Policy.Cursor.{Unicode, is_white}
use sqlite_mcp.Policy.Stored.{drop}
use sqlite_mcp.Policy.Tail.{take}

-- The classes of errors.
pub data MergeClass : Type 0 where
  format_invalid policy_denied limit_exceeded input_invalid : MergeClass
  output_exists validation_failed cleanup_uncertain unrepresentable_content : MergeClass

-- The classes as the source writes them.
abbrev pub merge_class_text : MergeClass → Text
merge_class_text format_invalid = codes "MERGE_FORMAT_INVALID"
merge_class_text policy_denied = codes "MERGE_POLICY_DENIED"
merge_class_text limit_exceeded = codes "MERGE_LIMIT_EXCEEDED"
merge_class_text input_invalid = codes "MERGE_INPUT_INVALID"
merge_class_text output_exists = codes "MERGE_OUTPUT_EXISTS"
merge_class_text validation_failed = codes "MERGE_VALIDATION_FAILED"
merge_class_text cleanup_uncertain = codes "MERGE_CLEANUP_UNCERTAIN"
merge_class_text unrepresentable_content = codes "MERGE_UNREPRESENTABLE_CONTENT"

-- `MergeError`, without its details.
pub record MergeError : Type 0 where
  pub class : MergeClass
  pub message : Text

-- The newline that ends it is part of it.
abbrev pub format_header : Text
format_header = codes "-- sqlite-mcp merge-format: 1\n"

abbrev pub byte_order_mark : ℕ
byte_order_mark = 65279

-- `validate_header`: where the text behind the header starts.
unfoldable pub validate_header : Text → Result ℕ MergeError
unfolding starts_with contains
validate_header text =
    if not (starts_with text format_header)
      || starts_with text (byte_order_mark ∷ [])
      || contains text (codes "\r\n")
    then err (record {
      class = format_invalid;
      message = codes "merge text must begin with the exact LF-terminated format header";
    })
    else ok (length format_header)

-- At most one of the four variables of the loop is set.
pub data Lexing : Type 0 where
  plain in_line in_block in_bracket : Lexing
  in_quote : ℕ → Lexing

-- `&text[start..end]`.
unfoldable pub slice : Text → ℕ → ℕ → Text
unfolding take drop
slice text start stop = take (stop - start) (drop start text)

abbrev pub unterminated : MergeError
unterminated = record {
  class = format_invalid;
  message = codes "unterminated SQL comment or quoted literal";
}

abbrev pub no_semicolon : MergeError
no_semicolon = record {
  class = format_invalid;
  message = codes "executable SQL must be terminated by a semicolon";
}

-- One more statement in front of the others.
abbrev pub with_range : ℕ × ℕ → Result (List (ℕ × ℕ)) MergeError → Result (List (ℕ × ℕ)) MergeError
with_range range (ok ranges) = ok (range ∷ ranges)
with_range range (err x) = err x

abbrev pub opens_quote : ℕ → Bool
opens_quote c = c == b'\'' || c == b'"' || c == b'`'

module _ (u : Unicode) where
  abbrev pub is_blank : Text → Bool
  is_blank s = all (is_white u) s

  -- Behind the loop.
  unfoldable pub finish : Text → Lexing → ℕ → Result (List (ℕ × ℕ)) MergeError
  unfolding drop
  finish text in_block start = err unterminated
  finish text in_bracket start = err unterminated
  finish text (in_quote q) start = err unterminated
  finish text plain start = if is_blank (drop start text) then ok [] else err no_semicolon
  finish text in_line start = if is_blank (drop start text) then ok [] else err no_semicolon

  -- A character that opens no comment: what follows if it is passed over, if it opens an identifier
  -- in brackets, if it opens a quote, and if a statement ends with it.
  unfoldable pub at_plain :
      Text
      → ℕ
      → ℕ
      → ℕ
      → Result (List (ℕ × ℕ)) MergeError
      → Result (List (ℕ × ℕ)) MergeError
      → Result (List (ℕ × ℕ)) MergeError
      → Result (List (ℕ × ℕ)) MergeError
      → Result (List (ℕ × ℕ)) MergeError
  unfolding slice
  at_plain text start i c next bracketed quoted restarted =
      if c == b'['
      then bracketed
      else if opens_quote c
      then quoted
      else if not (c == b';')
      then next
      else if is_blank (slice text start (suc i))
      then restarted
      else with_range (start, suc i) restarted

  -- The loop, at the character `i`; the last argument is the text from there on.
  unfoldable pub split_from : Text → Lexing → ℕ → ℕ → Text → Result (List (ℕ × ℕ)) MergeError
  unfolding finish at_plain
  split_from text m start i [] = finish text m start
  split_from text in_line start i (c ∷ s) =
      split_from text (if c == b'\n' then plain else in_line) start (suc i) s
  split_from text in_block start i (c ∷ []) = finish text in_block start
  split_from text in_block start i (c ∷ d ∷ s) =
      let closed = split_from text plain start (i + 2) s in
      let rest = split_from text in_block start (suc i) (d ∷ s) in
      if c == b'*' && d == b'/' then closed else rest
  split_from text in_bracket start i (c ∷ []) =
      finish text (if c == b']' then plain else in_bracket) start
  split_from text in_bracket start i (c ∷ d ∷ s) =
      let doubled = split_from text in_bracket start (i + 2) s in
      let closed = split_from text plain start (suc i) (d ∷ s) in
      let rest = split_from text in_bracket start (suc i) (d ∷ s) in
      if c == b']' then (if d == b']' then doubled else closed) else rest
  split_from text (in_quote q) start i (c ∷ []) =
      finish text (if c == q then plain else in_quote q) start
  split_from text (in_quote q) start i (c ∷ d ∷ s) =
      let doubled = split_from text (in_quote q) start (i + 2) s in
      let closed = split_from text plain start (suc i) (d ∷ s) in
      let rest = split_from text (in_quote q) start (suc i) (d ∷ s) in
      if c == q then (if d == q then doubled else closed) else rest
  split_from text plain start i (c ∷ []) =
      at_plain text start i c (finish text plain start) (finish text in_bracket start)
        (finish text (in_quote c) start) (finish text plain (suc i))
  split_from text plain start i (c ∷ d ∷ s) =
      let line = split_from text in_line start (i + 2) s in
      let block = split_from text in_block start (i + 2) s in
      let next = split_from text plain start (suc i) (d ∷ s) in
      let bracketed = split_from text in_bracket start (suc i) (d ∷ s) in
      let quoted = split_from text (in_quote c) start (suc i) (d ∷ s) in
      let restarted = split_from text plain (suc i) (suc i) (d ∷ s) in
      if c == b'-' && d == b'-'
      then line
      else if c == b'/' && d == b'*'
      then block
      else at_plain text start i c next bracketed quoted restarted

  -- `split_statements`.
  unfoldable pub split_statements : Text → ℕ → Result (List (ℕ × ℕ)) MergeError
  unfolding split_from drop
  split_statements text offset = split_from text plain offset offset (drop offset text)

-- ===== src/Policy/Pragma.antt =====
-- policy.rs: `classify_approved_pragma`, the scan that recognises the two pragma getters which the
-- policy admits. The bytes of the text are numbers.
use sqlite_mcp.Prelude.{
  ℕ, Bool, false, not, ◌&&◌, ◌||◌, Option, none, some, [], ◌∷◌, leb, ◌==◌, if◌then◌else◌,
}
use sqlite_mcp.Prelude.Text.{Text, codes, eq_ignore_ascii_case}

pub data ApprovedPragma : Type 0 where
  no_pragma foreign_keys recursive_triggers : ApprovedPragma

-- A space, tab, line feed, carriage return, vertical tab or form feed.
abbrev pub is_space : ℕ → Bool
is_space c = c == 32 || c == 9 || c == 10 || c == 13 || c == 11 || c == 12

-- Where the scan of `trivia` stands: between comments, in a line comment, in a block comment.
pub data Mode : Type 0 where
  plain line block : Mode

-- `trivia`: what follows the spaces and comments, or nothing if a block comment does not end. The
-- search for the end of a comment is a mode of one walk.
unfoldable pub trivia : Mode → Text → Option Text
trivia plain [] = some []
trivia plain (c ∷ []) = if is_space c then some [] else some (c ∷ [])
trivia plain (c ∷ d ∷ s) =
    let spaced = trivia plain (d ∷ s) in
    let in_line = trivia line s in
    let in_block = trivia block s in
    if is_space c
    then spaced
    else if c == b'-' && d == b'-'
    then in_line
    else if c == b'/' && d == b'*'
    then in_block
    else some (c ∷ d ∷ s)
trivia line [] = some []
trivia line (c ∷ s) =
    let ended = trivia plain s in let rest = trivia line s in if c == 10 then ended else rest
trivia block [] = none
trivia block (c ∷ []) = none
trivia block (c ∷ d ∷ s) =
    let ended = trivia plain s in
    let rest = trivia block (d ∷ s) in if c == b'*' && d == b'/' then ended else rest

-- `is_ascii_alphanumeric` or an underscore.
abbrev pub is_word : ℕ → Bool
is_word c =
    (leb b'0' c && leb c b'9')
    || (leb b'a' c && leb c b'z')
    || (leb b'A' c && leb c b'Z')
    || c == b'_'

unfoldable pub take_ascii_word : Text → Text × Text
take_ascii_word [] = ([], [])
take_ascii_word (c ∷ s) =
    let (word, rest) = take_ascii_word s in if is_word c then (c ∷ word, rest) else ([], c ∷ s)

-- The loops that drop leading spaces.
unfoldable pub skip_spaces : Text → Text
skip_spaces [] = []
skip_spaces (c ∷ s) = let rest = skip_spaces s in if is_space c then rest else c ∷ s

abbrev pub starts_spaced : Text → Bool
starts_spaced [] = false
starts_spaced (c ∷ s) = is_space c

unfoldable pub pragma_name : Text → Option ApprovedPragma
pragma_name name =
    if eq_ignore_ascii_case name (codes "foreign_keys")
    then some foreign_keys
    else if eq_ignore_ascii_case name (codes "recursive_triggers")
    then some recursive_triggers
    else none

-- Past an optional semicolon and the trivia behind it.
unfoldable pub after_semicolon : Text → Option Text
unfolding trivia
after_semicolon [] = some []
after_semicolon (c ∷ s) = if c == b';' then trivia plain s else some (c ∷ s)

abbrev pub approve_at_end : ApprovedPragma → Option Text → ApprovedPragma
approve_at_end a (some []) = a
approve_at_end a (some (c ∷ s)) = no_pragma
approve_at_end a none = no_pragma

-- The text behind the keyword: spaces, the name, and nothing but trivia and one semicolon.
unfoldable pub classify_name : Text → ApprovedPragma
unfolding skip_spaces take_ascii_word pragma_name trivia after_semicolon
classify_name input =
    let (name, rest) = take_ascii_word (skip_spaces input) in
    elim (pragma_name name) [
      | none ↦ no_pragma
      | some a ↦ elim (trivia plain rest) [
        | none ↦ no_pragma
        | some tail ↦ approve_at_end a (after_semicolon tail)
      ]
    ]

unfoldable pub classify_approved_pragma : Text → ApprovedPragma
unfolding trivia take_ascii_word classify_name
classify_approved_pragma sql = elim (trivia plain sql) [
  | none ↦ no_pragma
  | some input ↦
      let (keyword, rest) = take_ascii_word input in
      if not (eq_ignore_ascii_case keyword (codes "pragma")) || not (starts_spaced rest)
      then no_pragma
      else classify_name rest
]

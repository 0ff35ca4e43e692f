-- ===== src/Policy/Cursor.antt =====
-- policy.rs: the token scanner `Cursor` and the guard against maintenance statements. A text is its
-- list of code points. What Rust's tables say beyond ASCII is a parameter; a slice that would split a
-- character of several bytes panics, which is an outcome here.
use sqlite_mcp.Prelude.{
  ℕ, zero, suc, Bool, ◌&&◌, ◌||◌, [], ◌∷◌, ltb, leb, ◌==◌, if◌then◌else◌, length, all,
}
use sqlite_mcp.Prelude.Text.{Text, codes, text_eq, to_ascii_lowercase}
use sqlite_mcp.Policy.Pragma.{Mode, plain, line, block}
use sqlite_mcp.Policy.Signal.{MutationSignal, mark_policy_denied}

-- `char::is_alphanumeric`, `is_whitespace` and `is_alphabetic` for the code points from 128 on.
pub record Unicode : Type 0 where
  pub alphanumeric : ℕ → Bool
  pub whitespace : ℕ → Bool
  pub alphabetic : ℕ → Bool

abbrev pub is_ascii : ℕ → Bool
is_ascii c = ltb c 128

pub data Next : Type 0 where
  ended panicked : Next
  token : Text → Text → Next

-- The outcome of the search for a keyword, with what follows it.
pub data Keyword : Type 0 where
  missing panics exhausted : Keyword
  found : Text → Text → Keyword

pub data Verdict : Type 0 where
  allowed maintenance panic : Verdict

module _ (u : Unicode) where
  abbrev pub is_white : ℕ → Bool
  is_white c = if is_ascii c then c == 32 || (leb 9 c && leb c 13) else u.whitespace c

  -- A character of an unquoted identifier.
  unfoldable pub is_identifier : ℕ → Bool
  is_identifier c =
      if is_ascii c
      then (leb 48 c && leb c 57)
        || (leb 97 c && leb c 122)
        || (leb 65 c && leb c 90)
        || c == 95
        || c == 36
      else u.alphanumeric c

  -- `skip_trivia`; an unterminated block comment takes the rest.
  unfoldable pub skip_trivia : Mode → Text → Text
  skip_trivia plain [] = []
  skip_trivia plain (c ∷ []) = if is_white c then [] else c ∷ []
  skip_trivia plain (c ∷ d ∷ s) =
      let spaced = skip_trivia plain (d ∷ s) in
      let in_line = skip_trivia line s in
      let in_block = skip_trivia block s in
      if is_white c
      then spaced
      else if c == 45 && d == 45
      then in_line
      else if c == 47 && d == 42
      then in_block
      else c ∷ d ∷ s
  skip_trivia line [] = []
  skip_trivia line (c ∷ s) =
      let ended = skip_trivia plain s in
      let rest = skip_trivia line s in if c == 10 then ended else rest
  skip_trivia block [] = []
  skip_trivia block (c ∷ []) = []
  skip_trivia block (c ∷ d ∷ s) =
      let ended = skip_trivia plain s in
      let rest = skip_trivia block (d ∷ s) in if c == 42 && d == 47 then ended else rest

  unfoldable pub take_identifier : Text → Text × Text
  unfolding is_identifier
  take_identifier [] = ([], [])
  take_identifier (c ∷ s) =
      let (word, rest) = take_identifier s in
      if is_identifier c then (c ∷ word, rest) else ([], c ∷ s)

  -- The token at the start of a text without trivia: `split_at(1)` panics inside of a character.
  unfoldable pub token_of : Text → Next
  unfolding take_identifier
  token_of [] = ended
  token_of (c ∷ s) =
      let (word, rest) = take_identifier (c ∷ s) in
      if is_identifier c then token word rest else if is_ascii c then token (c ∷ []) s else panicked

  -- `Cursor::next`.
  unfoldable pub next : Text → Next
  unfolding skip_trivia token_of
  next s = token_of (skip_trivia plain s)

  -- `first_statement_keyword`; each turn takes a character, so the length is enough fuel.
  unfoldable pub keyword_within : ℕ → Text → Keyword
  unfolding next is_identifier
  keyword_within zero s = exhausted
  keyword_within (suc fuel) s = elim (next s) [
    | ended ↦ missing
    | panicked ↦ panics
    | token word rest ↦
        let later = keyword_within fuel rest in
        if all is_identifier word then found (to_ascii_lowercase word) rest else later
  ]

  unfoldable pub first_statement_keyword : Text → Keyword
  unfolding keyword_within
  first_statement_keyword s = keyword_within (suc (length s)) s

  -- Behind `EXPLAIN QUERY`: the keyword behind `PLAN`, and else `QUERY` itself.
  unfoldable pub behind_query : Text → Keyword → Keyword
  unfolding first_statement_keyword text_eq
  behind_query rest query = elim (first_statement_keyword rest) [
    | found word rest' ↦
        if text_eq word (codes "plan") then first_statement_keyword rest' else query
    | panics ↦ panics
    | missing ↦ query
    | exhausted ↦ exhausted
  ]

  unfoldable pub behind_explain : Text → Keyword
  unfolding first_statement_keyword text_eq behind_query
  behind_explain rest = elim (first_statement_keyword rest) [
    | found word rest' ↦
        if text_eq word (codes "query")
        then behind_query rest' (found word rest')
        else found word rest'
    | panics ↦ panics
    | missing ↦ missing
    | exhausted ↦ exhausted
  ]

  -- The keyword that governs a statement, `EXPLAIN [QUERY PLAN]` aside.
  unfoldable pub governing : Text → Keyword
  unfolding first_statement_keyword text_eq behind_explain
  governing sql = elim (first_statement_keyword sql) [
    | found word rest ↦
        if text_eq word (codes "explain") then behind_explain rest else found word rest
    | panics ↦ panics
    | missing ↦ missing
    | exhausted ↦ exhausted
  ]

  -- `check_maintenance`.
  unfoldable pub check_maintenance : Text → MutationSignal → Verdict × MutationSignal
  unfolding governing text_eq mark_policy_denied
  check_maintenance sql seen = elim (governing sql) [
    | found word rest ↦
        if text_eq word (codes "analyze") || text_eq word (codes "reindex")
        then (maintenance, mark_policy_denied seen)
        else (allowed, seen)
    | panics ↦ (panic, seen)
    | missing ↦ (allowed, seen)
    | exhausted ↦ (panic, seen)
  ]

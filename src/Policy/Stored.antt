-- ===== src/Policy/Stored.antt =====
-- policy.rs: the guard against stored bodies with calls of pragma functions, and its scanner.
use sqlite_mcp.Prelude.{
  ℕ, zero, suc, ◌-◌, Bool, false, not, ◌&&◌, ◌||◌, Option, none, some, [], ◌∷◌, leb, ◌==◌,
  if◌then◌else◌, length,
}
use sqlite_mcp.Prelude.Text.{Text, codes, text_eq, starts_with, to_ascii_lowercase}
use sqlite_mcp.Policy.Pragma.{plain}
use sqlite_mcp.Policy.Signal.{MutationSignal, mark_policy_denied, mark_ddl_attempt}
use sqlite_mcp.Policy.Cursor.{
  Unicode, is_ascii, Next, ended, panicked, token, is_identifier, skip_trivia, take_identifier,
  token_of, next,
}

-- The outcome of the guard.
pub data Judgement : Type 0 where
  accepted denied crashed : Judgement

unfoldable pub drop : ℕ → Text → Text
drop zero s = s
drop (suc n) [] = []
drop (suc n) (c ∷ s) = drop n s

-- The character that closes a quoted identifier.
unfoldable pub closing : ℕ → Option ℕ
closing c = if c == 34 || c == 96 then some c else if c == 91 then some 93 else none

-- What follows a quoted segment that `close` ends: doubled, it stands for itself, but for `]`.
unfoldable pub after_quoted : ℕ → Text → Text
after_quoted close [] = []
after_quoted close (x ∷ []) = []
after_quoted close (x ∷ y ∷ s) =
    let doubled = after_quoted close s in
    let rest = after_quoted close (y ∷ s) in
    if x == close then (if not (close == 93) && y == close then doubled else y ∷ s) else rest

-- The parenthesized group: its depth, and the quote that is open.
unfoldable pub after_group : ℕ → Option ℕ → Text → Text
after_group depth quote [] = []
after_group depth none (c ∷ s) =
    let deeper = after_group (suc depth) none s in
    let shallower = after_group (depth - 1) none s in
    let quoted = after_group depth (some c) s in
    let bracketed = after_group depth (some 93) s in
    let same_depth = after_group depth none s in
    if c == 40
    then deeper
    else if c == 41
    then (if depth == 1 then s else shallower)
    else if c == 34 || c == 96 || c == 39
    then quoted
    else if c == 91
    then bracketed
    else same_depth
after_group depth (some q) (x ∷ []) = []
after_group depth (some q) (x ∷ y ∷ s) =
    let doubled = after_group depth (some q) s in
    let closed = after_group depth none (y ∷ s) in
    let inside = after_group depth (some q) (y ∷ s) in
    if x == q then (if not (q == 93) && y == q then doubled else closed) else inside

-- A quoted name with what follows it, if it is closed.
unfoldable pub take_quoted : ℕ → Text → Option (Text × Text)
take_quoted close [] = none
take_quoted close (x ∷ []) = if x == close then some ([], []) else none
take_quoted close (x ∷ y ∷ s) =
    let doubled = take_quoted close s in
    let rest = take_quoted close (y ∷ s) in
    if x == close
    then (if not (close == 93) && y == close
        then elim doubled [ none ↦ none | some (name, after) ↦ some (close ∷ name, after) ]
        else some ([], y ∷ s))
    else elim rest [ none ↦ none | some (name, after) ↦ some (x ∷ name, after) ]

-- From the end of a line on, the line feed included.
unfoldable pub after_line : Text → Text
after_line [] = []
after_line (c ∷ s) = let rest = after_line s in if c == 10 then c ∷ s else rest

unfoldable pub after_block : Text → Text
after_block [] = []
after_block (c ∷ []) = []
after_block (c ∷ d ∷ s) = let rest = after_block (d ∷ s) in if c == 42 && d == 47 then s else rest

abbrev pub begins_with : ℕ → Text → Bool
begins_with k [] = false
begins_with k (c ∷ s) = c == k

module _ (u : Unicode) where
  -- The first character of an unquoted identifier.
  unfoldable pub is_initial : ℕ → Bool
  is_initial c =
      if is_ascii c
      then (leb 97 c && leb c 122) || (leb 65 c && leb c 90) || c == 95 || c == 36
      else u.alphabetic c

  -- `skip_word_if`; the word is in lower case.
  unfoldable pub skip_word_if : Text → Text → Text
  unfolding skip_trivia starts_with to_ascii_lowercase drop is_identifier
  skip_word_if word s =
      let r = skip_trivia u plain s in
      let rest = drop (length word) r in
      if starts_with (to_ascii_lowercase r) word
        && not (elim rest [ [] ↦ false | c ∷ cs ↦ is_identifier u c ])
      then rest
      else r

  -- `skip_quoted_or_token`; nothing if it panics.
  unfoldable pub skip_quoted_or_token : Text → Option Text
  unfolding skip_trivia token_of after_quoted
  skip_quoted_or_token s = elim (skip_trivia u plain s) [
    | [] ↦ some []
    | c ∷ cs ↦ elim (closing c) [
      | some close ↦ some (after_quoted close cs)
      | none ↦ elim (token_of u (c ∷ cs)) [
        | ended ↦ some []
        | panicked ↦ none
        | token word rest ↦ some rest
      ]
    ]
  ]

  unfoldable pub skip_parenthesized : Text → Text
  unfolding skip_trivia after_group
  skip_parenthesized s =
      let r = skip_trivia u plain s in if begins_with 40 r then after_group 0 none r else r

  -- The components behind the dots of a name; each takes a character, so the length is enough fuel.
  unfoldable pub skip_components : ℕ → Text → Option Text
  unfolding skip_trivia skip_quoted_or_token
  skip_components zero s = some s
  skip_components (suc fuel) s = elim (skip_trivia u plain s) [
    | [] ↦ some []
    | c ∷ cs ↦
        let next_component = skip_quoted_or_token cs in
        if c == 46
        then elim next_component [ none ↦ none | some rest ↦ skip_components fuel rest ]
        else some (c ∷ cs)
  ]

  unfoldable pub skip_object_name : Text → Option Text
  unfolding skip_quoted_or_token skip_components
  skip_object_name s = elim (skip_quoted_or_token s) [
    | none ↦ none
    | some rest ↦ skip_components (suc (length rest)) rest
  ]

  -- A name that is called: `(` follows it, trivia aside.
  unfoldable pub is_pragma_call : Text → Text → Bool
  unfolding skip_trivia starts_with to_ascii_lowercase
  is_pragma_call name after =
      begins_with 40 (skip_trivia u plain after)
      && starts_with (to_ascii_lowercase name) (codes "pragma_")

  -- The scan for calls; each turn takes a character, so the length is enough fuel.
  unfoldable pub scan : ℕ → Text → Bool
  unfolding is_pragma_call take_quoted after_quoted after_line after_block take_identifier
      skip_trivia
  scan zero s = false
  scan (suc fuel) [] = false
  scan (suc fuel) (c ∷ s) =
      let word = take_identifier u s in
      let behind_word = scan fuel (skip_trivia u plain word.1) in
      let behind_string = scan fuel (after_quoted 39 s) in
      let behind_line = scan fuel (after_line (drop 1 s)) in
      let behind_block = scan fuel (after_block (drop 1 s)) in
      let further = scan fuel s in
      elim (closing c) [
        | some close ↦ elim (take_quoted close s) [
          | none ↦ false
          | some (name, after) ↦ is_pragma_call name after || scan fuel (skip_trivia u plain after)
        ]
        | none ↦
            if c == 39
            then behind_string
            else if c == 45 && begins_with 45 s
            then behind_line
            else if c == 47 && begins_with 42 s
            then behind_block
            else if is_initial c
            then is_pragma_call (c ∷ word.0) word.1 || behind_word
            else further
      ]

  unfoldable pub contains_pragma_table_valued_call : Text → Bool
  unfolding scan
  contains_pragma_table_valued_call s = scan (suc (length s)) s

  -- A word of the head in lower case, with what follows it.
  abbrev pub lowered : Next → Next
  lowered (token word rest) = token (to_ascii_lowercase word) rest
  lowered n = n

  -- The body behind the head of the statement.
  unfoldable pub check_body : Text → MutationSignal → Judgement × MutationSignal
  unfolding skip_word_if skip_object_name skip_parenthesized contains_pragma_table_valued_call
  check_body s seen =
      let named =
        skip_word_if (codes "exists") (skip_word_if (codes "not") (skip_word_if (codes "if") s)) in
      elim (skip_object_name named) [
        | none ↦ (crashed, mark_ddl_attempt seen)
        | some rest ↦
            if contains_pragma_table_valued_call (skip_parenthesized rest)
            then (denied, mark_policy_denied (mark_ddl_attempt seen))
            else (accepted, mark_ddl_attempt seen)
      ]

  abbrev pub is_stored : Text → Bool
  is_stored kind = text_eq kind (codes "view") || text_eq kind (codes "trigger")

  -- Behind `CREATE`: the kind of the object, `TEMP` or `TEMPORARY` aside.
  unfoldable pub check_kind : Text → MutationSignal → Judgement × MutationSignal
  unfolding next check_body text_eq
  check_kind s seen = elim (lowered (next u s)) [
    | ended ↦ (accepted, seen)
    | panicked ↦ (crashed, seen)
    | token kind rest ↦
        if text_eq kind (codes "temp") || text_eq kind (codes "temporary")
        then elim (lowered (next u rest)) [
          | ended ↦ (accepted, seen)
          | panicked ↦ (crashed, seen)
          | token kind' rest' ↦ if is_stored kind' then check_body rest' seen else (accepted, seen)
        ]
        else if is_stored kind
        then check_body rest seen
        else (accepted, seen)
  ]

  unfoldable pub check_stored_body : Text → MutationSignal → Judgement × MutationSignal
  unfolding next check_kind text_eq
  check_stored_body sql seen = elim (lowered (next u sql)) [
    | ended ↦ (accepted, seen)
    | panicked ↦ (crashed, seen)
    | token word rest ↦
        if text_eq word (codes "create") then check_kind rest seen else (accepted, seen)
  ]

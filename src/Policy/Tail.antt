-- ===== src/Policy/Tail.antt =====
-- policy.rs: `TailCursor`, which splits a text of several statements, and `prepare_exact`. The
-- statements are found by `sqlite3_prepare_v2`, a parameter. SQLite ends each of them between two
-- characters, so offsets count characters where the source counts bytes.
use sqlite_mcp.Prelude.{
  ℕ, zero, suc, ◌-◌, Bool, true, false, Option, none, some, [], ◌∷◌, all, any, leb, ltb, ◌==◌,
  if◌then◌else◌, Result, ok, err, ◌>>=◌, ◌>>◌, fail_if, length,
}
use sqlite_mcp.Prelude.Text.{Text, codes}
use sqlite_mcp.Prelude.Int.{ℤ, pos, negsuc}
use sqlite_mcp.Policy.Cursor.{Unicode, is_white}
use sqlite_mcp.Policy.Stored.{drop}

pub data PolicyError : Type 0 where
  empty multiple denied maintenance : PolicyError

-- `Display` of the error.
unfoldable pub policy_text : PolicyError → Text
policy_text empty = codes "SQL is empty"
policy_text multiple = codes "multiple SQL statements are not allowed"
policy_text denied = codes "statement is denied by SQL policy"
policy_text maintenance = codes "maintenance operations (ANALYZE, REINDEX) are denied"

-- What one call of `sqlite3_prepare_v2` gives: an error code, or whether there is a statement, and
-- the offset of the tail from the start of the buffer, if the pointer is not null.
pub data Discovery : Type 0 where
  refused : Discovery
  prepared : Bool → Option ℤ → Discovery

-- A call on the tail of a buffer at an offset, by one connection.
abbrev pub Prepare : Type 0
Prepare = Text → ℕ → Discovery

unfoldable pub take : ℕ → Text → Text
take zero s = []
take (suc n) [] = []
take (suc n) (c ∷ s) = c ∷ take n s

-- `TailCursor`: `source` and `buffer` are one text, and `end` is its length.
pub record TailCursor : Type 0 where
  pub source : Text
  pub offset : ℕ

abbrev pub end_of : TailCursor → ℕ
end_of c = length c.source

-- `TailCursor::new`.
unfoldable pub new_cursor : Unicode → Text → Result TailCursor PolicyError
new_cursor u sql = do
  fail_if (any (λ c. c == 0) sql) denied
  fail_if (all (is_white u) sql) empty
  ok (record { source = sql; offset = 0 })

-- `TailCursor::sql`, of a range.
unfoldable pub sql_of : TailCursor → ℕ × ℕ → Text
unfolding take drop
sql_of c (start, stop) = take (stop - start) (drop start c.source)

-- The offset behind a statement, if it is past the one before it and inside the buffer.
unfoldable pub next_offset : ℕ → ℕ → Option ℤ → Result ℕ PolicyError
next_offset offset stop none = if leb stop offset then err denied else ok stop
next_offset offset stop (some (negsuc d)) = err denied
next_offset offset stop (some (pos d)) =
    if ltb stop d then err denied else if leb d offset then err denied else ok d

-- `TailCursor::next`: the range of the next statement; stretches without a statement are passed over.
unfoldable pub next_range :
    ℕ → Prepare → TailCursor → Result (Option (ℕ × ℕ)) PolicyError × TailCursor
unfolding next_offset
next_range zero p c = (ok none, c)
next_range (suc fuel) p c =
    if leb (end_of c) c.offset then (ok none, c) else elim (p c.source c.offset) [
      | refused ↦ (err denied, c)
      | prepared found tail ↦ elim (next_offset c.offset (end_of c) tail) [
        | err x ↦ (err x, c)
        | ok stop ↦
            let c' : TailCursor = record { source = c.source; offset = stop } in
            let rest = next_range fuel p c' in
            if found then (ok (some (c.offset, stop)), c') else rest
      ]
    ]

-- Each step takes a character, so the length of the text is enough fuel.
abbrev pub next_statement : Prepare → TailCursor → Result (Option (ℕ × ℕ)) PolicyError × TailCursor
next_statement p c = next_range (suc (end_of c - c.offset)) p c

-- The loop of `prepare_exact`; `compiled` is whether a statement was found.
unfoldable pub exact_loop : ℕ → Prepare → Bool → TailCursor → Result Bool PolicyError
unfolding next_range
exact_loop zero p compiled c = ok compiled
exact_loop (suc fuel) p compiled c =
    let (r, c') = next_statement p c in
    let rest = exact_loop fuel p true c' in
    elim r [
      | err x ↦ err (if compiled then multiple else x)
      | ok none ↦ ok compiled
      | ok (some range) ↦ if compiled then err multiple else rest
    ]

-- `prepare_exact`.
unfoldable pub prepare_exact : Unicode → Prepare → Text → Result (Unit {0}) PolicyError
unfolding new_cursor exact_loop
prepare_exact u p sql = do
  c ← new_cursor u sql
  compiled ← exact_loop (suc (length sql)) p false c
  if compiled then ok tt else err empty

-- ===== src/Merge/Literal.antt =====
-- merge.rs: the literals and the identifiers of a merge text.
use sqlite_mcp.Prelude.{
  ℕ, ◌+◌, ◌/◌, ◌%◌, not, ◌&&◌, ◌||◌, none, some, List, [], ◌∷◌, ◌++◌, any, ltb, ◌==◌, if◌then◌else◌,
  Result, ok, err,
}
use sqlite_mcp.Prelude.Text.{Text, codes}
use sqlite_mcp.Sql.{
  Formats, ValueRef, null_ref, integer_ref, real_ref, text_ref, blob_ref, i64_to_string, has_nul,
}

-- `replace` of a quote by two of it.
unfoldable pub double : ℕ → Text → Text
double q [] = []
double q (c ∷ s) = let rest = double q s in if c == q then q ∷ q ∷ rest else c ∷ rest

-- A text between quotes.
unfoldable pub quoted : ℕ → Text → Text
unfolding double
quoted q s = q ∷ (double q s ++ (q ∷ []))

-- The identifier, or nothing if it has a NUL.
unfoldable pub quoted_identifier : Text → Result Text Text
unfolding quoted
quoted_identifier name =
    if has_nul name then err (codes "MERGE_UNREPRESENTABLE_CONTENT") else ok (quoted b'"' name)

-- `replace("e+", "e")`.
unfoldable pub drop_plus : Text → Text
drop_plus [] = []
drop_plus (c ∷ []) = c ∷ []
drop_plus (c ∷ d ∷ s) =
    let both = drop_plus s in
    let rest = drop_plus (d ∷ s) in if c == b'e' && d == b'+' then b'e' ∷ both else c ∷ rest

-- A number that is written like an integer gets a fraction.
unfoldable pub with_point : Text → Text
with_point s = if any (λ c. c == b'.' || c == b'e' || c == b'E') s then s else s ++ codes ".0"

-- A digit of `{b:02X}`.
abbrev pub hex_digit : ℕ → ℕ
hex_digit n = if ltb n 10 then b'0' + n else n + 55

unfoldable pub hex : List ℕ → Text
hex [] = []
hex (b ∷ bytes) = hex_digit (b / 16) ∷ hex_digit (b % 16) ∷ hex bytes

module _ (f : Formats) where
  unfoldable pub value_literal : ValueRef f → Result Text Text
  unfolding drop_plus with_point quoted hex
  value_literal null_ref = ok (codes "NULL")
  value_literal (integer_ref v) = ok (i64_to_string v)
  value_literal (real_ref v) =
      if not (f.is_finite v)
      then err (codes "non-finite REAL is not representable")
      else if f.is_zero v && f.is_sign_negative v
      then ok (codes "-0.0")
      else ok (with_point (drop_plus (f.real_to_string v)))
  value_literal (text_ref bytes) = elim (f.from_utf8 bytes) [
    | none ↦ err (codes "TEXT is not valid UTF-8")
    | some s ↦ if has_nul bytes then err (codes "TEXT contains NUL") else ok (quoted b'\'' s)
  ]
  value_literal (blob_ref bytes) = ok (codes "X'" ++ (hex bytes ++ (b'\'' ∷ [])))

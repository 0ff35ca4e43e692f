-- ===== src/Sql/Cells.antt =====
-- sql.rs: a cell that stands for a value of SQLite is read back as that value.
use sqlite_mcp.Prelude.Text.{Text}
use sqlite_mcp.Prelude.Int.{ℤ}
use sqlite_mcp.Sql.Decimal.{InBounds, parse_i64-to_string}
use sqlite_mcp.Sql.{
  Formats, ValueRef, Value, cell, to_value, null, integer, real, text, blob, null_ref, integer_ref,
  real_ref, text_ref, blob_ref,
}
use sqlite_mcp.Prelude.{ℕ, ◌≡◌, refl, true, some, List, ok}

module _ (f : Formats) where
  -- The value that SQLite holds and a request can give back: an `i64`, a finite number whose print is
  -- read as itself, a text that is UTF-8, and bytes whose base64 text is decoded to them.
  pub data Holds : ValueRef f → Value f → Type 0 where
    of_null : Holds null_ref null
    of_integer : (n : ℤ) → InBounds n → Holds (integer_ref n) (integer n)
    of_real :
        (r : f.Real)
        → f.is_finite r ≡ true
        → f.parse_real (f.real_to_string r) ≡ some r
        → Holds (real_ref r) (real r)
    of_text :
        (bytes : List ℕ) (s : Text) → f.from_utf8 bytes ≡ some s → Holds (text_ref bytes) (text s)
    of_blob :
        (bytes : List ℕ)
        → f.decode (f.encode bytes) ≡ some bytes
        → Holds (blob_ref bytes) (blob bytes)

  -- The cell that a query answers for a value is read back as this value when it is a parameter, if
  -- the value is an `i64`, a finite number that is read back from its print, a text in UTF-8, or bytes
  -- that base64 gives back.
  pub to_value-cell : (r : ValueRef f) (v : Value f) → Holds r v → to_value f (cell f r) ≡ ok v
  unfolding to_value cell
  to_value-cell _ _ of_null = refl
  to_value-cell _ _ (of_integer n h) = rw (parse_i64-to_string n h) refl
  to_value-cell _ _ (of_real r h g) = rw h (rw g (rw h refl))
  to_value-cell _ _ (of_text bytes s h) = rw h refl
  to_value-cell _ _ (of_blob bytes h) = rw h refl

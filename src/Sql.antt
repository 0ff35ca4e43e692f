-- ===== src/Sql.antt =====
-- sql.rs: the values of SQLite, the cells that stand for them in a request or an answer, and the
-- check of a statement's parameters. Floating point numbers, base64 and UTF-8 are a parameter. The
-- decimal numbers of Rust's `i64` are written out.
pub mod Decimal
pub mod Cells
mod Tests
use sqlite_mcp.Prelude.{
  ℕ, ◌+◌, ◌-◌, ◌*◌, Bool, not, ◌&&◌, Option, none, some, List, [], ◌∷◌, any, ltb, leb, ◌==◌,
  if◌then◌else◌, Result, ok, err, ◌>>=◌, ◌>>◌, fail_if, ok_or, length,
}
use sqlite_mcp.Prelude.Text.{Text, codes}
use sqlite_mcp.Prelude.Int.{ℤ, pos, negsuc}
use sqlite_mcp.Worker.Error.{decimal}

-- What the standard library and the crate `base64` give: `f64` with its `parse`, `to_string` and
-- tests, the standard base64 alphabet, and `str::from_utf8`.
pub record Formats : Type 1 where
  pub Real : Type 0
  pub parse_real : Text → Option Real
  pub real_to_string : Real → Text
  pub is_finite : Real → Bool
  pub is_sign_negative : Real → Bool
  pub is_zero : Real → Bool
  pub encode : List ℕ → Text
  pub decode : Text → Option (List ℕ)
  pub from_utf8 : List ℕ → Option Text

pub data Cell : Type 0 where
  null_cell : Cell
  integer_cell real_cell text_cell blob_cell text_bytes_cell : Text → Cell

-- `i64::to_string`.
abbrev pub i64_to_string : ℤ → Text
i64_to_string (pos n) = decimal n
i64_to_string (negsuc n) = b'-' ∷ decimal (n + 1)

abbrev pub is_digit : ℕ → Bool
is_digit c = leb b'0' c && leb c b'9'

-- The number that the digits `s` spell behind digits that spell `n`.
unfoldable pub digits_from : ℕ → Text → Option ℕ
digits_from n [] = some n
digits_from n (c ∷ s) =
    let rest = digits_from (n * 10 + (c - b'0')) s in if is_digit c then rest else none

-- A number has a digit.
unfoldable pub number : Text → Option ℕ
unfolding digits_from
number [] = none
number (c ∷ s) = digits_from 0 (c ∷ s)

abbrev pub i64_max : ℕ
i64_max = 9223372036854775807

abbrev pub positive : Option ℕ → Option ℤ
positive none = none
positive (some n) = if leb n i64_max then some (pos n) else none

abbrev pub negative : Option ℕ → Option ℤ
negative none = none
negative (some n) =
    if n == 0 then some (pos 0) else if leb n (i64_max + 1) then some (negsuc (n - 1)) else none

-- `str::parse::<i64>`.
unfoldable pub parse_i64 : Text → Option ℤ
unfolding number
parse_i64 [] = none
parse_i64 (c ∷ s) =
    if c == b'+'
    then positive (number s)
    else if c == b'-'
    then negative (number s)
    else positive (number (c ∷ s))

-- `as_bytes().contains(&0)`.
abbrev pub has_nul : Text → Bool
has_nul sql = any (λ c. c == 0) sql

module _ (f : Formats) where
  -- `rusqlite::types::Value`.
  pub data Value : Type 0 where
    null : Value
    integer : ℤ → Value
    real : f.Real → Value
    text : Text → Value
    blob : List ℕ → Value

  -- `rusqlite::types::ValueRef`, whose text is bytes.
  pub data ValueRef : Type 0 where
    null_ref : ValueRef
    integer_ref : ℤ → ValueRef
    real_ref : f.Real → ValueRef
    text_ref blob_ref : List ℕ → ValueRef

  abbrev pub finite_real : f.Real → Result Value Text
  finite_real x = if not (f.is_finite x) then err (codes "real must be finite") else ok (real x)

  -- `Cell::to_value`.
  unfoldable pub to_value : Cell → Result Value Text
  unfolding parse_i64
  to_value null_cell = ok null
  to_value (integer_cell v) = ok_or (parse_i64 v) (codes "invalid integer") >>= λ x. ok (integer x)
  to_value (real_cell v) = ok_or (f.parse_real v) (codes "invalid real") >>= finite_real
  to_value (text_cell v) = ok (text v)
  to_value (blob_cell v) = ok_or (f.decode v) (codes "invalid base64") >>= λ x. ok (blob x)
  to_value (text_bytes_cell v) = err (codes "text_bytes parameters are unsupported")

  abbrev pub text_or_bytes : List ℕ → Option Text → Cell
  text_or_bytes x none = text_bytes_cell (f.encode x)
  text_or_bytes x (some s) = text_cell s

  unfoldable pub cell : ValueRef → Cell
  cell null_ref = null_cell
  cell (integer_ref x) = integer_cell (i64_to_string x)
  cell (real_ref x) = real_cell (
      if f.is_finite x
      then f.real_to_string x
      else if f.is_sign_negative x
      then codes "-Infinity"
      else codes "Infinity")
  cell (text_ref x) = text_or_bytes x (f.from_utf8 x)
  cell (blob_ref x) = blob_cell (f.encode x)

  -- `params.iter().map(Cell::to_value).collect()`.
  unfoldable pub to_values : List Cell → Result (List Value) Text
  unfolding to_value
  to_values [] = ok []
  to_values (c ∷ cs) = do v ← to_value c; vs ← to_values cs; ok (v ∷ vs)

  unfoldable pub validate_with_limit : Text → List Cell → ℕ → Result (List Value) Text
  unfolding to_values
  validate_with_limit sql params parameter_limit = do
    fail_if (has_nul sql) (codes "SQL contains NUL byte")
    fail_if (ltb parameter_limit (length params)) (codes "too many parameters")
    to_values params

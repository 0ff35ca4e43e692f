-- ===== src/Sql/Decimal.antt =====
-- sql.rs: the decimal numbers that are printed are read back.
use sqlite_mcp.Prelude.Text.{Text}
use sqlite_mcp.Worker.Error.{digits, decimal}
use sqlite_mcp.Prelude.{subst}
use sqlite_mcp.Prelude.Int.{ℤ, pos, negsuc}
use sqlite_mcp.Sql.{positive, digits_from, number, is_digit, parse_i64, i64_to_string, i64_max}
use sqlite_mcp.Prelude.{
  ℕ, zero, suc, ◌+◌, ◌*◌, ◌≤◌, ◌<◌, ◌≡◌, refl, sym, ◌∙◌, inl, inr, true, some, [], ◌∷◌, arith, ◌==◌,
  Bool-cases, All, same, ◌/◌, ◌%◌,
}

-- A text of digits.
abbrev pub IsDigits : Text → Type 0
IsDigits s = All (λ c. is_digit c ≡ true) s

digits-IsDigits : (fuel n : ℕ) (out : Text) → IsDigits out → IsDigits (digits fuel n out)
unfolding digits
digits-IsDigits zero n out h = h
digits-IsDigits (suc fuel) n out h =
    ground (arith, digits-IsDigits fuel (n / 10) ((b'0' + n % 10) ∷ out))

-- The range of `i64`.
abbrev pub InBounds : ℤ → Type 0
InBounds (pos n) = n ≤ i64_max
InBounds (negsuc n) = n ≤ i64_max

-- Reading a digit behind a number.
digits_from_digit :
    (acc n : ℕ) (out : Text)
    → digits_from acc ((b'0' + n % 10) ∷ out) ≡ digits_from (acc * 10 + n % 10) out
unfolding digits_from
digits_from_digit acc n out = ground arith

digits_from-digits :
    (fuel n : ℕ) (out : Text) → n < fuel → digits_from 0 (digits fuel n out) ≡ digits_from n out
unfolding digits
digits_from-digits zero n out h = elim h [ ]
digits_from-digits (suc fuel) n out h = ground (
  arith,
  digits_from_digit 0 n out,
  digits_from_digit (n / 10) n out,
  digits_from-digits fuel (n / 10) ((b'0' + n % 10) ∷ out),
)

digits-ne-nil :
    (fuel n c : ℕ) (out : Text) → (d : ℕ) × (s : Text) × (digits fuel n (c ∷ out) ≡ d ∷ s)
unfolding digits
digits-ne-nil zero n c out = (c, out, refl)
digits-ne-nil (suc fuel) n c out = elim (Bool-cases (n / 10 == 0)) [
  | inl last ↦ (b'0' + n % 10, c ∷ out, rw last refl)
  | inr more ↦
      let (d, s, same) = digits-ne-nil fuel (n / 10) (b'0' + n % 10) (c ∷ out) in
      (d, s, rw more same)
]

digits_cons : (fuel n : ℕ) → (d : ℕ) × (s : Text) × (digits (suc fuel) n [] ≡ d ∷ s)
unfolding digits
digits_cons fuel n = elim (Bool-cases (n / 10 == 0)) [
  | inl last ↦ (b'0' + n % 10, [], rw last refl)
  | inr more ↦
      let (d, s, same) = digits-ne-nil fuel (n / 10) (b'0' + n % 10) [] in (d, s, rw more same)
]

-- The first digit, and the digits behind it.
pub decimal_cons :
    (n : ℕ) → (d : ℕ) × (s : Text) × (decimal n ≡ d ∷ s) × (is_digit d ≡ true) × IsDigits s
unfolding decimal
decimal_cons n =
    let (d, s, same) = digits_cons n n in
    let all_digits : IsDigits (d ∷ s) = subst IsDigits same (digits-IsDigits (suc n) n [] tt) in
    (d, s, same, all_digits.0, all_digits.1)

number_cons : (s t : Text) (d : ℕ) → s ≡ d ∷ t → number s ≡ digits_from 0 s
unfolding number
number_cons [] t d h = absurd (cc h)
number_cons (c ∷ s) t d h = refl

pub number-decimal : (n : ℕ) → number (decimal n) ≡ some n
unfolding decimal digits_from
number-decimal n =
    let (d, s, same, _, _) = decimal_cons n in
    number_cons (decimal n) s d same ∙ digits_from-digits (suc n) n [] (omega arith)

-- A number is read behind a sign as well, and without one.
pub parse_i64-decimal : (n : ℕ) → parse_i64 (decimal n) ≡ positive (some n)
unfolding parse_i64
parse_i64-decimal n =
    let (d, s, same, digit, _) = decimal_cons n in
    let value : number (d ∷ s) ≡ some n = subst (λ t. number t ≡ some n) same (number-decimal n) in
    subst (λ t. parse_i64 t ≡ positive (some n)) (sym same) (ground (arith, value, digit))

-- Every `i64` is read back from its print.
pub parse_i64-to_string : (v : ℤ) → InBounds v → parse_i64 (i64_to_string v) ≡ some v
unfolding parse_i64
parse_i64-to_string (pos n) h = parse_i64-decimal n ∙ ground arith
parse_i64-to_string (negsuc n) h = rw (number-decimal (n + 1)) (ground arith)

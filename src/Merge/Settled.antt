-- ===== src/Merge/Settled.antt =====
-- merge.rs: the manifest of an extraction states its own size.
use sqlite_mcp.Merge.Split.{MergeError}
use sqlite_mcp.Prelude.Text.{Text}
use sqlite_mcp.Merge.Manifest.{settle_rounds, settle_manifest, manifest_byte_limit}
use sqlite_mcp.Worker.Error.{digits, decimal}
use sqlite_mcp.Prelude.{
  ℕ, zero, suc, ◌+◌, ◌≤◌, ◌<◌, ◌≡◌, refl, sym, ap, ◌∙◌, ◌⊎◌, inl, inr, true, List, [], ◌∷◌, arith,
  ltb, ◌==◌, if◌then◌else◌, Bool-cases, Result, ok, length, same, ◌/◌, ◌%◌,
}

-- The number of digits of a number below ten millions.
abbrev pub width : ℕ → ℕ
width n =
    if ltb n 10
    then 1
    else if ltb n 100
    then 2
    else if ltb n 1000
    then 3
    else if ltb n 10000
    then 4
    else if ltb n 100000
    then 5
    else if ltb n 1000000
    then 6
    else 7

length-digits_step :
    (fuel n : ℕ) (out : Text)
    → length (digits (suc fuel) n out) ≡ (
        if ltb n 10
        then suc (length out)
        else length (digits fuel (n / 10) ((b'0' + n % 10) ∷ out)))
unfolding digits
length-digits_step fuel n out = ground arith

length-digits :
    (fuel n : ℕ) (out : Text)
    → n < fuel
    → length (digits fuel n out) ≡ length (digits fuel n []) + length out
length-digits zero n out h = elim h [ ]
length-digits (suc fuel) n out h = ground (
  arith,
  length-digits_step fuel n out,
  length-digits_step fuel n [],
  length-digits fuel (n / 10) ((b'0' + n % 10) ∷ out),
  length-digits fuel (n / 10) ((b'0' + n % 10) ∷ []),
)

width_step : (n : ℕ) → n < 10000000 → width n ≡ (if ltb n 10 then 1 else width (n / 10) + 1)
width_step n h = ground arith

length-digits-width : (fuel n : ℕ) → n < fuel → n < 10000000 → length (digits fuel n []) ≡ width n
length-digits-width zero n h g = elim h [ ]
length-digits-width (suc fuel) n h g =
    let tenth : n / 10 < 10000000 = omega arith in
    let step = width_step n g in
    elim (Bool-cases (ltb n 10)) [
      | inl small ↦ rw (length-digits_step fuel n [], step, small) refl
      | inr large ↦
          let smaller : n / 10 < fuel = ground (arith, large) in
          let shorter = length-digits fuel (n / 10) ((b'0' + n % 10) ∷ []) smaller in
          let same = length-digits-width fuel (n / 10) smaller tenth in
          rw (length-digits_step fuel n [], step, large) (omega (arith, shorter, same))
    ]

length-decimal : (n : ℕ) → n < 10000000 → length (decimal n) ≡ width n
unfolding decimal
length-decimal n h = length-digits-width (suc n) n (omega arith) h

-- The size of a manifest is that of the rest of it and of the digits of the size that it states.
abbrev pub StatesSize : ℕ → (ℕ → Result (List ℕ) MergeError) → Type 0
StatesSize rest make =
    (n : ℕ)
    → n ≤ manifest_byte_limit
    → (bytes : List ℕ) × (make n ≡ ok bytes) × (length bytes ≡ rest + length (decimal n))

width_settles :
    (b : ℕ)
    → b < 2000000
    → (width (b + width (b + 1)) ≡ width (b + 1))
      ⊎ (width (b + width (b + width (b + 1))) ≡ width (b + width (b + 1)))
width_settles b h = ground arith

module _ (rest : ℕ) (make : ℕ → Result (List ℕ) MergeError) (sized : StatesSize rest make)
    (small : rest ≤ 1000000) where
  -- From this size on the rounds end with a manifest that states its own size.
  abbrev Settles : ℕ → ℕ → Type 0
  Settles k n =
      (manifest : List ℕ)
      → (bytes : List ℕ) × (settle_rounds k make n manifest ≡ ok (bytes, length bytes))
        × (make (length bytes) ≡ ok bytes)

  next_round : (k n : ℕ) → n ≤ manifest_byte_limit → Settles k (rest + width n) → Settles (suc k) n
  unfolding settle_rounds
  next_round k n h later manifest =
      let (bytes, made, size) = sized n h in
      let wide = length-decimal n (omega (arith, h)) in
      let size' : length bytes ≡ rest + width n = omega (arith, size, wide) in
      let (last, settled, stated) = later bytes in
      elim (Bool-cases (n == length bytes)) [
        | inl same ↦
            let here : n ≡ length bytes = ground (arith, same) in
            (bytes, rw (made, same) (ap (λ c. ok (bytes, c)) here), ap make (sym here) ∙ made)
        | inr other ↦ (last, rw (made, other, size') settled, stated)
      ]

  last_round : (k n : ℕ) → n ≤ manifest_byte_limit → n ≡ rest + width n → Settles (suc k) n
  unfolding settle_rounds
  last_round k n h fixed manifest =
      let (bytes, made, size) = sized n h in
      let wide = length-decimal n (omega (arith, h)) in
      let here : n ≡ length bytes = omega (arith, size, wide, fixed) in
      let same : (n == length bytes) ≡ true = ground (arith, here) in
      (bytes, rw (made, same) (ap (λ c. ok (bytes, c)) here), ap make (sym here) ∙ made)

  narrow : (n : ℕ) → width n ≤ 7
  narrow n = ground arith

  -- The four rounds of an extraction find the size of its manifest, so the check behind them passes,
  -- and the manifest states its own size: if the manifest without that number has at most a million
  -- bytes, and the number is written in decimal digits.
  pub settle_manifest_stated :
      (bytes : List ℕ) × (settle_manifest make 0 ≡ ok bytes) × (make (length bytes) ≡ ok bytes)
  unfolding settle_manifest
  settle_manifest_stated =
      let first : rest + 1 ≤ manifest_byte_limit = omega (arith, small) in
      let second : rest + width (rest + 1) ≤ manifest_byte_limit =
        omega (arith, small, narrow (rest + 1)) in
      let c = rest + width (rest + 1) in
      let third : rest + width c ≤ manifest_byte_limit = omega (arith, small, narrow c) in
      let behind : Settles 2 c = elim (width_settles rest (omega (arith, small))) [
        | inl same ↦ last_round 1 c second (omega (arith, same))
        | inr same ↦
            next_round 1 c second (last_round 0 (rest + width c) third (omega (arith, same)))
      ] in
      let (bytes, settled, stated) =
        next_round 3 0 (omega arith) (next_round 2 (rest + 1) first behind) [] in
      (bytes, rw settled (ground arith), stated)

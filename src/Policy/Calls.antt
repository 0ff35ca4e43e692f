-- ===== src/Policy/Calls.antt =====
-- policy.rs: the scan for calls of pragma functions ends, and each step of it leaves less text.
use sqlite_mcp.Prelude.{
  ℕ, zero, suc, ◌≤◌, ◌<◌, ◌≡◌, refl, inl, inr, Bool, not, ◌&&◌, ◌||◌, some, [], ◌∷◌, arith, ◌==◌,
  Option-cases, is_none, length,
}
use sqlite_mcp.Prelude.Text.{Text}
use sqlite_mcp.Policy.Pragma.{plain}
use sqlite_mcp.Policy.Cursor.{Unicode, skip_trivia, take_identifier}
use sqlite_mcp.Policy.Tokens.{length-skip_trivia, length-take_identifier}
use sqlite_mcp.Policy.Stored.{
  drop, closing, after_quoted, take_quoted, after_line, after_block, is_initial, scan,
}

length-drop : (n : ℕ) (s : Text) → length (drop n s) ≤ length s
unfolding drop
length-drop zero s = omega arith
length-drop (suc n) [] = omega arith
length-drop (suc n) (c ∷ s) = ground (arith, length-drop n s)

pub length-after_quoted : (close : ℕ) (s : Text) → length (after_quoted close s) ≤ length s
unfolding after_quoted
length-after_quoted close [] = omega arith
length-after_quoted close (x ∷ []) = omega arith
length-after_quoted close (x ∷ y ∷ s) =
    ground (arith, length-after_quoted close s, length-after_quoted close (y ∷ s))

length-after_line : (s : Text) → length (after_line s) ≤ length s
unfolding after_line
length-after_line [] = omega arith
length-after_line (c ∷ s) = ground (arith, length-after_line s)

length-after_block : (s : Text) → length (after_block s) ≤ length s
unfolding after_block
length-after_block [] = omega arith
length-after_block (c ∷ []) = omega arith
length-after_block (c ∷ d ∷ s) = ground (arith, length-after_block (d ∷ s))

-- A quoted name leaves no more than there was.
length-take_quoted :
    (close : ℕ) (s name after : Text)
    → take_quoted close s ≡ some (name, after)
    → length after ≤ length s
unfolding take_quoted
length-take_quoted close [] name after p = cc
length-take_quoted close (x ∷ []) name after p = ground (arith, p)
length-take_quoted close (x ∷ y ∷ s) name after p = elim (Option-cases (take_quoted close s)) [
  | inl a ↦ elim (Option-cases (take_quoted close (y ∷ s))) [
    | inl b ↦ ground (arith, p, a, b)
    | inr ((n', t'), b) ↦ ground (arith, p, a, b, length-take_quoted close (y ∷ s) n' t' b)
  ]
  | inr ((n, t), a) ↦ elim (Option-cases (take_quoted close (y ∷ s))) [
    | inl b ↦ ground (arith, p, a, b, length-take_quoted close s n t a)
    | inr ((n', t'), b) ↦
        ground (
          arith,
          p,
          a,
          b,
          length-take_quoted close s n t a,
          length-take_quoted close (y ∷ s) n' t' b,
        )
  ]
]

module _ (u : Unicode) where
  -- A character that the scan passes by.
  abbrev pub is_other : ℕ → Bool
  is_other c = is_none (closing c) && not (c == 39 || c == 45 || c == 47) && not (is_initial u c)

  -- The scan ends: every fuel beyond the length of the text gives the same answer, that of
  -- `contains_pragma_table_valued_call`.
  pub scan_fuel : (n m : ℕ) (s : Text) → length s < n → length s < m → scan u n s ≡ scan u m s
  unfolding scan
  scan_fuel zero m s h k = ground (arith, h)
  scan_fuel (suc n) zero s h k = ground (arith, k)
  scan_fuel (suc n) (suc m) [] h k = refl
  scan_fuel (suc n) (suc m) (c ∷ s) h k =
      let ih : (t : Text) → length t ≤ length s → scan u n t ≡ scan u m t =
        λ t b. scan_fuel n m t (ground (arith, h, b)) (ground (arith, k, b)) in
      let word = take_identifier u s in
      elim (Option-cases (closing c)) [
        | inl p ↦ ground (
          arith,
          p,
          ih (after_quoted 39 s) (length-after_quoted 39 s),
          ih (after_line (drop 1 s)) (omega (arith, length-after_line (drop 1 s), length-drop 1 s)),
          ih (after_block (drop 1 s))
              (omega (arith, length-after_block (drop 1 s), length-drop 1 s)),
          ih (skip_trivia u plain word.1)
              (omega (arith, length-skip_trivia u plain word.1, length-take_identifier u s)),
          ih s (omega arith),
        )
        | inr (close, p) ↦ elim (Option-cases (take_quoted close s)) [
          | inl q ↦ ground (arith, p, q)
          | inr ((name, after), q) ↦ ground (
            arith,
            p,
            q,
            ih (skip_trivia u plain after) (
                omega (
                  arith,
                  length-skip_trivia u plain after,
                  length-take_quoted close s name after q,
                )),
          )
        ]
      ]

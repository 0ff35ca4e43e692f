-- ===== src/Policy/Names.antt =====
-- policy.rs: the scan of an object name comes to its end.
use sqlite_mcp.Prelude.{
  ℕ, zero, suc, ◌≤◌, ◌<◌, ◌≡◌, refl, inl, inr, some, [], ◌∷◌, arith, Option-cases, length,
}
use sqlite_mcp.Prelude.Text.{Text}
use sqlite_mcp.Policy.Pragma.{plain}
use sqlite_mcp.Policy.Cursor.{Unicode, skip_trivia, token_of}
use sqlite_mcp.Policy.Tokens.{length-skip_trivia, Next-cases}
use sqlite_mcp.Policy.Stored.{closing, skip_quoted_or_token, skip_components}
use sqlite_mcp.Policy.Calls.{length-after_quoted}
use sqlite_mcp.Policy.Tokens.{token_of_shorter}

module _ (u : Unicode) where
  -- What is left behind a component is no longer than the text.
  quoted_or_token_shorter :
      (r s rest : Text)
      → skip_trivia u plain s ≡ r
      → length r ≤ length s
      → skip_quoted_or_token u s ≡ some rest
      → length rest ≤ length s
  unfolding skip_quoted_or_token
  quoted_or_token_shorter [] s rest p l q = ground (arith, p, q)
  quoted_or_token_shorter (c ∷ cs) s rest p l q = elim (Option-cases (closing c)) [
    | inr (close, k) ↦ ground (arith, p, q, k, l, length-after_quoted close cs)
    | inl k ↦ elim (Next-cases u (token_of u (c ∷ cs))) [
      | inl t ↦ ground (arith, p, q, k, t, l)
      | inr (inl t) ↦ ground (arith, p, q, k, t)
      | inr (inr (word, rest', t)) ↦
          ground (arith, p, q, k, t, l, token_of_shorter u (c ∷ cs) word rest' t)
    ]
  ]

  -- The scan of the components of a name ends: every fuel beyond the length of the text gives the
  -- same result.
  pub skip_components_fuel :
      (n m : ℕ) (s : Text)
      → length s < n
      → length s < m
      → skip_components u n s ≡ skip_components u m s
  unfolding skip_components
  skip_components_fuel zero m s h k = ground (arith, h)
  skip_components_fuel (suc n) zero s h k = ground (arith, k)
  skip_components_fuel (suc n) (suc m) s h k =
      component (skip_trivia u plain s) refl (length-skip_trivia u plain s)
        (λ t a b. skip_components_fuel n m t a b)
    where
      component :
          (r : Text)
          → skip_trivia u plain s ≡ r
          → length r ≤ length s
          → ((t : Text)
              → length t < n
              → length t < m
              → skip_components u n t ≡ skip_components u m t)
          → skip_components u (suc n) s ≡ skip_components u (suc m) s
      component [] p l ih = ground (arith, p)
      component (c ∷ cs) p l ih = elim (Option-cases (skip_quoted_or_token u cs)) [
        | inl q ↦ ground (arith, p, q)
        | inr (rest, q) ↦
            let b =
              quoted_or_token_shorter (skip_trivia u plain cs) cs rest refl
                (length-skip_trivia u plain cs) q in
            ground (arith, p, q, ih rest (omega (arith, h, l, b)) (omega (arith, k, l, b)))
      ]

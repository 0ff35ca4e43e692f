-- ===== src/Merge/Quoting.antt =====
-- merge.rs: the splitter reads a quoted text as one token.
use mathlib.Core.List.{append_assoc}
use sqlite_mcp.Merge.Literal.{double, quoted}
use sqlite_mcp.Prelude.Text.{Text}
use sqlite_mcp.Policy.Cursor.{Unicode}
use sqlite_mcp.Merge.Split.{plain, in_quote, opens_quote, split_from, at_plain}
use sqlite_mcp.Prelude.{
  ℕ, suc, ◌+◌, ◌≡◌, refl, sym, ap, ◌∙◌, inl, inr, true, false, [], ◌∷◌, ◌++◌, arith, ◌==◌, ==_iff,
  Bool-cases, length, length-append,
}

module _ (u : Unicode) (text : Text) where
  -- A character that is not the quote is passed over.
  inside :
      (q start i c d : ℕ) (s : Text)
      → (c == q) ≡ false
      → split_from u text (in_quote q) start i (c ∷ d ∷ s)
        ≡ split_from u text (in_quote q) start (suc i) (d ∷ s)
  unfolding split_from
  inside q start i c d s h = ground (arith, h)

  -- What starts with a character.
  Cons : Text → Type 0
  Cons s = (d : ℕ) × (rest : Text) × (s ≡ d ∷ rest)

  double-Cons : (q : ℕ) (t s : Text) → Cons (double q t ++ (q ∷ s))
  unfolding Cons double
  double-Cons q [] s = (q, s, refl)
  double-Cons q (c ∷ t) s = elim (Bool-cases (c == q)) [
    | inl h ↦ (q, q ∷ (double q t ++ (q ∷ s)), ground (arith, h))
    | inr h ↦ (c, double q t ++ (q ∷ s), ground (arith, h))
  ]

  -- From inside a quote, the doubled text and the quote behind it lead outside.
  closes :
      (q start i j : ℕ) (t : Text) (d : ℕ) (s : Text)
      → (d == q) ≡ false
      → j ≡ i + length (double q t) + 1
      → split_from u text (in_quote q) start i (double q t ++ (q ∷ d ∷ s))
        ≡ split_from u text plain start j (d ∷ s)
  unfolding double split_from Cons
  closes q start i j [] d s h p =
      let p' : j ≡ suc i = omega (arith, p) in ground (arith, h, p', ==_iff q q)
  closes q start i j (c ∷ t) d s h p = elim (Bool-cases (c == q)) [
    | inl e ↦
        let p' : j ≡ i + 2 + length (double q t) + 1 = ground (arith, p, e) in
        ground (arith, e, ==_iff q q, closes q start (i + 2) j t d s h p')
    | inr e ↦
        let p' : j ≡ suc i + length (double q t) + 1 = ground (arith, p, e) in
        let (d', rest, here) = double-Cons q t (d ∷ s) in
        let spelled : double q (c ∷ t) ++ (q ∷ d ∷ s) ≡ c ∷ d' ∷ rest = ground (arith, e, here) in
        ap (split_from u text (in_quote q) start i) spelled
        ∙ inside q start i c d' rest e
        ∙ ap (split_from u text (in_quote q) start (suc i)) (sym here)
        ∙ closes q start (suc i) j t d s h p'
  ]

  opens :
      (q start i d : ℕ) (s : Text)
      → opens_quote q ≡ true
      → split_from u text plain start i (q ∷ d ∷ s)
        ≡ split_from u text (in_quote q) start (suc i) (d ∷ s)
  unfolding split_from at_plain
  opens q start i d s o = ground (arith, o)

  -- Outside of quotes and comments, the splitter passes over a text between quotes as over one token,
  -- whatever is in it, semicolons and comments included: it goes on outside with what follows, which is
  -- not the same quote.
  pub quoted_passes :
      (q start i j : ℕ) (t : Text) (d : ℕ) (s : Text)
      → opens_quote q ≡ true
      → (d == q) ≡ false
      → j ≡ i + length (quoted q t)
      → split_from u text plain start i (quoted q t ++ (d ∷ s))
        ≡ split_from u text plain start j (d ∷ s)
  unfolding quoted Cons
  quoted_passes q start i j t d s o h p =
      let (d', rest, here) = double-Cons q t (d ∷ s) in
      let spelled : quoted q t ++ (d ∷ s) ≡ q ∷ d' ∷ rest =
        ap (λ k. q ∷ k) (append_assoc (double q t) (q ∷ []) (d ∷ s) ∙ here) in
      let p' : j ≡ suc i + length (double q t) + 1 =
        omega (arith, p, length-append (double q t) (q ∷ [])) in
      ap (split_from u text plain start i) spelled
      ∙ opens q start i d' rest o
      ∙ ap (split_from u text (in_quote q) start (suc i)) (sym here)
      ∙ closes q start (suc i) j t d s h p'

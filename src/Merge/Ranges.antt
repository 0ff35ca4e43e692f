-- ===== src/Merge/Ranges.antt =====
-- merge.rs: the statements that the splitter finds make up the text.
use sqlite_mcp.Merge.Split.{
  plain, in_line, in_block, in_bracket, in_quote, finish, with_range, at_plain, split_from,
  split_statements,
}
use sqlite_mcp.Policy.Tail.{take}
use sqlite_mcp.Policy.Stored.{drop}
use sqlite_mcp.Merge.Split.{is_blank, MergeError, slice, Lexing}
use sqlite_mcp.Prelude.Text.{Text}
use sqlite_mcp.Policy.Cursor.{Unicode, is_white}
use sqlite_mcp.Prelude.{
  ℕ, zero, suc, ◌+◌, ◌-◌, ◌≤◌, ◌<◌, ◌≡◌, refl, sym, ap, ◌∙◌, inl, inr, true, false, List, [], ◌∷◌,
  arith, ◌==◌, if◌then◌else◌, Bool-cases, Result, ok, err, subst,
}

module _ (u : Unicode) (text : Text) where
  -- The ranges follow one another without a gap from `start` on, each ends with a semicolon, and
  -- behind the last one there is only white space.
  abbrev pub IsPartition : ℕ → List (ℕ × ℕ) → Type 0
  IsPartition start [] = is_blank u (drop start text) ≡ true
  IsPartition start ((a, b) ∷ ranges) =
      (a ≡ start) × (a < b) × (drop (b - 1) text ≡ b';' ∷ drop b text) × IsPartition b ranges

  -- Whatever ranges a result has, they do.
  Splits : ℕ → Result (List (ℕ × ℕ)) MergeError → Type 0
  Splits start r = (ranges : List (ℕ × ℕ)) → r ≡ ok ranges → IsPartition start ranges

  finish-Splits : (m : Lexing) (start : ℕ) → Splits start (finish u text m start)
  unfolding finish Splits
  finish-Splits plain start [] h = ground (arith, h)
  finish-Splits plain start (r ∷ rs) h = ground (arith, h)
  finish-Splits in_line start [] h = ground (arith, h)
  finish-Splits in_line start (r ∷ rs) h = ground (arith, h)
  finish-Splits in_block start ranges h = ground (arith, h)
  finish-Splits in_bracket start ranges h = ground (arith, h)
  finish-Splits (in_quote q) start ranges h = ground (arith, h)

  drop-suc : (t : Text) (n c : ℕ) (s : Text) → drop n t ≡ c ∷ s → drop (suc n) t ≡ s
  unfolding drop
  drop-suc [] zero c s h = cc
  drop-suc [] (suc n) c s h = cc
  drop-suc (x ∷ t) zero c s h = cc
  drop-suc (x ∷ t) (suc n) c s h = drop-suc t n c s h

  drop_two : (i c d : ℕ) (s : Text) → drop i text ≡ c ∷ d ∷ s → drop (i + 2) text ≡ s
  drop_two i c d s h =
      let p : suc (suc i) ≡ i + 2 = omega arith in
      ap (λ k. drop k text) (sym p) ∙ drop-suc text (suc i) d s (drop-suc text i c (d ∷ s) h)

  drop-nil : (n : ℕ) → drop n [] ≡ []
  unfolding drop
  drop-nil zero = refl
  drop-nil (suc n) = refl

  drop-drop : (t : Text) (n m : ℕ) → drop m (drop n t) ≡ drop (n + m) t
  unfolding drop
  drop-drop t zero m = let p : m ≡ 0 + m = omega arith in ap (λ k. drop k t) p
  drop-drop [] (suc n) m =
      let p : suc (n + m) ≡ suc n + m = omega arith in drop-nil m ∙ ap (λ k. drop k []) p
  drop-drop (x ∷ t) (suc n) m =
      let p : suc (n + m) ≡ suc n + m = omega arith in drop-drop t n m ∙ ap (λ k. drop k (x ∷ t)) p

  -- A blank text has no semicolon at its end.
  take_blank :
      (t : Text) (n c : ℕ) (s : Text)
      → drop n t ≡ c ∷ s
      → is_blank u (take (suc n) t) ≡ true
      → is_white u c ≡ true
  unfolding drop take
  take_blank [] zero c s h b = cc
  take_blank [] (suc n) c s h b = cc
  take_blank (x ∷ t) zero c s h b = ground (arith, h, b)
  take_blank (x ∷ t) (suc n) c s h b = take_blank t n c s h (ground (arith, b))

  slice_not_blank :
      (start i : ℕ) (s : Text)
      → start ≤ i
      → drop i text ≡ b';' ∷ s
      → is_blank u (slice text start (suc i)) ≡ false
  unfolding slice
  slice_not_blank start i s le h =
      let far : start + (i - start) ≡ i = omega (arith, le) in
      let wide : suc i - start ≡ suc (i - start) = omega (arith, le) in
      let at = drop-drop text start (i - start) ∙ ap (λ k. drop k text) far ∙ h in
      elim (Bool-cases (is_blank u (slice text start (suc i)))) [
        | inr q ↦ q
        | inl q ↦
            let q' : is_blank u (take (suc (i - start)) (drop start text)) ≡ true =
              rw (sym wide) q in
            ground (arith, take_blank (drop start text) (i - start) b';' s at q')
      ]

  with_range-Splits :
      (start i : ℕ) (s : Text) (r : Result (List (ℕ × ℕ)) MergeError)
      → start ≤ i
      → drop i text ≡ b';' ∷ s
      → drop (suc i) text ≡ s
      → Splits (suc i) r
      → Splits start (with_range (start, suc i) r)
  unfolding Splits
  with_range-Splits start i s (err x) le h h' rest ranges p = cc
  with_range-Splits start i s (ok rs) le h h' rest [] p = ground (arith, p)
  with_range-Splits start i s (ok rs) le h h' rest ((a, b) ∷ ranges) p =
      let ends : (a ≡ start) × (b ≡ suc i) × (rs ≡ ranges) = ground (arith, p) in
      let here : drop (suc i - 1) text ≡ b';' ∷ drop (suc i) text = ground (arith, h, h') in
      let there : drop (b - 1) text ≡ b';' ∷ drop b text =
        subst (λ k. drop (k - 1) text ≡ b';' ∷ drop k text) (sym ends.1) here in
      (
        ends.0,
        ground (arith, ends, le),
        there,
        subst (λ k. IsPartition k ranges) (sym ends.1) (rest ranges (ap ok ends.2)),
      )

  at_plain-Splits :
      (start i c : ℕ) (s : Text)
      (next bracketed quoted restarted : Result (List (ℕ × ℕ)) MergeError)
      → start ≤ i
      → drop i text ≡ c ∷ s
      → drop (suc i) text ≡ s
      → Splits start next
      → Splits start bracketed
      → Splits start quoted
      → Splits (suc i) restarted
      → Splits start (at_plain u text start i c next bracketed quoted restarted)
  unfolding at_plain Splits
  at_plain-Splits start i c s next bracketed quoted restarted le h h' n b q r ranges p =
      elim (Bool-cases (c == b';')) [
        | inr t ↦ ground (arith, p, t, n ranges, b ranges, q ranges)
        | inl t ↦
            let semicolon : c ≡ b';' = ground (arith, t) in
            let h'' : drop i text ≡ b';' ∷ s = h ∙ ap (λ k. k ∷ s) semicolon in
            ground (
              arith,
              p,
              t,
              b ranges,
              q ranges,
              slice_not_blank start i s le h'',
              with_range-Splits start i s restarted le h'' h' r ranges,
            )
      ]

  split_from-Splits :
      (m : Lexing) (start i : ℕ) (s : Text)
      → start ≤ i
      → drop i text ≡ s
      → Splits start (split_from u text m start i s)
  unfolding split_from Splits
  split_from-Splits m start i [] le h ranges p = finish-Splits m start ranges p
  split_from-Splits in_line start i (c ∷ s) le h ranges p =
      split_from-Splits (if c == b'\n' then plain else in_line) start (suc i) s (omega (arith, le))
        (drop-suc text i c s h) ranges p
  split_from-Splits in_block start i (c ∷ []) le h ranges p =
      ground (arith, finish-Splits in_block start ranges p)
  split_from-Splits in_block start i (c ∷ d ∷ s) le h ranges p =
      let h1 = drop-suc text i c (d ∷ s) h in
      ground (
        arith,
        p,
        split_from-Splits plain start (i + 2) s (omega (arith, le)) (drop_two i c d s h) ranges,
        split_from-Splits in_block start (suc i) (d ∷ s) (omega (arith, le)) h1 ranges,
      )
  split_from-Splits in_bracket start i (c ∷ []) le h ranges p =
      finish-Splits (if c == b']' then plain else in_bracket) start ranges p
  split_from-Splits in_bracket start i (c ∷ d ∷ s) le h ranges p =
      let h1 = drop-suc text i c (d ∷ s) h in
      ground (
        arith,
        p,
        split_from-Splits in_bracket start (i + 2) s (omega (arith, le)) (drop_two i c d s h)
            ranges,
        split_from-Splits plain start (suc i) (d ∷ s) (omega (arith, le)) h1 ranges,
        split_from-Splits in_bracket start (suc i) (d ∷ s) (omega (arith, le)) h1 ranges,
      )
  split_from-Splits (in_quote q) start i (c ∷ []) le h ranges p =
      finish-Splits (if c == q then plain else in_quote q) start ranges p
  split_from-Splits (in_quote q) start i (c ∷ d ∷ s) le h ranges p =
      let h1 = drop-suc text i c (d ∷ s) h in
      ground (
        arith,
        p,
        split_from-Splits (in_quote q) start (i + 2) s (omega (arith, le)) (drop_two i c d s h)
            ranges,
        split_from-Splits plain start (suc i) (d ∷ s) (omega (arith, le)) h1 ranges,
        split_from-Splits (in_quote q) start (suc i) (d ∷ s) (omega (arith, le)) h1 ranges,
      )
  split_from-Splits plain start i (c ∷ []) le h ranges p =
      at_plain-Splits start i c [] (finish u text plain start) (finish u text in_bracket start)
        (finish u text (in_quote c) start) (finish u text plain (suc i)) le h
        (drop-suc text i c [] h) (finish-Splits plain start) (finish-Splits in_bracket start)
        (finish-Splits (in_quote c) start) (finish-Splits plain (suc i)) ranges p
  split_from-Splits plain start i (c ∷ d ∷ s) le h ranges p =
      let h1 = drop-suc text i c (d ∷ s) h in
      ground (
        arith,
        p,
        split_from-Splits in_line start (i + 2) s (omega (arith, le)) (drop_two i c d s h) ranges,
        split_from-Splits in_block start (i + 2) s (omega (arith, le)) (drop_two i c d s h) ranges,
        at_plain-Splits start i c (d ∷ s) (split_from u text plain start (suc i) (d ∷ s))
            (split_from u text in_bracket start (suc i) (d ∷ s))
            (split_from u text (in_quote c) start (suc i) (d ∷ s))
            (split_from u text plain (suc i) (suc i) (d ∷ s)) le h h1
            (split_from-Splits plain start (suc i) (d ∷ s) (omega (arith, le)) h1)
            (split_from-Splits in_bracket start (suc i) (d ∷ s) (omega (arith, le)) h1)
            (split_from-Splits (in_quote c) start (suc i) (d ∷ s) (omega (arith, le)) h1)
            (split_from-Splits plain (suc i) (suc i) (d ∷ s) (omega arith) h1) ranges,
      )

  -- The statements of a merge text make it up: the first starts at the offset, each of the others
  -- where the one before it ends, each is not empty and ends with a semicolon, and behind the last one
  -- there is only white space.
  pub split_statements-IsPartition :
      (offset : ℕ) (ranges : List (ℕ × ℕ))
      → split_statements u text offset ≡ ok ranges
      → IsPartition offset ranges
  unfolding split_statements Splits
  split_statements-IsPartition offset ranges h =
      split_from-Splits plain offset offset (drop offset text) (omega arith) refl ranges h

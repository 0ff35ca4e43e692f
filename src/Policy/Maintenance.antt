-- ===== src/Policy/Maintenance.antt =====
-- policy.rs: what the guard against maintenance statements gives.
use sqlite_mcp.Prelude.{
  ℕ, zero, suc, ◌<◌, ◌≡◌, refl, ap, ◌⊎◌, inl, inr, Bool, true, false, ◌||◌, [], ◌∷◌, ◌++◌, arith,
  length, all,
}
use sqlite_mcp.Prelude.Text.{Text, codes, text_eq, to_ascii_lowercase}
use sqlite_mcp.Policy.Pragma.{plain}
use sqlite_mcp.Policy.Signal.{MutationSignal, mark_policy_denied}
use sqlite_mcp.Policy.Cursor.{
  Unicode, is_ascii, Keyword, missing, panics, exhausted, found, allowed, maintenance, panic,
  is_identifier, skip_trivia, take_identifier, token_of, next, keyword_within,
  first_statement_keyword, behind_query, behind_explain, governing, check_maintenance,
}
use sqlite_mcp.Policy.Tokens.{
  next_shorter, Next-cases, next-stays, is_apart, take_identifier-append,
}

module _ (u : Unicode) where
  -- A search that ends without a panic and leaves a text of ASCII.
  abbrev settles : Keyword → Bool
  settles missing = true
  settles (found word rest) = all is_ascii rest
  settles panics = false
  settles exhausted = false

  keyword_within-settles :
      (fuel : ℕ) (s : Text)
      → length s < fuel
      → all is_ascii s ≡ true
      → settles (keyword_within u fuel s) ≡ true
  unfolding keyword_within
  keyword_within-settles zero s h a = ground (arith, h)
  keyword_within-settles (suc fuel) s h a = elim (Next-cases u (next u s)) [
    | inl p ↦ ground (arith, p)
    | inr (inl p) ↦ ground (arith, p, next-stays u s a)
    | inr (inr (word, rest, p)) ↦ ground (
      arith,
      h,
      p,
      next-stays u s a,
      next_shorter u s word rest p,
      keyword_within-settles fuel rest,
    )
  ]

  first_statement_keyword-settles :
      (s : Text) → all is_ascii s ≡ true → settles (first_statement_keyword u s) ≡ true
  unfolding first_statement_keyword
  first_statement_keyword-settles s a = keyword_within-settles (suc (length s)) s (omega arith) a

  Keyword-cases :
      (k : Keyword)
      → settles k ≡ true
      → (k ≡ missing)
        ⊎ ((word : Text) × (rest : Text) × (k ≡ found word rest) × (all is_ascii rest ≡ true))
  Keyword-cases missing a = inl refl
  Keyword-cases (found word rest) a = inr (word, rest, refl, a)
  Keyword-cases panics a = cc
  Keyword-cases exhausted a = cc

  behind_query-settles :
      (rest : Text) (query : Keyword)
      → all is_ascii rest ≡ true
      → settles query ≡ true
      → settles (behind_query u rest query) ≡ true
  unfolding behind_query
  behind_query-settles rest query a q =
      elim (Keyword-cases (first_statement_keyword u rest)
        (first_statement_keyword-settles rest a)) [
          | inl p ↦ ground (arith, p, q)
          | inr (word, rest', p, b) ↦
              ground (arith, p, q, b, first_statement_keyword-settles rest' b)
        ]

  behind_explain-settles :
      (rest : Text) → all is_ascii rest ≡ true → settles (behind_explain u rest) ≡ true
  unfolding behind_explain
  behind_explain-settles rest a =
      elim (Keyword-cases (first_statement_keyword u rest)
        (first_statement_keyword-settles rest a)) [
          | inl p ↦ ground (arith, p)
          | inr (word, rest', p, b) ↦
              ground (arith, p, b, behind_query-settles rest' (found word rest') b b)
        ]

  governing-settles : (sql : Text) → all is_ascii sql ≡ true → settles (governing u sql) ≡ true
  unfolding governing
  governing-settles sql a =
      elim (Keyword-cases (first_statement_keyword u sql) (first_statement_keyword-settles sql a)) [
        | inl p ↦ ground (arith, p)
        | inr (word, rest, p, b) ↦ ground (arith, p, b, behind_explain-settles rest b)
      ]

  -- On a statement of ASCII characters the guard against maintenance always comes to a decision: it
  -- never panics, and its search for keywords ends. The denial flag is raised exactly if it denies,
  -- and is otherwise left as it was.
  pub check_maintenance-decides :
      (sql : Text) (seen : MutationSignal)
      → all is_ascii sql ≡ true
      → (check_maintenance u sql seen ≡ (maintenance, mark_policy_denied seen))
        ⊎ (check_maintenance u sql seen ≡ (allowed, seen))
  unfolding check_maintenance
  check_maintenance-decides sql seen a =
      elim (Keyword-cases (governing u sql) (governing-settles sql a)) [
        | inl p ↦ inr (ground (arith, p))
        | inr (word, rest, p, b) ↦ ground (arith, p)
      ]

  -- The first word of a statement is its keyword, in lower case.
  first_statement_keyword-word :
      (sql : Text) (c : ℕ) (w t : Text)
      → skip_trivia u plain sql ≡ c ∷ (w ++ t)
      → all (is_identifier u) (c ∷ w) ≡ true
      → is_apart u t ≡ true
      → first_statement_keyword u sql ≡ found (to_ascii_lowercase (c ∷ w)) t
  unfolding first_statement_keyword keyword_within next token_of
  first_statement_keyword-word sql c w t p a b =
      ground (arith, p, a, take_identifier-append u (c ∷ w) t a b)

  denies_word :
      (sql word t : Text) (seen : MutationSignal)
      → first_statement_keyword u sql ≡ found word t
      → text_eq word (codes "explain") ≡ false
      → (text_eq word (codes "analyze") || text_eq word (codes "reindex")) ≡ true
      → check_maintenance u sql seen ≡ (maintenance, mark_policy_denied seen)
  unfolding check_maintenance governing
  denies_word sql word t seen p other denied = ground (arith, p, other, denied)

  -- A statement whose first word, behind any white space and comments, is REINDEX or ANALYZE in any
  -- capitals is denied, whatever follows the word, and the denial flag is raised.
  pub check_maintenance_denies :
      (sql : Text) (c : ℕ) (w t : Text) (seen : MutationSignal)
      → skip_trivia u plain sql ≡ c ∷ (w ++ t)
      → all (is_identifier u) (c ∷ w) ≡ true
      → is_apart u t ≡ true
      → (to_ascii_lowercase (c ∷ w) ≡ codes "reindex")
        ⊎ (to_ascii_lowercase (c ∷ w) ≡ codes "analyze")
      → check_maintenance u sql seen ≡ (maintenance, mark_policy_denied seen)
  unfolding text_eq
  check_maintenance_denies sql c w t seen p a b k =
      let word = to_ascii_lowercase (c ∷ w) in
      denies_word sql word t seen (first_statement_keyword-word sql c w t p a b) (other k)
        (denied k)
    where
      other :
          (to_ascii_lowercase (c ∷ w) ≡ codes "reindex")
            ⊎ (to_ascii_lowercase (c ∷ w) ≡ codes "analyze")
          → text_eq (to_ascii_lowercase (c ∷ w)) (codes "explain") ≡ false
      other (inl k) = ap (λ v. text_eq v (codes "explain")) k
      other (inr k) = ap (λ v. text_eq v (codes "explain")) k

      denied :
          (to_ascii_lowercase (c ∷ w) ≡ codes "reindex")
            ⊎ (to_ascii_lowercase (c ∷ w) ≡ codes "analyze")
          → (text_eq (to_ascii_lowercase (c ∷ w)) (codes "analyze")
              || text_eq (to_ascii_lowercase (c ∷ w)) (codes "reindex"))
            ≡ true
      denied (inl k) = ap (λ v. text_eq v (codes "analyze") || text_eq v (codes "reindex")) k
      denied (inr k) = ap (λ v. text_eq v (codes "analyze") || text_eq v (codes "reindex")) k

  -- A byte order mark before a statement, which SQLite reads as a space, makes the guard panic, as
  -- long as Rust counts it neither as white space nor as alphanumeric.
  pub check_maintenance_byte_order_mark :
      (sql : Text) (seen : MutationSignal)
      → u.alphanumeric 65279 ≡ false
      → u.whitespace 65279 ≡ false
      → (check_maintenance u (65279 ∷ sql) seen).0 ≡ panic
  unfolding check_maintenance governing first_statement_keyword keyword_within next skip_trivia
      token_of take_identifier is_identifier
  check_maintenance_byte_order_mark [] seen a w = ground (arith, a, w)
  check_maintenance_byte_order_mark (c ∷ sql) seen a w = ground (arith, a, w)

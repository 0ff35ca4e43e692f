-- ===== src/Policy/Tokens.antt =====
-- policy.rs: what a token takes of a text, and what it leaves.
use sqlite_mcp.Prelude.{
  ◌≤◌, ◌<◌, ◌≡◌, refl, ◌⊎◌, inl, inr, Bool, true, false, not, [], ◌∷◌, ◌++◌, arith, length, all,
}
use sqlite_mcp.Prelude.Text.{Text}
use sqlite_mcp.Policy.Pragma.{Mode, plain, line, block}
use sqlite_mcp.Policy.Cursor.{
  Unicode, is_ascii, Next, ended, panicked, token, is_identifier, skip_trivia, take_identifier,
  token_of, next,
}

module _ (u : Unicode) where
  pub length-skip_trivia : (m : Mode) (s : Text) → length (skip_trivia u m s) ≤ length s
  unfolding skip_trivia
  length-skip_trivia plain [] = omega arith
  length-skip_trivia plain (c ∷ []) = ground arith
  length-skip_trivia plain (c ∷ d ∷ s) = ground (
    arith,
    length-skip_trivia plain (d ∷ s),
    length-skip_trivia line s,
    length-skip_trivia block s,
  )
  length-skip_trivia line [] = omega arith
  length-skip_trivia line (c ∷ s) =
      ground (arith, length-skip_trivia plain s, length-skip_trivia line s)
  length-skip_trivia block [] = omega arith
  length-skip_trivia block (c ∷ []) = omega arith
  length-skip_trivia block (c ∷ d ∷ s) =
      ground (arith, length-skip_trivia plain s, length-skip_trivia block (d ∷ s))

  pub length-take_identifier : (s : Text) → length (take_identifier u s).1 ≤ length s
  unfolding take_identifier
  length-take_identifier [] = omega arith
  length-take_identifier (c ∷ s) = ground (arith, length-take_identifier s)

  -- A token leaves less than there was.
  pub token_of_shorter :
      (s word rest : Text) → token_of u s ≡ token word rest → length rest < length s
  unfolding token_of take_identifier
  token_of_shorter [] word rest p = cc
  token_of_shorter (c ∷ s) word rest p = ground (arith, p, length-take_identifier s)

  pub next_shorter : (s word rest : Text) → next u s ≡ token word rest → length rest < length s
  unfolding next
  next_shorter s word rest p =
      ground
        (arith, token_of_shorter (skip_trivia u plain s) word rest p, length-skip_trivia plain s)

  pub Next-cases :
      (n : Next)
      → (n ≡ ended) ⊎ (n ≡ panicked) ⊎ ((word : Text) × (rest : Text) × (n ≡ token word rest))
  Next-cases ended = inl refl
  Next-cases panicked = inr (inl refl)
  Next-cases (token word rest) = inr (inr (word, rest, refl))

  pub skip_trivia-ascii :
      (m : Mode) (s : Text) → all is_ascii s ≡ true → all is_ascii (skip_trivia u m s) ≡ true
  unfolding skip_trivia
  skip_trivia-ascii plain [] a = refl
  skip_trivia-ascii plain (c ∷ []) a = ground (arith, a)
  skip_trivia-ascii plain (c ∷ d ∷ s) a = ground (
    arith,
    a,
    skip_trivia-ascii plain (d ∷ s),
    skip_trivia-ascii line s,
    skip_trivia-ascii block s,
  )
  skip_trivia-ascii line [] a = refl
  skip_trivia-ascii line (c ∷ s) a =
      ground (arith, a, skip_trivia-ascii plain s, skip_trivia-ascii line s)
  skip_trivia-ascii block [] a = refl
  skip_trivia-ascii block (c ∷ []) a = refl
  skip_trivia-ascii block (c ∷ d ∷ s) a =
      ground (arith, a, skip_trivia-ascii plain s, skip_trivia-ascii block (d ∷ s))

  pub take_identifier-ascii :
      (s : Text) → all is_ascii s ≡ true → all is_ascii (take_identifier u s).1 ≡ true
  unfolding take_identifier
  take_identifier-ascii [] a = refl
  take_identifier-ascii (c ∷ s) a = ground (arith, a, take_identifier-ascii s)

  -- A step that does not panic leaves a text of ASCII.
  abbrev pub stays : Next → Bool
  stays ended = true
  stays panicked = false
  stays (token word rest) = all is_ascii rest

  pub token_of-stays : (s : Text) → all is_ascii s ≡ true → stays (token_of u s) ≡ true
  unfolding token_of take_identifier
  token_of-stays [] a = refl
  token_of-stays (c ∷ s) a = ground (arith, a, take_identifier-ascii s)

  pub next-stays : (s : Text) → all is_ascii s ≡ true → stays (next u s) ≡ true
  unfolding next
  next-stays s a = token_of-stays (skip_trivia u plain s) (skip_trivia-ascii plain s a)

  -- No identifier goes on here.
  abbrev pub is_apart : Text → Bool
  is_apart [] = true
  is_apart (c ∷ s) = not (is_identifier u c)

  pub take_identifier-append :
      (w t : Text)
      → all (is_identifier u) w ≡ true
      → is_apart t ≡ true
      → take_identifier u (w ++ t) ≡ (w, t)
  unfolding take_identifier
  take_identifier-append [] [] a b = refl
  take_identifier-append [] (c ∷ t) a b = ground (arith, b)
  take_identifier-append (c ∷ w) t a b = ground (arith, a, take_identifier-append w t)

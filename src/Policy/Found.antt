-- ===== src/Policy/Found.antt =====
-- policy.rs: the scan of a stored body finds the calls of pragma functions.
use sqlite_mcp.Prelude.{
  ℕ, suc, ◌<◌, ◌≡◌, sym, ap, ◌∙◌, inl, inr, Bool, true, false, not, ◌&&◌, ◌||◌, none, some, List,
  [], ◌∷◌, ◌++◌, arith, ◌==◌, ==_iff, Option-cases, Bool-cases, length, length-append, all, subst,
}
use sqlite_mcp.Prelude.Text.{
  Text, codes, to_ascii_lowercase, starts_with-append, lower, starts_with,
}
use sqlite_mcp.Policy.Pragma.{plain}
use sqlite_mcp.Policy.Cursor.{Unicode, is_ascii, is_identifier, skip_trivia, is_white}
use sqlite_mcp.Policy.Tokens.{length-skip_trivia, take_identifier-append, is_apart}
use sqlite_mcp.Policy.Pieces.{
  Piece, mark, word, quoted, spell, is_quote, after_quoted-append, take_quoted-append, are_pieces,
  mark_parts, word_parts, quoted_parts,
}
use sqlite_mcp.Policy.Calls.{scan_fuel, is_other}
use sqlite_mcp.Policy.Stored.{
  closing, after_quoted, take_quoted, is_initial, is_pragma_call, scan,
  contains_pragma_table_valued_call, begins_with,
}

and_true : (b c : Bool) → b ≡ true → c ≡ true → (b && c) ≡ true
and_true b c h h' = ground (arith, h, h')

or_true : (b c : Bool) → c ≡ true → (b || c) ≡ true
or_true b c h = ground (arith, h)

true_or : (b c : Bool) → b ≡ true → (b || c) ≡ true
true_or b c h = ground (arith, h)

first_same : (c d : ℕ) {s t : Text} → ◌≡◌ {A = Text} (c ∷ s) (d ∷ t) → c ≡ d
first_same c d h = cc h

module _ (u : Unicode) where
  abbrev finds : Text → Bool
  finds s = contains_pragma_table_valued_call u s

  finds_lem : (n : ℕ) (s : Text) → length s < n → scan u n s ≡ finds s
  unfolding contains_pragma_table_valued_call
  finds_lem n s h = scan_fuel u n (suc (length s)) s h (omega arith)

  -- What the skipping of trivia does with a first character.
  skip_white :
      (c : ℕ) (s : Text) → is_white u c ≡ true → skip_trivia u plain (c ∷ s) ≡ skip_trivia u plain s
  unfolding skip_trivia
  skip_white c [] h = ground (arith, h)
  skip_white c (d ∷ s) h = ground (arith, h)

  skip_stays :
      (c : ℕ) (s : Text)
      → is_white u c ≡ false
      → (c == 45) ≡ false
      → (c == 47) ≡ false
      → skip_trivia u plain (c ∷ s) ≡ c ∷ s
  unfolding skip_trivia
  skip_stays c [] h p p' = ground (arith, h)
  skip_stays c (d ∷ s) h p p' = ground (arith, h, p, p')

  initial_lem :
      (c : ℕ)
      → is_initial u c ≡ true
      → is_ascii c ≡ true
      → (closing c ≡ none)
        × ((c == 39) ≡ false)
        × ((c == 45) ≡ false)
        × ((c == 47) ≡ false)
        × (is_white u c ≡ false)
  unfolding is_initial closing
  initial_lem c i a = ground (arith, i, a)

  -- A text that begins with a character other than white space, and in which the scan finds a call,
  -- also behind the trivia at its start.
  abbrev IsFound : Text → Type 0
  IsFound s = (finds s ≡ true) × (finds (skip_trivia u plain s) ≡ true)

  unskipped : (s : Text) → skip_trivia u plain s ≡ s → finds s ≡ true → IsFound s
  unskipped s same h = (h, ap finds same ∙ h)

  scan_word :
      (n c : ℕ) (w s : Text)
      → is_initial u c ≡ true
      → is_ascii c ≡ true
      → all (is_identifier u) w ≡ true
      → is_apart u s ≡ true
      → scan u (suc n) (c ∷ (w ++ s))
        ≡ (is_pragma_call u (c ∷ w) s || scan u n (skip_trivia u plain s))
  unfolding scan
  scan_word n c w s i a h apart =
      let (open', string, dash, slash, _) = initial_lem c i a in
      ground (arith, open', string, dash, slash, i, take_identifier-append u w s h apart)

  scan_string : (n : ℕ) (s : Text) → scan u (suc n) (39 ∷ s) ≡ scan u n (after_quoted 39 s)
  unfolding scan closing
  scan_string n s = ground arith

  scan_name :
      (n q : ℕ) (s name after : Text)
      → closing q ≡ some q
      → take_quoted q s ≡ some (name, after)
      → scan u (suc n) (q ∷ s)
        ≡ (is_pragma_call u name after || scan u n (skip_trivia u plain after))
  unfolding scan
  scan_name n q s name after p p' = ground (arith, p, p')

  closing_quote : (q : ℕ) → is_quote q ≡ true → (q == 39) ≡ false → closing q ≡ some q
  unfolding closing
  closing_quote q h p = ground (arith, h, p)

  not_square : (q : ℕ) → is_quote q ≡ true → (q == 93) ≡ false
  not_square q h = ground (arith, h)

  same_number : (m n : ℕ) → (m == n) ≡ true → m ≡ n
  same_number m n h = ground (arith, h, ==_iff m n)

  scan_quoted :
      (n q : ℕ) (body s : Text)
      → is_quote q ≡ true
      → all (λ c. not (c == q)) body ≡ true
      → begins_with q s ≡ false
      → length s < n
      → IsFound s
      → scan u (suc n) (q ∷ (body ++ (q ∷ s))) ≡ true
  scan_quoted n q body s k a b h (found, found') =
      let square = not_square q k in
      elim (Bool-cases (q == 39)) [
        | inl string ↦
            let skips = after_quoted-append q body s square a b in
            let same = same_number q 39 string in
            subst (λ v. scan u (suc n) (v ∷ (body ++ (q ∷ s))) ≡ true) (sym same)
              (scan_string n (body ++ (q ∷ s))
                ∙ ap (scan u n) (ap (λ v. after_quoted v (body ++ (q ∷ s))) (sym same) ∙ skips)
                ∙ finds_lem n s h
                ∙ found)
        | inr name ↦
            scan_name n q (body ++ (q ∷ s)) body s (closing_quote q k name)
              (take_quoted-append q body s square a b)
            ∙ or_true (is_pragma_call u body s) (scan u n (skip_trivia u plain s)) (
                finds_lem n (skip_trivia u plain s) (omega (arith, h, length-skip_trivia u plain s))
                ∙ found')
      ]

  passed : (n x : ℕ) (s : Text) → is_other u x ≡ true → scan u (suc n) (x ∷ s) ≡ scan u n s
  unfolding scan
  passed n x s b = elim (Option-cases (closing x)) [
    | inl p ↦ ground (arith, b, p)
    | inr (close, p) ↦ ground (arith, b, p)
  ]

  other_lem : (c : ℕ) → is_other u c ≡ true → ((c == 45) ≡ false) × ((c == 47) ≡ false)
  other_lem c h = ground (arith, h)

  quote_lem :
      (q : ℕ)
      → is_quote q ≡ true
      → (is_white u q ≡ false) × ((q == 45) ≡ false) × ((q == 47) ≡ false)
  quote_lem q h = ground (arith, h)

  IsFound-mark : (c : ℕ) (s : Text) → is_other u c ≡ true → IsFound s → IsFound (c ∷ s)
  unfolding contains_pragma_table_valued_call
  IsFound-mark c s o (found, found') =
      let here : finds (c ∷ s) ≡ true = passed (suc (length s)) c s o ∙ found in
      elim (Bool-cases (is_white u c)) [
        | inl white ↦ (here, ap finds (skip_white c s white) ∙ found')
        | inr dark ↦
            let (dash, slash) = other_lem c o in
            unskipped (c ∷ s) (skip_stays c s dark dash slash) here
      ]

  IsFound-word :
      (c : ℕ) (w s : Text)
      → is_initial u c ≡ true
      → is_ascii c ≡ true
      → all (is_identifier u) w ≡ true
      → is_apart u s ≡ true
      → IsFound s
      → IsFound (c ∷ (w ++ s))
  unfolding contains_pragma_table_valued_call
  IsFound-word c w s i a h apart (found, found') =
      let (_, _, dash, slash, dark) = initial_lem c i a in
      let n = suc (length (w ++ s)) in
      let skipped =
        finds_lem n (skip_trivia u plain s)
          (omega (arith, length-skip_trivia u plain s, length-append w s))
        ∙ found' in
      unskipped (c ∷ (w ++ s)) (skip_stays c (w ++ s) dark dash slash)
        (scan_word n c w s i a h apart ∙ or_true (is_pragma_call u (c ∷ w) s) _ skipped)

  IsFound-quoted :
      (q : ℕ) (body s : Text)
      → is_quote q ≡ true
      → all (λ c. not (c == q)) body ≡ true
      → begins_with q s ≡ false
      → IsFound s
      → IsFound (q ∷ (body ++ (q ∷ s)))
  unfolding contains_pragma_table_valued_call
  IsFound-quoted q body s k a b found =
      let (dark, dash, slash) = quote_lem q k in
      let n = suc (length (body ++ (q ∷ s))) in
      unskipped (q ∷ (body ++ (q ∷ s))) (skip_stays q (body ++ (q ∷ s)) dark dash slash)
        (scan_quoted n q body s k a b (omega (arith, length-append body (q ∷ s))) found)

  are_pieces-IsFound :
      (ps : List Piece) (call : Text)
      → are_pieces u ps call ≡ true
      → IsFound call
      → IsFound (spell ps call)
  unfolding spell
  are_pieces-IsFound [] call a found = found
  are_pieces-IsFound (mark c ∷ ps) call a found =
      let (other, rest) = mark_parts u c ps call a in
      IsFound-mark c (spell ps call) other (are_pieces-IsFound ps call rest found)
  are_pieces-IsFound (word c w ∷ ps) call a found =
      let (initial, ascii, identifier, apart, rest) = word_parts u c w ps call a in
      IsFound-word c w (spell ps call) initial ascii identifier apart
        (are_pieces-IsFound ps call rest found)
  are_pieces-IsFound (quoted q body ∷ ps) call a found =
      let (quote, inside, behind, rest) = quoted_parts u q body ps call a in
      IsFound-quoted q body (spell ps call) quote inside behind
        (are_pieces-IsFound ps call rest found)

  -- A letter that is `p` in lower case.
  letter_p : (c : ℕ) → lower c ≡ 112 → (is_initial u c ≡ true) × (is_ascii c ≡ true)
  unfolding lower is_initial
  letter_p c h = ground (arith, h)

  call_here :
      (c : ℕ) (w after name rest : Text)
      → to_ascii_lowercase (c ∷ w) ≡ codes "pragma_" ++ name
      → skip_trivia u plain after ≡ 40 ∷ rest
      → is_pragma_call u (c ∷ w) after ≡ true
  unfolding is_pragma_call
  call_here c w after name rest lowers opens =
      and_true (begins_with 40 (skip_trivia u plain after))
        (starts_with (to_ascii_lowercase (c ∷ w)) (codes "pragma_")) (ap (begins_with 40) opens)
        (ap (λ t. starts_with t (codes "pragma_")) lowers
          ∙ starts_with-append (codes "pragma_") name)

  IsFound-call :
      (c : ℕ) (w after name rest : Text)
      → all (is_identifier u) w ≡ true
      → is_apart u after ≡ true
      → to_ascii_lowercase (c ∷ w) ≡ codes "pragma_" ++ name
      → skip_trivia u plain after ≡ 40 ∷ rest
      → IsFound (c ∷ (w ++ after))
  unfolding contains_pragma_table_valued_call to_ascii_lowercase
  IsFound-call c w after name rest h apart lowers opens =
      let (i, a) = letter_p c (first_same _ _ lowers) in
      let (_, _, dash, slash, dark) = initial_lem c i a in
      unskipped (c ∷ (w ++ after)) (skip_stays c (w ++ after) dark dash slash) (
        scan_word (suc (length (w ++ after))) c w after i a h apart
        ∙ true_or (is_pragma_call u (c ∷ w) after) _ (call_here c w after name rest lowers opens))

  -- The scan of a stored body sees a call of a pragma function: a word that is `pragma_` and more in
  -- any capitals, with a parenthesis behind it, white space and comments aside, whatever follows. Before
  -- it there may be any words, any string literals and quoted names without their own quote inside, and
  -- any characters but brackets, dashes and slashes.
  pub scan_finds_call :
      (ps : List Piece) (c : ℕ) (w after name rest : Text)
      → are_pieces u ps (c ∷ (w ++ after)) ≡ true
      → all (is_identifier u) w ≡ true
      → is_apart u after ≡ true
      → to_ascii_lowercase (c ∷ w) ≡ codes "pragma_" ++ name
      → skip_trivia u plain after ≡ 40 ∷ rest
      → contains_pragma_table_valued_call u (spell ps (c ∷ (w ++ after))) ≡ true
  scan_finds_call ps c w after name rest a h apart lowers opens =
      (are_pieces-IsFound ps (c ∷ (w ++ after)) a
        (IsFound-call c w after name rest h apart lowers opens)).0

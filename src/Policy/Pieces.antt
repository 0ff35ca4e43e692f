-- ===== src/Policy/Pieces.antt =====
-- policy.rs: what may stand before a call in a stored body.
use sqlite_mcp.Prelude.{
  ℕ, ◌≡◌, refl, Bool, true, false, not, ◌&&◌, ◌||◌, some, List, [], ◌∷◌, ◌++◌, arith, ◌==◌, ==_iff,
  all,
}
use sqlite_mcp.Prelude.Text.{Text}
use sqlite_mcp.Policy.Cursor.{Unicode, is_ascii, is_identifier}
use sqlite_mcp.Policy.Tokens.{is_apart}
use sqlite_mcp.Policy.Calls.{is_other}
use sqlite_mcp.Policy.Stored.{closing, after_quoted, take_quoted, is_initial, begins_with}

-- What may stand before a call: single characters, words, string literals and quoted names.
pub data Piece : Type 0 where
  mark : ℕ → Piece
  word : ℕ → Text → Piece
  quoted : ℕ → Text → Piece

-- The text of the pieces, before another text.
unfoldable pub spell : List Piece → Text → Text
spell [] call = call
spell (mark c ∷ ps) call = c ∷ spell ps call
spell (word c w ∷ ps) call = c ∷ (w ++ spell ps call)
spell (quoted q body ∷ ps) call = q ∷ (body ++ (q ∷ spell ps call))

abbrev pub is_quote : ℕ → Bool
is_quote c = c == 39 || c == 34 || c == 96

pub after_quoted-append :
    (q : ℕ) (body t : Text)
    → (q == 93) ≡ false
    → all (λ c. not (c == q)) body ≡ true
    → begins_with q t ≡ false
    → after_quoted q (body ++ (q ∷ t)) ≡ t
unfolding after_quoted
after_quoted-append q [] [] n a b = ground arith
after_quoted-append q [] (d ∷ t) n a b = ground (arith, b, ==_iff q q)
after_quoted-append q (c ∷ []) t n a b = ground (arith, a, after_quoted-append q [] t n refl b)
after_quoted-append q (c ∷ d ∷ body) t n a b =
    ground (arith, a, after_quoted-append q (d ∷ body) t n)

pub take_quoted-append :
    (q : ℕ) (body t : Text)
    → (q == 93) ≡ false
    → all (λ c. not (c == q)) body ≡ true
    → begins_with q t ≡ false
    → take_quoted q (body ++ (q ∷ t)) ≡ some (body, t)
unfolding take_quoted
take_quoted-append q [] [] n a b = ground (arith, ==_iff q q)
take_quoted-append q [] (d ∷ t) n a b = ground (arith, b, ==_iff q q)
take_quoted-append q (c ∷ []) t n a b = ground (arith, a, take_quoted-append q [] t n refl b)
take_quoted-append q (c ∷ d ∷ body) t n a b = ground (arith, a, take_quoted-append q (d ∷ body) t n)

pub left_true : (b c : Bool) → (b && c) ≡ true → b ≡ true
left_true b c h = ground (arith, h)

pub right_true : (b c : Bool) → (b && c) ≡ true → c ≡ true
right_true b c h = ground (arith, h)

pub false_of_not : (b : Bool) → not b ≡ true → b ≡ false
false_of_not b h = ground (arith, h)

module _ (u : Unicode) where
  -- The pieces are what they are named: a character that begins nothing, a whole word that begins with
  -- an ASCII letter, and a quoted text without its quote, behind which no other such quote stands.
  unfoldable pub are_pieces : List Piece → Text → Bool
  unfolding spell is_initial is_identifier closing
  are_pieces [] call = true
  are_pieces (mark c ∷ ps) call = is_other u c && are_pieces ps call
  are_pieces (word c w ∷ ps) call =
      is_initial u c
      && is_ascii c
      && all (is_identifier u) w
      && is_apart u (spell ps call)
      && are_pieces ps call
  are_pieces (quoted q body ∷ ps) call =
      is_quote q
      && all (λ c. not (c == q)) body
      && not (begins_with q (spell ps call))
      && are_pieces ps call

  pub mark_parts :
      (c : ℕ) (ps : List Piece) (call : Text)
      → are_pieces (mark c ∷ ps) call ≡ true
      → (is_other u c ≡ true) × (are_pieces ps call ≡ true)
  unfolding are_pieces
  mark_parts c ps call h = (left_true _ _ h, right_true _ _ h)

  pub word_parts :
      (c : ℕ) (w : Text) (ps : List Piece) (call : Text)
      → are_pieces (word c w ∷ ps) call ≡ true
      → (is_initial u c ≡ true)
        × (is_ascii c ≡ true)
        × (all (is_identifier u) w ≡ true)
        × (is_apart u (spell ps call) ≡ true)
        × (are_pieces ps call ≡ true)
  unfolding are_pieces
  word_parts c w ps call h =
      let h1 = left_true _ _ h in
      let h2 = left_true _ _ h1 in
      let h3 = left_true _ _ h2 in
      (left_true _ _ h3, right_true _ _ h3, right_true _ _ h2, right_true _ _ h1, right_true _ _ h)

  pub quoted_parts :
      (q : ℕ) (body : Text) (ps : List Piece) (call : Text)
      → are_pieces (quoted q body ∷ ps) call ≡ true
      → (is_quote q ≡ true)
        × (all (λ c. not (c == q)) body ≡ true)
        × (begins_with q (spell ps call) ≡ false)
        × (are_pieces ps call ≡ true)
  unfolding are_pieces
  quoted_parts q body ps call h =
      let h1 = left_true _ _ h in
      let h2 = left_true _ _ h1 in
      (left_true _ _ h2, right_true _ _ h2, false_of_not _ (right_true _ _ h1), right_true _ _ h)

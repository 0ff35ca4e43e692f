-- ===== src/Policy/Bodies.antt =====
-- policy.rs: the guard against stored bodies comes to a decision on every ASCII statement.
use sqlite_mcp.Prelude.{
  ℕ, zero, suc, ◌≡◌, refl, ◌⊎◌, inl, inr, Bool, true, false, ◌||◌, Option, none, some, [], ◌∷◌,
  arith, if◌then◌else◌, Option-cases, length, all,
}
use sqlite_mcp.Prelude.Text.{Text, codes, text_eq, to_ascii_lowercase}
use sqlite_mcp.Policy.Pragma.{plain}
use sqlite_mcp.Policy.Signal.{MutationSignal, mark_policy_denied, mark_ddl_attempt}
use sqlite_mcp.Policy.Cursor.{
  Unicode, is_ascii, Next, ended, panicked, token, skip_trivia, token_of, next,
}
use sqlite_mcp.Policy.Tokens.{skip_trivia-ascii, token_of-stays, next-stays, stays, Next-cases}
use sqlite_mcp.Policy.Stored.{
  Judgement, accepted, denied, crashed, drop, closing, after_quoted, skip_word_if,
  skip_quoted_or_token, skip_parenthesized, skip_components, skip_object_name,
  contains_pragma_table_valued_call, lowered, check_body, is_stored, check_kind, check_stored_body,
}

drop-ascii : (n : ℕ) (s : Text) → all is_ascii s ≡ true → all is_ascii (drop n s) ≡ true
unfolding drop
drop-ascii zero s a = a
drop-ascii (suc n) [] a = refl
drop-ascii (suc n) (c ∷ s) a = ground (arith, a, drop-ascii n s)

after_quoted-ascii :
    (close : ℕ) (s : Text) → all is_ascii s ≡ true → all is_ascii (after_quoted close s) ≡ true
unfolding after_quoted
after_quoted-ascii close [] a = refl
after_quoted-ascii close (x ∷ []) a = refl
after_quoted-ascii close (x ∷ y ∷ s) a =
    ground (arith, a, after_quoted-ascii close s, after_quoted-ascii close (y ∷ s))

module _ (u : Unicode) where
  skip_word_if-ascii :
      (word s : Text) → all is_ascii s ≡ true → all is_ascii (skip_word_if u word s) ≡ true
  unfolding skip_word_if
  skip_word_if-ascii word s a =
      let r = skip_trivia-ascii u plain s a in
      ground (arith, r, drop-ascii (length word) (skip_trivia u plain s) r)

  -- A text of ASCII, or none.
  abbrev keeps : Option Text → Bool
  keeps none = false
  keeps (some s) = all is_ascii s

  skipped_token-keeps :
      (c : ℕ) (cs : Text) → all is_ascii (c ∷ cs) ≡ true → stays u (token_of u (c ∷ cs)) ≡ true
  skipped_token-keeps c cs a = token_of-stays u (c ∷ cs) a

  -- `skip_quoted_or_token` behind its trivia.
  quoted_or_token-keeps :
      (r : Text)
      → all is_ascii r ≡ true
      → (s : Text) → skip_trivia u plain s ≡ r
      → keeps (skip_quoted_or_token u s) ≡ true
  unfolding skip_quoted_or_token
  quoted_or_token-keeps [] a s p = ground (arith, p)
  quoted_or_token-keeps (c ∷ cs) a s p = elim (Option-cases (closing c)) [
    | inr (close, q) ↦ ground (arith, a, p, q, after_quoted-ascii close cs)
    | inl q ↦ elim (Next-cases u (token_of u (c ∷ cs))) [
      | inl t ↦ ground (arith, p, q, t)
      | inr (inl t) ↦ ground (arith, t, token_of-stays u (c ∷ cs) a)
      | inr (inr (word, rest, t)) ↦ ground (arith, p, q, t, token_of-stays u (c ∷ cs) a)
    ]
  ]

  skip_quoted_or_token-keeps :
      (s : Text) → all is_ascii s ≡ true → keeps (skip_quoted_or_token u s) ≡ true
  skip_quoted_or_token-keeps s a =
      quoted_or_token-keeps (skip_trivia u plain s) (skip_trivia-ascii u plain s a) s refl

  components-keeps :
      (fuel : ℕ) (s : Text) → all is_ascii s ≡ true → keeps (skip_components u fuel s) ≡ true
  unfolding skip_components
  components-keeps zero s a = a
  components-keeps (suc fuel) s a =
      next_component (skip_trivia u plain s) (skip_trivia-ascii u plain s a) refl
        (λ rest. components-keeps fuel rest)
    where
      next_component :
          (r : Text)
          → all is_ascii r ≡ true
          → skip_trivia u plain s ≡ r
          → ((rest : Text) → all is_ascii rest ≡ true → keeps (skip_components u fuel rest) ≡ true)
          → keeps (skip_components u (suc fuel) s) ≡ true
      next_component [] b p ih = ground (arith, p)
      next_component (c ∷ cs) b p ih = elim (Option-cases (skip_quoted_or_token u cs)) [
        | inl q ↦ ground (arith, b, p, q, skip_quoted_or_token-keeps cs)
        | inr (rest, q) ↦ ground (arith, b, p, q, skip_quoted_or_token-keeps cs, ih rest)
      ]

  skip_object_name-keeps : (s : Text) → all is_ascii s ≡ true → keeps (skip_object_name u s) ≡ true
  unfolding skip_object_name
  skip_object_name-keeps s a = elim (Option-cases (skip_quoted_or_token u s)) [
    | inl q ↦ ground (arith, q, skip_quoted_or_token-keeps s a)
    | inr (rest, q) ↦
        ground (arith, q, skip_quoted_or_token-keeps s a, components-keeps (suc (length rest)) rest)
  ]

  -- A decision with the flags that go with it.
  abbrev pub IsDecision : MutationSignal → Judgement × MutationSignal → Type 0
  IsDecision seen d =
      (d ≡ (accepted, seen))
      ⊎ (d ≡ (accepted, mark_ddl_attempt seen))
      ⊎ (d ≡ (denied, mark_policy_denied (mark_ddl_attempt seen)))

  if_decides :
      (seen : MutationSignal) (b : Bool) (d d' : Judgement × MutationSignal)
      → IsDecision seen d
      → IsDecision seen d'
      → IsDecision seen (if b then d else d')
  if_decides seen true d d' h k = h
  if_decides seen false d d' h k = k

  body_of-decides :
      (seen : MutationSignal) (o : Option Text)
      → keeps o ≡ true
      → IsDecision seen (elim o [
        | none ↦ (crashed, mark_ddl_attempt seen)
        | some rest ↦
            if contains_pragma_table_valued_call u (skip_parenthesized u rest)
            then (denied, mark_policy_denied (mark_ddl_attempt seen))
            else (accepted, mark_ddl_attempt seen)
      ])
  body_of-decides seen none k = cc
  body_of-decides seen (some rest) k =
      if_decides seen (contains_pragma_table_valued_call u (skip_parenthesized u rest))
        (denied, mark_policy_denied (mark_ddl_attempt seen)) (accepted, mark_ddl_attempt seen)
        (inr (inr refl)) (inr (inl refl))

  check_body-decides :
      (s : Text) (seen : MutationSignal)
      → all is_ascii s ≡ true
      → IsDecision seen (check_body u s seen)
  unfolding check_body
  check_body-decides s seen a =
      let without_if = skip_word_if u (codes "if") s in
      let without_not = skip_word_if u (codes "not") without_if in
      let named = skip_word_if u (codes "exists") without_not in
      let b =
        skip_word_if-ascii (codes "exists") without_not
          (skip_word_if-ascii (codes "not") without_if (skip_word_if-ascii (codes "if") s a)) in
      body_of-decides seen (skip_object_name u named) (skip_object_name-keeps named b)

  stored_kind-decides :
      (kind rest : Text) (seen : MutationSignal)
      → all is_ascii rest ≡ true
      → IsDecision seen (if is_stored u kind then check_body u rest seen else (accepted, seen))
  stored_kind-decides kind rest seen a =
      if_decides seen (is_stored u kind) (check_body u rest seen) (accepted, seen)
        (check_body-decides rest seen a) (inl refl)

  second_kind-decides :
      (seen : MutationSignal) (n : Next)
      → stays u n ≡ true
      → IsDecision seen (elim (lowered u n) [
        | ended ↦ (accepted, seen)
        | panicked ↦ (crashed, seen)
        | token kind rest ↦ if is_stored u kind then check_body u rest seen else (accepted, seen)
      ])
  second_kind-decides seen ended k = inl refl
  second_kind-decides seen panicked k = cc
  second_kind-decides seen (token word rest) k =
      stored_kind-decides (to_ascii_lowercase word) rest seen k

  check_kind-decides :
      (s : Text) (seen : MutationSignal)
      → all is_ascii s ≡ true
      → IsDecision seen (check_kind u s seen)
  unfolding check_kind
  check_kind-decides s seen a = first_kind (next u s) (next-stays u s a)
    where
      first_kind :
          (n : Next)
          → stays u n ≡ true
          → IsDecision seen (elim (lowered u n) [
            | ended ↦ (accepted, seen)
            | panicked ↦ (crashed, seen)
            | token kind rest ↦
                if text_eq kind (codes "temp") || text_eq kind (codes "temporary")
                then elim (lowered u (next u rest)) [
                  | ended ↦ (accepted, seen)
                  | panicked ↦ (crashed, seen)
                  | token kind' rest' ↦
                      if is_stored u kind' then check_body u rest' seen else (accepted, seen)
                ]
                else if is_stored u kind
                then check_body u rest seen
                else (accepted, seen)
          ])
      first_kind ended k = inl refl
      first_kind panicked k = cc
      first_kind (token word rest) k =
          if_decides seen
            (text_eq (to_ascii_lowercase word) (codes "temp")
              || text_eq (to_ascii_lowercase word) (codes "temporary"))
            _ _ (second_kind-decides seen (next u rest) (next-stays u rest k))
            (stored_kind-decides (to_ascii_lowercase word) rest seen k)

  -- On a statement of ASCII characters the guard against stored bodies never panics: it accepts the
  -- statement, having marked a change of the schema or not, or it denies it, having marked the change
  -- and raised the denial flag.
  pub check_stored_body-decides :
      (sql : Text) (seen : MutationSignal)
      → all is_ascii sql ≡ true
      → IsDecision seen (check_stored_body u sql seen)
  unfolding check_stored_body
  check_stored_body-decides sql seen a = elim (Next-cases u (next u sql)) [
    | inl p ↦ ground (arith, p)
    | inr (inl p) ↦ ground (arith, p, next-stays u sql a)
    | inr (inr (word, rest, p)) ↦
        ground (arith, p, next-stays u sql a, check_kind-decides rest seen)
  ]

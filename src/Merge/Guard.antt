-- ===== src/Merge/Guard.antt =====
-- merge.rs: what a statement of a merge text may be.
use sqlite_mcp.Merge.Statement.{insert}
use sqlite_mcp.Policy.Signal.{new}
use sqlite_mcp.Policy.Tail.{prepare_exact}
use sqlite_mcp.Worker.State.{Session}
use sqlite_mcp.Core.Query.Statement.{Statements}
use sqlite_mcp.Sql.{Formats}
use sqlite_mcp.Prelude.Text.{Text, starts_with}
use sqlite_mcp.Sqlite.{Engine}
use sqlite_mcp.Merge.Statement.{
  trim_start, behind_newline, behind_close, skip_comments, check_grammar, execute_one,
  StatementKind, run_one, create, done, statement_kind,
}
use sqlite_mcp.Policy.Cursor.{Unicode}
use sqlite_mcp.Policy.Stored.{Judgement, accepted, denied, crashed, drop, check_stored_body}
use sqlite_mcp.Prelude.{
  ℕ, zero, suc, ◌≤◌, ◌<◌, ◌≡◌, refl, ◌∙◌, ◌⊎◌, inl, inr, true, none, [], ◌∷◌, arith, Option-cases,
  Result-cases, ok, is_ok, length,
}

module _ (u : Unicode) where
  length-trim_start : (s : Text) → length (trim_start u s) ≤ length s
  unfolding trim_start
  length-trim_start [] = omega arith
  length-trim_start (c ∷ s) = ground (arith, length-trim_start s)

  length-behind_newline : (s : Text) → length (behind_newline s) ≤ length s
  unfolding behind_newline
  length-behind_newline [] = omega arith
  length-behind_newline (c ∷ s) = ground (arith, length-behind_newline s)

  length-behind_close : (s : Text) → length (behind_close s) ≤ length s
  unfolding behind_close
  length-behind_close [] = omega arith
  length-behind_close (c ∷ []) = omega arith
  length-behind_close (c ∷ d ∷ s) = ground (arith, length-behind_close (d ∷ s))

  -- The loop over comments ends: fuel beyond the length of the text changes nothing.
  skip_comments_fuel :
      (n m : ℕ) (s : Text) → length s < n → length s < m → skip_comments u n s ≡ skip_comments u m s
  unfolding skip_comments starts_with drop
  skip_comments_fuel zero m s h k = ground (arith, h)
  skip_comments_fuel (suc n) zero s h k = ground (arith, k)
  skip_comments_fuel (suc n) (suc m) [] h k = refl
  skip_comments_fuel (suc n) (suc m) (c ∷ []) h k = ground arith
  skip_comments_fuel (suc n) (suc m) (c ∷ d ∷ s) h k =
      let line = trim_start u (behind_newline s) in
      let block = trim_start u (behind_close s) in
      let line_shorter : length line ≤ length s =
        omega (arith, length-trim_start (behind_newline s), length-behind_newline s) in
      let block_shorter : length block ≤ length s =
        omega (arith, length-trim_start (behind_close s), length-behind_close s) in
      ground (
        arith,
        skip_comments_fuel n m line (omega (arith, h, line_shorter))
            (omega (arith, k, line_shorter)),
        skip_comments_fuel n m block (omega (arith, h, block_shorter))
            (omega (arith, k, block_shorter)),
      )

  module _ (e : Engine) (f : Formats) (q : Statements e f) where
    Kind-cases :
        (k : StatementKind) (index : ℕ)
        → check_grammar u k index ≡ none
        → (k ≡ create) ⊎ (k ≡ insert)
    unfolding check_grammar
    Kind-cases k index h = ground (arith, h)

    run_one_done :
        (sql : Text) (index : ℕ) (s : Session e)
        → (run_one u e f q sql index s).0 ≡ done
        → (is_ok (q.prepare s sql).0 ≡ true) × ((q.step (q.prepare s sql).1 sql []).0.1 ≡ none)
    unfolding run_one
    run_one_done sql index s h =
        ground (arith, h, Option-cases (q.step (q.prepare s sql).1 sql []).0.1)

    Judgement-cases : (j : Judgement) → (j ≡ accepted) ⊎ (j ≡ denied) ⊎ (j ≡ crashed)
    Judgement-cases accepted = inl refl
    Judgement-cases denied = inr (inl refl)
    Judgement-cases crashed = inr (inr refl)

    behind_grammar :
        (sql : Text) (index : ℕ) (s : Session e)
        → check_grammar u (statement_kind u sql) index ≡ none
        → (execute_one u e f q sql index s).0 ≡ done
        → ((check_stored_body u sql new).0 ≡ accepted)
          × (prepare_exact u (q.discover s.conn) sql ≡ ok tt)
          × (is_ok (q.prepare s sql).0 ≡ true)
          × ((q.step (q.prepare s sql).1 sql []).0.1 ≡ none)
    unfolding execute_one
    behind_grammar sql index s p h = elim (Judgement-cases (check_stored_body u sql new).0) [
      | inr (inl j) ↦ ground (arith, h, p, j)
      | inr (inr j) ↦ ground (arith, h, p, j)
      | inl j ↦ elim (Result-cases (prepare_exact u (q.discover s.conn) sql)) [
        | inr (x, r) ↦ ground (arith, h, p, j, r)
        | inl (single, r) ↦
            let ran : (run_one u e f q sql index s).0 ≡ done = ground (arith, h, p, j, r) in
            let (compiles, ends) = run_one_done sql index s ran in (j, r, compiles, ends)
      ]
    ]

    -- A statement of a merge text that an import executes is a CREATE or an INSERT by its first word,
    -- comments aside, passes the guard against stored bodies, and is exactly one statement to SQLite,
    -- which has compiled it and run it to its end without an error.
    pub execute_one_success :
        (sql : Text) (index : ℕ) (s : Session e)
        → (execute_one u e f q sql index s).0 ≡ done
        → ((statement_kind u sql ≡ create) ⊎ (statement_kind u sql ≡ insert))
          × ((check_stored_body u sql new).0 ≡ accepted)
          × (prepare_exact u (q.discover s.conn) sql ≡ ok tt)
          × (is_ok (q.prepare s sql).0 ≡ true)
          × ((q.step (q.prepare s sql).1 sql []).0.1 ≡ none)
    unfolding execute_one
    execute_one_success sql index s h =
        elim (Option-cases (check_grammar u (statement_kind u sql) index)) [
          | inr (x, p) ↦ ground (arith, h, p)
          | inl p ↦
              let (accepts, single, compiles, ends) = behind_grammar sql index s p h in
              (Kind-cases (statement_kind u sql) index p, accepts, single, compiles, ends)
        ]

    -- SQLite has compiled a statement on a session and run it to its end without an error, and has left
    -- another session.
    abbrev pub IsRun : Text → Session e → Session e → Type 0
    IsRun sql s s' =
        (is_ok (q.prepare s sql).0 ≡ true)
        × ((q.step (q.prepare s sql).1 sql []).0.1 ≡ none)
        × (s' ≡ (q.step (q.prepare s sql).1 sql []).1)

    run_one_session :
        (sql : Text) (index : ℕ) (s : Session e)
        → is_ok (q.prepare s sql).0 ≡ true
        → (run_one u e f q sql index s).1 ≡ (q.step (q.prepare s sql).1 sql []).1
    unfolding run_one
    run_one_session sql index s h =
        ground (arith, h, Option-cases (q.step (q.prepare s sql).1 sql []).0.1)

    execute_one_session :
        (sql : Text) (index : ℕ) (s : Session e)
        → check_grammar u (statement_kind u sql) index ≡ none
        → (check_stored_body u sql new).0 ≡ accepted
        → prepare_exact u (q.discover s.conn) sql ≡ ok tt
        → (execute_one u e f q sql index s).1 ≡ (run_one u e f q sql index s).1
    unfolding execute_one
    execute_one_session sql index s p j r = ground (arith, p, j, r)

    pub execute_one-IsRun :
        (sql : Text) (index : ℕ) (s : Session e)
        → (execute_one u e f q sql index s).0 ≡ done
        → IsRun sql s (execute_one u e f q sql index s).1
    unfolding execute_one
    execute_one-IsRun sql index s h =
        let (_, accepts, single, compiles, ends) = execute_one_success sql index s h in
        elim (Option-cases (check_grammar u (statement_kind u sql) index)) [
          | inr (x, p) ↦ ground (arith, h, p)
          | inl p ↦ (
            compiles,
            ends,
            execute_one_session sql index s p accepts single ∙ run_one_session sql index s compiles,
          )
        ]

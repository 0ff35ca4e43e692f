-- ===== src/Core/Query/Fuel.antt =====
-- core/query.rs and policy.rs: the loop over a batch ends, and the two checks for a single statement
use sqlite_mcp.Prelude.Words.{saturating_add}
use sqlite_mcp.Worker.State.{Session}
use sqlite_mcp.Core.Query.Job.{batch_loop, Progress, advance, check_single, validate_single}
use sqlite_mcp.Policy.Discovery.{IsStep, next_range-IsStep}
use sqlite_mcp.Prelude.Text.{Text}
use sqlite_mcp.Core.Query.Statement.{Statements, Limits}
use sqlite_mcp.Core.Query.Settle.{run_statement}
use sqlite_mcp.Policy.Tail.{
  exact_loop, new_cursor, Prepare, TailCursor, next_range, next_statement, end_of, sql_of,
  prepare_exact,
}
use sqlite_mcp.Sql.{Formats, Value}
use sqlite_mcp.Policy.Cursor.{Unicode}
use sqlite_mcp.Sqlite.{Engine}
use sqlite_mcp.Prelude.{
  ℕ, zero, suc, ◌+◌, ◌-◌, ◌<◌, ◌≡◌, refl, ◌↔◌, inl, inr, Bool, true, false, none, some, List, [],
  ◌∷◌, arith, Result-cases, ok, length,
}

-- agree.
module _ (e : Engine) (f : Formats) (q : Statements e f) (u : Unicode) (l : Limits) where
  next_at_end :
      (p : Prepare) (c : TailCursor) → end_of c < c.offset + 0 → next_statement p c ≡ (ok none, c)
  unfolding next_range
  next_at_end p c h = ground (arith, h)

  -- Behind a statement there is less left of the text than before.
  left :
      (c c' : TailCursor) (range : ℕ × ℕ) (n : ℕ)
      → IsStep c range c'
      → end_of c < c.offset + suc n
      → end_of c' < c'.offset + n
  left c c' range n step h = ground (arith, h, step.starts, step.advances, step.moved)

  next_statement-IsStep :
      (p : Prepare) (c c' : TailCursor) (range : ℕ × ℕ)
      → next_statement p c ≡ (ok (some range), c')
      → IsStep c range c'
  next_statement-IsStep p c c' range h =
      next_range-IsStep (suc (end_of c - c.offset)) p c c' range h

  -- The loop over a batch ends: from any point of it, two numbers of steps that both exceed the
  -- characters that are left of the text give the same reply and the same session.
  pub batch_loop_fuel :
      (n m : ℕ) (injected : Bool) (values : List (Value f)) (p : Progress) (s : Session e)
      → end_of p.cursor < p.cursor.offset + n
      → end_of p.cursor < p.cursor.offset + m
      → batch_loop e f q u l n injected values p s ≡ batch_loop e f q u l m injected values p s
  unfolding batch_loop
  batch_loop_fuel zero zero injected values p s h k = refl
  batch_loop_fuel zero (suc m) injected values p s h k =
      ground (arith, h, next_at_end (q.discover s.conn) p.cursor)
  batch_loop_fuel (suc n) zero injected values p s h k =
      ground (arith, k, next_at_end (q.discover s.conn) p.cursor)
  batch_loop_fuel (suc n) (suc m) injected values p s h k =
      let (found, c) = next_statement (q.discover s.conn) p.cursor in
      elim (Result-cases found) [
        | inr (x, r) ↦ ground (arith, r)
        | inl (none, r) ↦ ground (arith, r)
        | inl (some range, r) ↦
            let step =
              next_statement-IsStep (q.discover s.conn) p.cursor c range (ground (arith, r)) in
            let (reply, s') =
              run_statement e f q u l injected values p.expected
                (saturating_add p.statement_count 1) (sql_of c range) s in
            elim (Result-cases reply) [
              | inr (x, r') ↦ ground (arith, r, r')
              | inl ((result, after), r') ↦ ground (
                arith,
                r,
                r',
                batch_loop_fuel n m injected values (advance e f q u l p c result after) s'
                    (left p.cursor c range n step h) (left p.cursor c range m step k),
              )
            ]
      ]

  single_iff :
      (fuel : ℕ) (p : Prepare) (c : TailCursor)
      → (check_single e f q u l c p ≡ none) ↔ (exact_loop (suc (suc fuel)) p false c ≡ ok true)
  unfolding exact_loop check_single
  single_iff fuel p c =
      let (first, c1) = next_statement p c in
      let (second, c2) = next_statement p c1 in
      elim (Result-cases first) [
        | inr (x, r) ↦ ground (arith, r)
        | inl (none, r) ↦ ground (arith, r)
        | inl (some range, r) ↦ elim (Result-cases second) [
          | inr (x, r') ↦ ground (arith, r, r')
          | inl (none, r') ↦ ground (arith, r, r')
          | inl (some range', r') ↦ ground (arith, r, r')
        ]
      ]

  -- The check that a query makes of its text and `prepare_exact` accept the same texts, on every
  -- connection.
  pub validate_single_iff :
      (sql : Text) (c : e.Conn)
      → (validate_single e f q u l sql c ≡ none) ↔ (prepare_exact u (q.discover c) sql ≡ ok tt)
  unfolding validate_single prepare_exact new_cursor
  validate_single_iff [] c = ground arith
  validate_single_iff (x ∷ sql) c = elim (Result-cases (new_cursor u (x ∷ sql))) [
    | inr (y, r) ↦ ground (arith, r)
    | inl (cursor, r) ↦ ground (arith, r, single_iff (length sql) (q.discover c) cursor)
  ]

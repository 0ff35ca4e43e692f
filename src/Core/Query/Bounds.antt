-- ===== src/Core/Query/Bounds.antt =====
-- core/query.rs: what a batch that succeeds can answer, against the limits.
use sqlite_mcp.Prelude.Words.{u64_max, saturating_add, lt-saturating_add}
use sqlite_mcp.Policy.Tail.{TailCursor, next_statement, sql_of}
use sqlite_mcp.Core.Query.Job.{Progress, batch_loop, advance}
use sqlite_mcp.Prelude.Int.{ℤ}
use sqlite_mcp.Worker.State.{Session}
use sqlite_mcp.Prelude.Text.{Text}
use sqlite_mcp.Policy.Cursor.{Unicode}
use sqlite_mcp.Sql.{Formats, ValueRef, Value}
use sqlite_mcp.Sqlite.{Engine}
use mathlib.Core.List.{append-nil, append_assoc}
use sqlite_mcp.Core.Query.Statement.{
  collect, Statements, Limits, QueryResult, result_of, execute_statement, check_count, column_name,
  cells, guard_statement,
}
use sqlite_mcp.Core.Query.Settle.{settle_ok, run_statement}
use sqlite_mcp.Prelude.{
  ℕ, zero, suc, ◌+◌, ◌≤◌, ◌<◌, ◌≡◌, refl, ap, inl, inr, Bool, true, false, ◌||◌, Option, none, some,
  List, [], ◌∷◌, ◌++◌, map, arith, ltb, if◌then◌else◌, Option-cases, Result-cases, ok, length,
  length-append, All, subst,
}

-- The first elements of a list.
abbrev pub take_rows : {A : Type 0} → ℕ → List A → List A
take_rows zero rows = []
take_rows (suc n) [] = []
take_rows (suc n) (row ∷ rows) = row ∷ take_rows n rows

-- With room for `n` more rows.
collect_from :
    {A : Type 0} (n limit : ℕ) (rows kept : List A) (t : Bool)
    → length kept + n ≡ limit
    → collect limit rows (kept, t) ≡ (kept ++ take_rows n rows, (t || ltb n (length rows)))
unfolding collect
collect_from zero limit [] kept t h = ground (arith, append-nil kept)
collect_from (suc n) limit [] kept t h = ground (arith, append-nil kept)
collect_from zero limit (row ∷ rows) kept t h =
    ground (arith, h, collect_from zero limit rows kept true h)
collect_from (suc n) limit (row ∷ rows) kept t h = ground (
  arith,
  h,
  append_assoc kept (row ∷ []) (take_rows n rows),
  collect_from n limit rows (kept ++ (row ∷ [])) t
      (omega (arith, h, length-append kept (row ∷ []))),
)

-- The rows that are kept of an answer are the first ones, as many as the limit allows, and the
-- answer is marked as truncated exactly if there are more.
pub collect_lem :
    {A : Type 0} (limit : ℕ) (rows : List A)
    → collect limit rows ([], false) ≡ (take_rows limit rows, ltb limit (length rows))
collect_lem limit rows = collect_from limit limit rows [] false (omega arith)

-- A result is within the limits: its columns, its rows, and the bytes of its JSON text.
pub record IsBounded {e : Engine} {f : Formats} (q : Statements e f) (l : Limits) (x : QueryResult)
    : Type 0 where
  pub columns_bounded : length x.columns ≤ l.column_limit
  pub rows_counted : x.rows_returned ≡ length x.rows
  pub rows_bounded : length x.rows ≤ l.row_limit
  pub complete : x.execution_complete ≡ true
  pub bytes : (n : ℕ) × (q.payload_bytes x ≡ ok n) × (n ≤ l.result_byte_limit)

length-take_rows : {A : Type 0} (n : ℕ) (rows : List A) → length (take_rows n rows) ≤ n
length-take_rows zero rows = omega arith
length-take_rows (suc n) [] = omega arith
length-take_rows (suc n) (row ∷ rows) = omega (arith, length-take_rows n rows)

length-map : {A B : Type 0} (g : A → B) (xs : List A) → length (map g xs) ≡ length xs
length-map g [] = refl
length-map g (x ∷ xs) = ap suc (length-map g xs)

module _ {e : Engine} {f : Formats} (q : Statements e f) (u : Unicode) (l : Limits) where
  result_of_limits :
      (names : List (Option Text)) (rows : List (List (ValueRef f))) (before after : e.Conn)
      → let x = result_of e f q u l names rows before after in
        (length x.columns ≡ length names)
        × (x.rows_returned ≡ length x.rows)
        × (length x.rows ≤ l.row_limit)
        × (x.execution_complete ≡ true)
  unfolding result_of
  result_of_limits names rows before after = (
    length-map (column_name e f q u l) names,
    refl,
    rw (collect_lem l.row_limit (map (cells e f q u l) rows))
        (length-take_rows l.row_limit (map (cells e f q u l) rows)),
    refl,
  )

  execute_limits :
      (current : Text) (values : List (Value f)) (s : Session e) (x : QueryResult)
      → (execute_statement e f q u l current values s).0 ≡ ok x
      → (length x.columns ≤ l.column_limit)
        × (x.rows_returned ≡ length x.rows)
        × (length x.rows ≤ l.row_limit)
        × (x.execution_complete ≡ true)
  unfolding execute_statement
  execute_limits current values s x done =
      let (compiled, s1) = q.prepare s current in
      let ((rows, failed), s2) = q.step s1 current values in
      elim (Result-cases compiled) [
        | inr (y, p) ↦ ground (arith, done, p)
        | inl (names, p) ↦ ground (arith, done, p, result_of_limits names rows s1.conn s2.conn)
      ]

  settle_ok_limits :
      (injected : Bool) (x : QueryResult) (s : Session e) (after : ℤ)
      → (settle_ok e f q u l injected x s).0 ≡ ok after
      → (n : ℕ) × (q.payload_bytes x ≡ ok n) × (n ≤ l.result_byte_limit)
  unfolding settle_ok
  settle_ok_limits injected x s after done = elim (Result-cases (q.payload_bytes x)) [
    | inl (n, p) ↦ (n, p, ground (arith, done, p))
    | inr (t, p) ↦ ground (arith, done, p)
  ]

  -- The largest number of statements of a batch.
  abbrev pub statement_bound : ℕ
  statement_bound = if l.single_statement then 1 else l.statement_limit

  check_count_le : (count : ℕ) → check_count e f q u l count ≡ none → count ≤ statement_bound
  unfolding check_count
  check_count_le count h = ground (arith, h)

  guard_count :
      (expected : ℤ) (count : ℕ) (current : Text) (s : Session e)
      → (guard_statement e f q u l expected count current s).0 ≡ none
      → check_count e f q u l count ≡ none
  unfolding guard_statement
  guard_count expected count current s h =
      ground (arith, h, Option-cases (check_count e f q u l count))

  run_statement-IsBounded :
      (injected : Bool) (values : List (Value f)) (expected : ℤ) (count : ℕ) (current : Text)
      (s : Session e) (x : QueryResult) (after : ℤ)
      → (run_statement e f q u l injected values expected count current s).0 ≡ ok (x, after)
      → (count ≤ statement_bound) × IsBounded q l x
  unfolding run_statement
  run_statement-IsBounded injected values expected count current s x after done =
      let (refused, s1) = guard_statement e f q u l expected count current s in
      let (result, s2) = execute_statement e f q u l current values s1 in
      elim (Option-cases refused) [
        | inr (y, p) ↦ ground (arith, done, p)
        | inl p ↦ elim (Result-cases result) [
          | inr (y, p') ↦ ground (arith, done, p, p')
          | inl (r, p') ↦ elim (Result-cases (settle_ok e f q u l injected r s2).0) [
            | inr (y, p'') ↦ ground (arith, done, p, p', p'')
            | inl (v, p'') ↦
                let same_result : r ≡ x = ground (arith, done, p, p', p'') in
                let (columns, returned, rows, complete) = execute_limits current values s1 r p' in
                let kept : IsBounded q l r = record {
                  columns_bounded = columns;
                  rows_counted = returned;
                  rows_bounded = rows;
                  complete = complete;
                  bytes = settle_ok_limits injected r s2 v p'';
                } in
                (
                  check_count_le count (guard_count expected count current s p),
                  subst (IsBounded q l) same_result kept,
                )
          ]
        ]
      ]

  All-snoc :
      {A : Type 0} (P : A → Type 0) (xs : List A) (x : A) → All P xs → P x → All P (xs ++ (x ∷ []))
  All-snoc P [] x h p = (p, tt)
  All-snoc P (y ∷ ys) x (h, hs) p = (h, All-snoc P ys x hs p)

  -- The results so far are within the limits, and as many as the statements so far.
  pub record IsWithin (p : Progress) : Type 0 where
    pub each : All (IsBounded q l) p.results
    pub counted : p.statement_count ≡ length p.results
    pub few : length p.results ≤ statement_bound

  advance-IsWithin :
      (p : Progress) (c : TailCursor) (x : QueryResult) (after : ℤ)
      → statement_bound < u64_max
      → IsWithin p
      → saturating_add p.statement_count 1 ≤ statement_bound
      → IsBounded q l x
      → IsWithin (advance e f q u l p c x after)
  advance-IsWithin p c x after room w count b =
      let next = lt-saturating_add p.statement_count (omega (arith, room, w.counted, w.few)) in
      record {
        each = All-snoc (IsBounded q l) p.results x w.each b;
        counted = omega (arith, next, w.counted, length-append p.results (x ∷ []));
        few = omega (arith, next, count, w.counted, length-append p.results (x ∷ []));
      }

  pub batch_loop-IsWithin :
      (fuel : ℕ) (injected : Bool) (values : List (Value f)) (p p' : Progress) (s : Session e)
      → statement_bound < u64_max
      → IsWithin p
      → (batch_loop e f q u l fuel injected values p s).0 ≡ ok p'
      → IsWithin p'
  unfolding batch_loop
  batch_loop-IsWithin zero injected values p p' s room w done = ground (arith, w, done)
  batch_loop-IsWithin (suc fuel) injected values p p' s room w done =
      let (found, c) = next_statement (q.discover s.conn) p.cursor in
      elim (Result-cases found) [
        | inr (x, h) ↦ ground (arith, done, h)
        | inl (none, h) ↦ ground (arith, w, done, h)
        | inl (some range, h) ↦
            let count = saturating_add p.statement_count 1 in
            let (r, s') =
              run_statement e f q u l injected values p.expected count (sql_of c range) s in
            elim (Result-cases r) [
              | inr (x, h') ↦ ground (arith, done, h, h')
              | inl ((x, after), h') ↦
                  let (counted, b) =
                    run_statement-IsBounded injected values p.expected count (sql_of c range) s x
                      after h' in
                  batch_loop-IsWithin fuel injected values (advance e f q u l p c x after) p' s'
                    room (advance-IsWithin p c x after room w counted b)
                    (ground (arith, done, h, h'))
            ]
      ]

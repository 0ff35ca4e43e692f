-- ===== src/Core/Query/Success.antt =====
-- core/query.rs: what holds of a query or a batch that succeeds.
use sqlite_mcp.Prelude.Words.{u64_max}
use sqlite_mcp.Worker.State.{Session}
use sqlite_mcp.Core.Query.Bounds.{statement_bound, IsWithin, IsBounded, batch_loop-IsWithin}
use sqlite_mcp.Prelude.Int.{ℤ, ◌==ℤ◌}
use sqlite_mcp.Core.Query.Settle.{settle_ok, run_statement}
use sqlite_mcp.Sqlite.{release}
use sqlite_mcp.Policy.Tail.{next_statement, sql_of}
use sqlite_mcp.Core.Query.Statement.{guard_statement, execute_statement}
use sqlite_mcp.Prelude.Words.{saturating_add}
use sqlite_mcp.Prelude.{ℕ, zero, not, some}
use sqlite_mcp.Core.Query.Job.{
  Progress, advance, run_batch, execution_of, begin_progress, BatchExecution, batch_job, batch_loop,
  validate_single,
}
use sqlite_mcp.Policy.Tail.{TailCursor, new_cursor}
use sqlite_mcp.Policy.Cursor.{Unicode}
use sqlite_mcp.Core.Query.Statement.{Statements, Limits, QueryResult}
use sqlite_mcp.Sql.{Formats, Value}
use sqlite_mcp.Sqlite.{Engine}
use sqlite_mcp.Prelude.Text.{Text}
use sqlite_mcp.Prelude.{
  suc, ◌≤◌, ◌<◌, ◌≡◌, refl, inl, inr, Bool, true, false, none, List, arith, if◌then◌else◌,
  Option-cases, Result-cases, ok, length, All,
}

module _ {e : Engine} {f : Formats} (q : Statements e f) (u : Unicode) (l : Limits) where
  begin_progress-IsWithin : (c : TailCursor) (v : ℤ) → IsWithin q u l (begin_progress c v)
  begin_progress-IsWithin c v = record { each = tt; counted = refl; few = omega arith }

  -- What a batch that has run answers: at least one result, not more than the limit, each within the
  -- limits.
  pub record IsAnswer (results : List QueryResult) : Type 0 where
    pub some_result : 0 < length results
    pub few : length results ≤ statement_bound q u l
    pub each : All (IsBounded q l) results

  -- A statement that succeeds gives the cookie that SQLite reads on the connection it leaves.
  settle_ok_cookie :
      (injected : Bool) (result : QueryResult) (s : Session e) (after : ℤ)
      → (settle_ok e f q u l injected result s).0 ≡ ok after
      → e.schema_version (settle_ok e f q u l injected result s).1.conn ≡ ok after
  unfolding settle_ok
  settle_ok_cookie injected result s after h =
      let c' = (e.execute release s.conn).1 in
      ground (
        arith,
        h,
        Result-cases (q.payload_bytes result),
        Option-cases (e.execute release s.conn).0,
        Result-cases (e.schema_version c'),
      )

  run_statement_cookie :
      (injected : Bool) (values : List (Value f)) (expected : ℤ) (count : ℕ) (current : Text)
      (s : Session e) (x : QueryResult) (after : ℤ)
      → (run_statement e f q u l injected values expected count current s).0 ≡ ok (x, after)
      → e.schema_version (run_statement e f q u l injected values expected count current s).1.conn
        ≡ ok after
  unfolding run_statement
  run_statement_cookie injected values expected count current s x after h =
      let (refused, s1) = guard_statement e f q u l expected count current s in
      let (executed, s2) = execute_statement e f q u l current values s1 in
      elim (Option-cases refused) [
        | inr (y, p) ↦ ground (arith, h, p)
        | inl p ↦ elim (Result-cases executed) [
          | inr (y, p') ↦ ground (arith, h, p, p')
          | inl (result, p') ↦ elim (Result-cases (settle_ok e f q u l injected result s2).0) [
            | inr (y, p'') ↦ ground (arith, h, p, p', p'')
            | inl (cookie, p'') ↦
                ground (arith, h, p, p', p'', settle_ok_cookie injected result s2 cookie p'')
          ]
        ]
      ]

  -- The loop keeps the cookie in step with the connection.
  batch_loop_cookie :
      (fuel : ℕ) (injected : Bool) (values : List (Value f)) (p p' : Progress) (s : Session e)
      → e.schema_version s.conn ≡ ok p.expected
      → (batch_loop e f q u l fuel injected values p s).0 ≡ ok p'
      → e.schema_version (batch_loop e f q u l fuel injected values p s).1.conn ≡ ok p'.expected
  unfolding batch_loop
  batch_loop_cookie zero injected values p p' s seen done = ground (arith, seen, done)
  batch_loop_cookie (suc fuel) injected values p p' s seen done =
      let (found, c) = next_statement (q.discover s.conn) p.cursor in
      elim (Result-cases found) [
        | inr (x, h) ↦ ground (arith, done, h)
        | inl (none, h) ↦ ground (arith, seen, done, h)
        | inl (some range, h) ↦
            let count = saturating_add p.statement_count 1 in
            let (r, s') =
              run_statement e f q u l injected values p.expected count (sql_of c range) s in
            elim (Result-cases r) [
              | inr (x, h') ↦ ground (arith, done, h, h')
              | inl ((x, after), h') ↦
                  let next_seen =
                    run_statement_cookie injected values p.expected count (sql_of c range) s x after
                      h' in
                  ground (
                    arith,
                    h,
                    h',
                    batch_loop_cookie fuel injected values (advance e f q u l p c x after) p' s'
                        next_seen (ground (arith, done, h, h')),
                  )
            ]
      ]

  run_batch_cookie :
      (injected : Bool) (sql : Text) (values : List (Value f)) (before : ℤ) (s : Session e)
      (x : BatchExecution)
      → e.schema_version s.conn ≡ ok before
      → (run_batch e f q u l injected sql values before s).0 ≡ ok x
      → let c = (run_batch e f q u l injected sql values before s).1.conn in
        (e.schema_version c ≡ ok x.schema_after) × (x.transaction_open ≡ not (e.is_autocommit c))
  unfolding run_batch execution_of
  run_batch_cookie injected sql values before s x seen done =
      elim (Result-cases (new_cursor u sql)) [
        | inr (y, p) ↦ ground (arith, done, p)
        | inl (c, p) ↦
            let start = begin_progress c before in
            let (r, s') = batch_loop e f q u l (suc (length sql)) injected values start s in
            elim (Result-cases r) [
              | inr (y, p') ↦ ground (arith, done, p, p')
              | inl (g, p') ↦
                  let last =
                    batch_loop_cookie (suc (length sql)) injected values start g s seen p' in
                  (ground (arith, done, p, p', last), ground (arith, done, p, p'))
            ]
      ]

  -- A batch that succeeds says what SQLite says of the connection that its job leaves: the schema
  -- cookie, and whether a transaction is open.
  pub batch_job_cookie :
      (injected : Bool) (expected : ℤ) (sql : Text) (values : List (Value f)) (s : Session e)
      (x : BatchExecution)
      → (batch_job e f q u l injected expected sql values s).0 ≡ ok x
      → let c = (batch_job e f q u l injected expected sql values s).1.conn in
        (e.schema_version c ≡ ok x.schema_after) × (x.transaction_open ≡ not (e.is_autocommit c))
  unfolding batch_job
  batch_job_cookie injected expected sql values s x done =
      elim (Result-cases (e.schema_version s.conn)) [
        | inr (y, p) ↦ ground (arith, done, p)
        | inl (before, p) ↦
            let single =
              if l.single_statement then validate_single e f q u l sql s.conn else none in
            elim (Option-cases single) [
              | inr (y, p') ↦ ground (arith, done, p, p')
              | inl p' ↦
                  ground (arith, done, p, p', run_batch_cookie injected sql values before s x p)
            ]
      ]

  run_batch_answers :
      (injected : Bool) (sql : Text) (values : List (Value f)) (before : ℤ) (s : Session e)
      (x : BatchExecution)
      → statement_bound q u l < u64_max
      → (run_batch e f q u l injected sql values before s).0 ≡ ok x
      → IsAnswer x.results × (x.schema_before ≡ before)
  unfolding run_batch execution_of
  run_batch_answers injected sql values before s x room done =
      elim (Result-cases (new_cursor u sql)) [
        | inr (y, p) ↦ ground (arith, done, p)
        | inl (c, p) ↦
            let start = begin_progress c before in
            let (r, s') = batch_loop e f q u l (suc (length sql)) injected values start s in
            elim (Result-cases r) [
              | inr (y, p') ↦ ground (arith, done, p, p')
              | inl (g, p') ↦
                  let w : IsWithin q u l g =
                    batch_loop-IsWithin q u l (suc (length sql)) injected values start g s room
                      (begin_progress-IsWithin c before) p' in
                  (
                    record {
                      some_result = ground (arith, done, p, p');
                      few = ground (arith, done, p, p', w.few);
                      each = ground (arith, done, p, p', w.each);
                    },
                    ground (arith, done, p, p'),
                  )
            ]
      ]

  pub batch_job_answers :
      (injected : Bool) (expected : ℤ) (sql : Text) (values : List (Value f)) (s : Session e)
      (x : BatchExecution)
      → statement_bound q u l < u64_max
      → (batch_job e f q u l injected expected sql values s).0 ≡ ok x
      → IsAnswer x.results
        × (e.is_autocommit s.conn ≡ false)
        × (e.schema_version s.conn ≡ ok x.schema_before)
        × ((x.schema_before ==ℤ expected) ≡ true)
  unfolding batch_job
  batch_job_answers injected expected sql values s x room done =
      elim (Result-cases (e.schema_version s.conn)) [
        | inr (y, p) ↦ ground (arith, done, p)
        | inl (before, p) ↦
            let single =
              if l.single_statement then validate_single e f q u l sql s.conn else none in
            elim (Option-cases single) [
              | inr (y, p') ↦ ground (arith, done, p, p')
              | inl p' ↦
                  ground (arith, done, p, p', run_batch_answers injected sql values before s x room)
            ]
      ]

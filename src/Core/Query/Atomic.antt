-- ===== src/Core/Query/Atomic.antt =====
-- core/query.rs: a statement of a batch takes effect as a whole or not at all.
use sqlite_mcp.Worker.Error.{WorkerError}
use sqlite_mcp.Prelude.Int.{ℤ}
use sqlite_mcp.Worker.State.{Session}
use sqlite_mcp.Policy.Cursor.{Unicode}
use sqlite_mcp.Core.Query.Statement.{
  Statements, Limits, guard_statement, execute_statement, QueryResult, restoration_failed,
}
use sqlite_mcp.Core.Query.Settle.{settle_ok, settle_err, run_statement}
use sqlite_mcp.Sql.{Formats, Value}
use sqlite_mcp.Sqlite.{Engine, SqliteError, savepoint, release, rollback_to_and_release}
use sqlite_mcp.Prelude.Text.{Text}
use sqlite_mcp.Prelude.{
  ℕ, ◌≡◌, ap, ◌∙◌, ◌⊎◌, inl, inr, Bool, true, false, ◌||◌, none, List, ◌∷◌, arith, Option-cases,
  Result-cases, is_some, err, is_ok, is_err,
}

-- What SQLite documents of savepoints and transactions, for what a connection holds (`data'`) and
-- what its savepoints hold, the last one first (`saved`). A statement that the authorizer admits
-- leaves the savepoints alone, unless its failure ends the whole transaction. The texts and cells of
-- a result always have a JSON text.
pub record SavepointLaws (e : Engine) (f : Formats) (q : Statements e f) (D : Type 0)
    (data' : e.Conn → D) (saved : e.Conn → List D) : Type 0 where
  pub holds : (c : e.Conn) → data' (e.execute savepoint c).1 ≡ data' c
  pub saves :
      (c : e.Conn)
      → (e.execute savepoint c).0 ≡ none
      → saved (e.execute savepoint c).1 ≡ data' c ∷ saved c
  pub restores :
      (c : e.Conn) (d : D) (ds : List D)
      → saved c ≡ d ∷ ds
      → (e.execute rollback_to_and_release c).0 ≡ none
      → data' (e.execute rollback_to_and_release c).1 ≡ d
  pub compiles : (s : Session e) (sql : Text) → saved (q.prepare s sql).1.conn ≡ saved s.conn
  pub succeeds :
      (s : Session e) (sql : Text) (values : List (Value f))
      → (q.step s sql values).0.1 ≡ none
      → saved (q.step s sql values).1.conn ≡ saved s.conn
  pub fails :
      (s : Session e) (sql : Text) (values : List (Value f))
      → e.is_autocommit (q.step s sql values).1.conn ≡ false
      → saved (q.step s sql values).1.conn ≡ saved s.conn
  pub serializes : (x : QueryResult) → is_ok (q.payload_bytes x) ≡ true

module _ {e : Engine} {f : Formats} (q : Statements e f) (u : Unicode) (l : Limits) where
  -- A statement ran to its end, and its release, or the reading of the cookie behind it, failed.
  abbrev pub fails_late : Session e → Bool
  fails_late s =
      is_some (e.execute release s.conn).0 || is_err (e.schema_version (e.execute release s.conn).1)

  -- The session behind the execution of a statement.
  abbrev pub executed : List (Value f) → ℤ → ℕ → Text → Session e → Session e
  executed values expected count current s =
      (execute_statement e f q u l current values
        (guard_statement e f q u l expected count current s).1).1

module _ {e : Engine} {f : Formats} (q : Statements e f) (u : Unicode) (l : Limits) (D : Type 0)
    (data' : e.Conn → D) (saved : e.Conn → List D) (laws : SavepointLaws e f q D data' saved) where
  guard_holds :
      (expected : ℤ) (count : ℕ) (current : Text) (s : Session e)
      → data' (guard_statement e f q u l expected count current s).1.conn ≡ data' s.conn
  unfolding guard_statement
  guard_holds expected count current s = ground (arith, laws.holds s.conn)

  guard_saves :
      (expected : ℤ) (count : ℕ) (current : Text) (s : Session e)
      → (guard_statement e f q u l expected count current s).0 ≡ none
      → saved (guard_statement e f q u l expected count current s).1.conn
        ≡ data' s.conn ∷ saved s.conn
  unfolding guard_statement
  guard_saves expected count current s p = ground (arith, p, laws.saves s.conn)

  -- What a statement that has run leaves of the savepoints.
  execute_keeps :
      (current : Text) (values : List (Value f)) (s : Session e)
      → let (r, s') = execute_statement e f q u l current values s in
        (is_ok r ≡ true) ⊎ (e.is_autocommit s'.conn ≡ false)
        → saved (execute_statement e f q u l current values s).1.conn ≡ saved s.conn
  unfolding execute_statement
  execute_keeps current values s p = ground (
    arith,
    p,
    laws.compiles s current,
    laws.succeeds (q.prepare s current).1 current values,
    laws.fails (q.prepare s current).1 current values,
  )

  settle_ok_restores :
      (injected : Bool) (result : QueryResult) (s : Session e) (d : D) (ds : List D)
      (x : WorkerError)
      → saved s.conn ≡ d ∷ ds
      → (settle_ok e f q u l injected result s).0 ≡ err x
      → (data' (settle_ok e f q u l injected result s).1.conn ≡ d)
        ⊎ (x ≡ restoration_failed)
        ⊎ (fails_late q u l s ≡ true)
  unfolding settle_ok
  settle_ok_restores injected result s d ds x p failed =
      ground (arith, p, failed, laws.restores s.conn d ds, laws.serializes result)

  settle_err_restores :
      (x : SqliteError) (s : Session e) (d : D) (ds : List D)
      → (e.is_autocommit s.conn ≡ false → saved s.conn ≡ d ∷ ds)
      → (data' (settle_err e f q u l x s).1.conn ≡ d)
        ⊎ ((settle_err e f q u l x s).0 ≡ restoration_failed)
        ⊎ (e.is_autocommit (settle_err e f q u l x s).1.conn ≡ true)
  unfolding settle_err
  settle_err_restores x s d ds p = ground (arith, p, laws.restores s.conn d ds)

  -- Given what SQLite documents of savepoints: a statement that is reported as failed has left the
  -- contents of the database as they were before it, or the whole transaction is gone, or the reply
  -- is that the savepoint could not be restored, which invalidates the handle, or the statement had
  -- already succeeded and only its release, or the reading of the schema cookie behind it, failed.
  pub run_statement_atomic :
      (injected : Bool) (values : List (Value f)) (expected : ℤ) (count : ℕ) (current : Text)
      (s : Session e) (x : WorkerError)
      → let (r, s') = run_statement e f q u l injected values expected count current s in
        r ≡ err x
        → (data' s'.conn ≡ data' s.conn)
          ⊎ (x ≡ restoration_failed)
          ⊎ (e.is_autocommit s'.conn ≡ true)
          ⊎ (fails_late q u l (executed q u l values expected count current s) ≡ true)
  unfolding run_statement
  run_statement_atomic injected values expected count current s x failed =
      let (refused, s1) = guard_statement e f q u l expected count current s in
      let (result, s2) = execute_statement e f q u l current values s1 in
      let held = guard_holds expected count current s in
      elim (Option-cases refused) [
        | inr (y, p) ↦ ground (arith, p, held)
        | inl p ↦
            let pushed = guard_saves expected count current s p in
            let kept = execute_keeps current values s1 in
            elim (Result-cases result) [
              | inl (done, p') ↦ elim (Result-cases (settle_ok e f q u l injected done s2).0) [
                | inl (after, p'') ↦ ground (arith, failed, p, p', p'')
                | inr (y, p'') ↦ ground (
                  arith,
                  failed,
                  p,
                  p',
                  p'',
                  settle_ok_restores injected done s2 (data' s.conn) (saved s.conn) y
                      (kept (inl (ap is_ok p')) ∙ pushed) p'',
                )
              ]
              | inr (y, p') ↦ ground (
                arith,
                failed,
                p,
                p',
                settle_err_restores y s2 (data' s.conn) (saved s.conn)
                    (λ is_open. kept (inr is_open) ∙ pushed),
              )
            ]
      ]

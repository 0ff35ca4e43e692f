-- ===== src/Sqlite.antt =====
-- The SQLite connection, which rusqlite and libsqlite3 provide: a parameter of the model. Only the
-- operations that the code calls are named, and nothing is assumed of them here.
pub mod Sample
use sqlite_mcp.Prelude.{
  ℕ, zero, suc, ◌+◌, ◌-◌, ◌*◌, ◌≤◌, ◌<◌, ◌≡◌, refl, sym, ap, ◌∙◌, ◌≢◌, ◌↔◌, ◌⊎◌, inl, inr, Bool,
  true, false, not, ◌&&◌, ◌||◌, Option, none, some, List, [], ◌∷◌, ◌++◌, map, arith, ltb, leb, ◌==◌,
  if◌then◌else◌, ==_iff, leb→le, Bool-cases, Option-cases, Result-cases, is_some, is_none,
  unwrap_or, Result, ok, err, is_ok, is_err, ◌>>=◌, ◌>>◌, fail_if, ok_or, length, length-append,
  All, all, any, is_empty,
}
use sqlite_mcp.Prelude.Int.{ℤ}
use sqlite_mcp.Prelude.Text.{Text, codes, contains}

-- `rusqlite::Error`: the extended result code, if it has one, and the text that it displays as.
pub record SqliteError : Type 0 where
  pub extended : Option ℕ
  pub text : Text

-- The control statements that the server itself executes.
pub data Control : Type 0 where
  begin_deferred begin_immediate commit rollback : Control
  savepoint release rollback_to_and_release : Control

pub record Engine : Type 1 where
  pub Conn : Type 0
  -- `Connection::is_autocommit`: no transaction is open.
  pub is_autocommit : Conn → Bool
  -- `execute_batch` of a control statement: the error, if it fails, and the connection after it.
  pub execute : Control → Conn → Option SqliteError × Conn
  -- `rusqlite::Error::InvalidQuery`, which the test hooks inject.
  pub invalid_query : SqliteError
  -- What `get_schema` reads of a database, with its schema cookie and the size of its JSON text.
  pub Schema : Type 0
  pub cookie : Schema → ℤ
  pub json_bytes : Schema → ℕ
  pub read_schema : Conn → Result Schema SqliteError
  -- `PRAGMA schema_version`.
  pub schema_version : Conn → Result ℤ SqliteError

-- SQLite documents that a ROLLBACK leaves no transaction open, also where it reports an error.
abbrev pub RollbackCloses : Engine → Type 0
RollbackCloses e = (c : e.Conn) → e.is_autocommit (e.execute rollback c).1 ≡ true

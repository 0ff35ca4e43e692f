-- ===== src/Sqlite/Sample.antt =====
-- A small engine for tests: a connection is its autocommit flag, and the schema never changes.
use sqlite_mcp.Prelude.{ℕ, refl, Bool, true, false, Option, none, some, ok}
use sqlite_mcp.Prelude.Int.{ℤ}
use sqlite_mcp.Prelude.Text.{codes}
use sqlite_mcp.Sqlite.{
  Engine, SqliteError, Control, begin_deferred, begin_immediate, commit, rollback, RollbackCloses,
}

abbrev pub refusal : SqliteError
refusal = record { extended = some 1; text = codes "no transaction is active" }

abbrev pub sample_execute : Control → Bool → Option SqliteError × Bool
sample_execute begin_deferred true = (none, false)
sample_execute begin_immediate true = (none, false)
sample_execute commit false = (none, true)
sample_execute rollback false = (none, true)
sample_execute _ c = (some refusal, c)

abbrev pub sample : Engine
sample = record {
  Conn = Bool;
  is_autocommit = λ c. c;
  execute = sample_execute;
  invalid_query = refusal;
  Schema = ℕ;
  cookie = λ n. ℤ.pos n;
  json_bytes = λ n. n;
  read_schema = λ c. ok 7;
  schema_version = λ c. ok (ℤ.pos 7);
}

pub sample_closes : RollbackCloses sample
sample_closes true = refl
sample_closes false = refl

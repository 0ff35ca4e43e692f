-- ===== src/Core/Query/Sample.antt =====
-- For tests: a small engine that counts, with savepoints, and its statements.
use sqlite_mcp.Policy.Signal.{new}
use sqlite_mcp.Policy.Stored.{drop}
use sqlite_mcp.Sqlite.{
  Control, begin_deferred, begin_immediate, commit, rollback, savepoint, release,
  rollback_to_and_release,
}
use sqlite_mcp.Policy.Tail.{refused, prepared}
use sqlite_mcp.Sqlite.Sample.{refusal}
use sqlite_mcp.Core.Query.Statement.{Statements}
use sqlite_mcp.Worker.State.{Session}
use sqlite_mcp.Sqlite.{Engine, Control, SqliteError}
use sqlite_mcp.Policy.Cursor.{Unicode}
use sqlite_mcp.Sql.{Formats, parse_i64, i64_to_string, integer_ref}
use sqlite_mcp.Prelude.{
  ℕ, suc, Bool, true, false, Option, none, some, List, [], ◌∷◌, ◌==◌, if◌then◌else◌, ok, err, ◌||◌,
}
use sqlite_mcp.Prelude.Text.{Text, codes, starts_with}
use sqlite_mcp.Prelude.Int.{ℤ, pos, ◌==ℤ◌}

-- Floating point numbers that are integers, and bytes that are their own text.
abbrev pub simple : Formats
simple = record {
  Real = ℤ;
  parse_real = parse_i64;
  real_to_string = i64_to_string;
  is_finite = λ x. true;
  is_sign_negative = λ x. false;
  is_zero = λ x. x ==ℤ ℤ.pos 0;
  encode = λ bytes. bytes;
  decode = λ s. some s;
  from_utf8 = λ bytes. some bytes;
}

-- No character beyond ASCII is a letter or a space.
abbrev pub ascii : Unicode
ascii = record { whitespace = λ c. false; alphabetic = λ c. false; alphanumeric = λ c. false }

-- A connection that refuses all statements.
abbrev pub silent : (e : Engine) → Statements e simple
silent e = record {
  discover = λ c sql offset. refused;
  prepare = λ s sql. (err e.invalid_query, s);
  step = λ s sql values. (([], none), s);
  total_changes = λ c. 0;
  changes = λ c. 0;
  invalid_parameter_name = λ name. e.invalid_query;
  payload_bytes = λ x. ok 0;
}

-- A connection: whether no transaction is open, the number it holds, and those of its savepoints.
pub record Ledger : Type 0 where
  pub closed : Bool
  pub total : ℕ
  pub saved : List ℕ

abbrev pub ledger_execute : Control → Ledger → Option SqliteError × Ledger
ledger_execute begin_deferred c = (none, record c { closed = false })
ledger_execute begin_immediate c = (none, record c { closed = false })
ledger_execute commit c = (none, record c { closed = true; saved = [] })
ledger_execute rollback c = (none, record c { closed = true; saved = [] })
ledger_execute savepoint c = (none, record c { saved = c.total ∷ c.saved })
ledger_execute release c = elim c.saved [
  | [] ↦ (some refusal, c)
  | _ ∷ rest ↦ (none, record c { saved = rest })
]
ledger_execute rollback_to_and_release c = elim c.saved [
  | [] ↦ (some refusal, c)
  | n ∷ rest ↦ (none, record c { total = n; saved = rest })
]

abbrev pub ledger : Engine
ledger = record {
  Conn = Ledger;
  is_autocommit = λ c. c.closed;
  execute = ledger_execute;
  invalid_query = refusal;
  Schema = ℕ;
  cookie = λ n. pos n;
  json_bytes = λ n. n;
  read_schema = λ c. ok 7;
  schema_version = λ c. ok (pos 7);
}

-- Where the first semicolon from an offset on ends.
abbrev pub semicolon : ℕ → Text → Option ℤ
semicolon n [] = none
semicolon n (c ∷ s) =
    let rest = semicolon (suc n) s in if c == b';' then some (pos (suc n)) else rest

abbrev pub add_one : Session ledger → Session ledger
add_one s = record s { conn = record s.conn { total = suc s.conn.total } }

-- The whole transaction is gone.
abbrev pub give_up : Session ledger → Session ledger
give_up s = record s { conn = record { closed = true; total = 0; saved = [] } }

-- A statement adds one. After that, one that starts with an exclamation mark fails, and one that
-- starts with a tilde fails and gives up the transaction.
abbrev pub counting_statements : Statements ledger simple
counting_statements = record {
  discover = λ c sql offset. prepared true (semicolon offset (drop offset sql));
  prepare = λ s sql. (ok (some (codes "total") ∷ []), s);
  step = λ s sql values. (
    (
      (integer_ref (pos s.conn.total) ∷ []) ∷ [],
      if starts_with sql (codes "!") || starts_with sql (codes "~") then some refusal else none,
    ),
    if starts_with sql (codes "~") then give_up s else add_one s,
  );
  total_changes = λ c. c.total;
  changes = λ c. 1;
  invalid_parameter_name = λ name. refusal;
  payload_bytes = λ x. ok 10;
}

-- Inside a transaction, with the number 4.
abbrev pub open_session : Session ledger
open_session = record { conn = record { closed = false; total = 4; saved = [] }; signal = new }

-- ===== src/Merge/Replay.antt =====
-- merge.rs: `import`, the part that replays the statements, checks the database and writes its image.

use sqlite_mcp.Merge.Split.{slice, validation_failed, output_exists, input_invalid, limit_exceeded}
use sqlite_mcp.Merge.Paths.{error_io, error_of}
use sqlite_mcp.Merge.Owner.{ExclusiveOutputOwner, capture, still_owned}
use sqlite_mcp.Prelude.Text.{Text, text_eq, codes}
use sqlite_mcp.Merge.Statement.{Executed, execute_one}
use sqlite_mcp.Worker.State.{Session}
use sqlite_mcp.Merge.Baseline.{Encodings, Baseline}
use sqlite_mcp.Core.Query.Statement.{Statements}
use sqlite_mcp.Policy.Cursor.{Unicode}
use sqlite_mcp.Sql.{Formats}
use sqlite_mcp.Sqlite.{Engine, SqliteError}
use sqlite_mcp.Disk.{FileSystem, Io, IoError, err_of, pure, stop_if}
use sqlite_mcp.Merge.Import.{
  ImportSqlite, Stop, failed, check_baseline, stop_sqlite, stop_text, ImportResult, stop_io,
  stop_sqlite_at,
}
use sqlite_mcp.Prelude.{
  ℕ, suc, ◌+◌, Bool, true, false, not, ◌||◌, Option, none, some, List, [], ◌∷◌, ltb, ◌==◌,
  if◌then◌else◌, Result, ok, err, length, is_empty,
}
use sqlite_mcp.Disk.{◌>>=◌, ◌>>◌, map_err, lift}
use sqlite_mcp.Merge.Import.{crashed, committed}
use sqlite_mcp.Merge.Statement.{refused, panicked, done}

module _ (e : Engine) (f : Formats) (fs : FileSystem) (u : Unicode) (q : Statements e f)
    (x : Encodings) (sqlite : ImportSqlite e fs) where
  -- What the replay changes: the database in memory, the file system, the number of statements that
  -- were executed, and the owner of the output, once it is created.
  pub record Importing : Type 0 where
    pub session : Session e
    pub world : fs.World
    pub statement_count : ℕ
    pub output_owner : Option (ExclusiveOutputOwner fs)

  -- A call on the file system, and a call on the database.
  abbrev pub on_world : {A : Type 0} → Io fs.World Stop A → Io Importing Stop A
  on_world m s = ((m s.world).0, record s { world = (m s.world).1 })

  abbrev pub on_session :
      {A : Type 0} → (Session e → Result A Stop × Session e) → Io Importing Stop A
  on_session m s = ((m s.session).0, record s { session = (m s.session).1 })

  abbrev pub answer_of :
      {A : Type 0} → (SqliteError → Stop) → (Session e → Result A SqliteError) → Io Importing Stop A
  answer_of class m s = (err_of class (m s.session), s)

  abbrev pub counted : Importing → Importing
  counted s = record s { statement_count = s.statement_count + 1 }

  abbrev pub executed : Executed → Importing → Result (Unit {0}) Stop × Importing
  executed done s = (ok tt, counted s)
  executed panicked s = (err crashed, s)
  executed (refused error) s = (err (failed error), s)

  -- `execute_one` and the count.
  unfoldable pub replay_statement : Text → ℕ → Io Importing Stop (Unit {0})
  unfolding execute_one
  replay_statement sql index s =
      let (outcome, session) = execute_one u e f q sql index s.session in
      executed outcome (record s { session = session })

  module _ (text : Text) (baseline : Baseline) (cancelled : ℕ → Bool) where
    -- The loop over the statements; the token is asked before each.
    unfoldable pub replay_statements : ℕ → List (ℕ × ℕ) → Io Importing Stop (Unit {0})
    unfolding check_baseline replay_statement slice
    replay_statements index [] = pure tt
    replay_statements index ((start, stop) ∷ ranges) = do
      stop_if (cancelled index)
          (failed (error_of limit_exceeded (codes "merge operation cancelled")))
      lift (check_baseline u x baseline (slice text start stop))
      replay_statement (slice text start stop) index
      replay_statements (suc index) ranges

  -- COMMIT and the checks of the database: its image.
  unfoldable pub check_database : ℕ → Io Importing Stop (List ℕ)
  unfolding text_eq
  check_database image_limit = do
    on_session (map_err (stop_sqlite validation_failed) sqlite.commit)
    on_session (map_err (stop_sqlite validation_failed) (sqlite.foreign_keys true))
    violations ← answer_of (stop_sqlite_at (codes "foreign_key_check: ")) sqlite.foreign_key_check
    stop_if (not (violations == 0))
        (failed (error_of validation_failed (codes "foreign_key_check reported violations")))
    integrity ← answer_of (stop_sqlite_at (codes "integrity_check: ")) sqlite.integrity_check
    stop_if (not (text_eq integrity (codes "ok"))) (failed (error_of validation_failed integrity))
    image ← answer_of (stop_sqlite_at (codes "serialize: ")) sqlite.serialize
    stop_if (is_empty image || ltb image_limit (length image)) (
        failed (error_of limit_exceeded (codes "serialized SQLite image exceeds configured limit")))
    pure image

  abbrev pub create_error : IoError → Stop
  create_error y =
      failed (error_io (if y.is_already_exists then output_exists else input_invalid) y)

  abbrev pub own : ExclusiveOutputOwner fs → Io Importing Stop (Unit {0})
  own owner s = (ok tt, record s { output_owner = some owner })

  -- A question that failed counts as a no.
  abbrev pub is_owned : Result Bool Text → Bool
  is_owned (ok b) = b
  is_owned (err message) = false

  abbrev pub owned_now : ExclusiveOutputOwner fs → Io fs.World Stop Bool
  owned_now owner w = (ok (is_owned (still_owned fs owner w).0), (still_owned fs owner w).1)

  -- The exclusive creation of the output, its ownership, and its bytes.
  unfoldable pub write_output : fs.FilePath → List ℕ → Io Importing Stop (Unit {0})
  unfolding capture still_owned
  write_output output image = do
    file ← on_world (map_err create_error (fs.create_new output))
    owner ← on_world (map_err stop_text (capture fs output file))
    own owner
    on_world (map_err stop_io (fs.write_all file image))
    on_world (map_err stop_io (fs.sync_all file))
    on_world (map_err stop_io (fs.sync_all file))
    owned ← on_world (owned_now owner)
    stop_if (not owned)
        (failed (error_of validation_failed (codes "output identity changed before validation")))

  -- The file that was written, as SQLite reads it: its journal mode, objects and tables.
  unfoldable pub verify_output : fs.FilePath → Io fs.World Stop (Text × ℕ × ℕ)
  verify_output output = do
    verify ← map_err (stop_sqlite validation_failed) (sqlite.open_read_only output)
    mode ← map_err (stop_sqlite validation_failed) (sqlite.journal_mode verify)
    objects ← map_err (stop_sqlite validation_failed) (sqlite.object_count verify)
    tables ← map_err (stop_sqlite validation_failed) (sqlite.table_count verify)
    pure (mode, objects, tables)

  -- `path_string(&output).unwrap()`.
  abbrev pub unwrap_path : Option Text → Result Text Stop
  unwrap_path none = err crashed
  unwrap_path (some path) = ok path

  abbrev pub count_of : Io Importing Stop ℕ
  count_of s = (ok s.statement_count, s)

  -- The closure `replay`.
  unfoldable pub replay :
      Text
      → Baseline
      → (ℕ → Bool)
      → List (ℕ × ℕ)
      → ℕ
      → fs.FilePath
      → ℕ
      → Io Importing Stop ImportResult
  unfolding replay_statements check_database write_output verify_output
  replay text baseline cancelled statements image_limit output byte_count = do
    replay_statements text baseline cancelled 0 statements
    image ← check_database image_limit
    write_output output image
    (mode, objects, tables) ← on_world (verify_output output)
    output_path ← lift (unwrap_path (fs.to_str output))
    statement_count ← count_of
    pure (record {
      output_path = output_path;
      output_state = committed;
      statement_count = statement_count;
      byte_count = byte_count;
      journal_mode = mode;
      object_count = objects;
      table_count = tables;
    })

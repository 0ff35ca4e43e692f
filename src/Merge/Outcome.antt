-- ===== src/Merge/Outcome.antt =====
-- merge.rs: `import`, from the texts that it reads to the state of its output.
use sqlite_mcp.Merge.Check.{check_merge_text, open_replay_database}
use sqlite_mcp.Worker.State.{Session}
use sqlite_mcp.Merge.Owner.{ExclusiveOutputOwner, remove_if_owned}
use sqlite_mcp.Core.Query.Statement.{Statements}
use sqlite_mcp.Merge.Paths.{read_text, check_output_path, error_of}
use sqlite_mcp.Sql.{Formats}
use sqlite_mcp.Merge.Baseline.{Baseline, Encodings}
use sqlite_mcp.Sqlite.{Engine}
use sqlite_mcp.Policy.Cursor.{Unicode}
use sqlite_mcp.Prelude.Text.{Text, codes}
use sqlite_mcp.Disk.{◌>>=◌, ◌>>◌, map_err, lift, FileSystem, Io, stop_if, pure}
use sqlite_mcp.Merge.Import.{
  crashed, success, failure, crash, Imported, ImportError, ImportSqlite, Stop, failed, not_created,
  removed, uncertain, OutputState, ImportResult,
}
use sqlite_mcp.Merge.Replay.{Importing, replay}
use sqlite_mcp.Merge.Split.{MergeError, MergeClass, limit_exceeded, cleanup_uncertain}
use sqlite_mcp.Prelude.{ℕ, ◌+◌, Bool, Option, none, some, List, [], ◌∷◌, Result, ok, err}

module _ (fs : FileSystem) where
  -- Details of an error in front of the replay.
  abbrev pub early : MergeError → Option fs.FilePath → ℕ → ImportError fs
  early error output bytes = record {
    error = error;
    output = output;
    state = not_created;
    statements = 0;
    bytes = bytes;
    cleanup_errors = [];
    root_class = none;
  }

  -- `map_err` of an error to its details.
  abbrev pub with_details :
      {A : Type 0}
      → Option fs.FilePath
      → ℕ
      → Io fs.World MergeError A
      → Io fs.World (ImportError fs) A
  with_details output bytes m = map_err (λ y. early y output bytes) m

  -- A text that is ready for its replay: what it was read from, its baseline and its statements.
  pub record Prepared : Type 0 where
    pub text : Text
    pub bytes : ℕ
    pub output : fs.FilePath
    pub baseline : Baseline
    pub statements : List (ℕ × ℕ)

  module _ (u : Unicode) (x : Encodings) where
    -- What happens in front of the database; the first answer of the token is asked for.
    unfoldable pub prepare_import :
        Text → Text → ℕ → ℕ → Bool → Io fs.World (ImportError fs) Prepared
    unfolding read_text check_output_path check_merge_text
    prepare_import sql_path output_path text_limit statement_limit cancelled = do
      (source, text, bytes) ← with_details none 0 (read_text fs x sql_path text_limit)
      output ←
          with_details (some (fs.path_from output_path)) bytes
            (check_output_path fs output_path source)
      (baseline, statements) ←
          with_details (some output) bytes (lift (check_merge_text u x text statement_limit))
      stop_if cancelled
          (early (error_of limit_exceeded (codes "merge operation cancelled")) (some output) bytes)
      pure (record {
        text = text;
        bytes = bytes;
        output = output;
        baseline = baseline;
        statements = statements;
      })

  module _ (e : Engine) (f : Formats) (u : Unicode) (q : Statements e f) (x : Encodings)
      (sqlite : ImportSqlite e fs) where
    abbrev pub failure_of :
        Prepared → MergeError → OutputState → ℕ → List Text → Option MergeClass → Imported fs
    failure_of p error state statements cleanup_errors root_class = failure (record {
      error = error;
      output = some p.output;
      state = state;
      statements = statements;
      bytes = p.bytes;
      cleanup_errors = cleanup_errors;
      root_class = root_class;
    })

    -- The removal of an output that could not be confirmed hides the class of the error.
    abbrev pub removed_or_uncertain :
        Prepared → MergeError → ℕ → Result (Unit {0}) Text × fs.World → Imported fs × fs.World
    removed_or_uncertain p error statements (ok _, w) =
        (failure_of p error removed statements [] none, w)
    removed_or_uncertain p error statements (err cleanup, w) = (
      failure_of p (record { class = cleanup_uncertain; message = error.message }) uncertain
          statements (cleanup ∷ []) (some error.class),
      w,
    )

    abbrev pub remove_output :
        Option (ExclusiveOutputOwner fs) → fs.World → Result (Unit {0}) Text × fs.World
    remove_output none w = (ok tt, w)
    remove_output (some owner) w = remove_if_owned fs owner w

    -- What becomes of a replay.
    unfoldable pub finish_import :
        Prepared → Result ImportResult Stop × Importing e f fs u q x sqlite → Imported fs × fs.World
    unfolding remove_if_owned
    finish_import p (ok result, s) = (success result, s.world)
    finish_import p (err crashed, s) = (crash, s.world)
    finish_import p (err (failed error), s) =
        removed_or_uncertain p error s.statement_count (remove_output s.output_owner s.world)

    abbrev pub started : Session e → fs.World → Importing e f fs u q x sqlite
    started s w = record { session = s; world = w; statement_count = 0; output_owner = none }

    -- The replay in the database, if there is one.
    abbrev pub replay_in :
        Prepared
        → (ℕ → Bool)
        → ℕ
        → fs.World
        → Result (Session e) MergeError
        → Imported fs × fs.World
    replay_in p cancelled image_limit w (err error) =
        (failure (early error (some p.output) p.bytes), w)
    replay_in p cancelled image_limit w (ok s) = finish_import p (
        replay e f fs u q x sqlite p.text p.baseline cancelled p.statements image_limit p.output
          p.bytes (started s w))

    -- What follows the checks.
    abbrev pub import_prepared :
        (ℕ → Bool) → ℕ → Result Prepared (ImportError fs) × fs.World → Imported fs × fs.World
    import_prepared cancelled image_limit (err error, w) = (failure error, w)
    import_prepared cancelled image_limit (ok p, w) =
        replay_in p cancelled image_limit w (open_replay_database e fs sqlite)

    -- `import`.
    unfoldable pub import : Text → Text → ℕ → ℕ → ℕ → (ℕ → Bool) → fs.World → Imported fs × fs.World
    unfolding prepare_import open_replay_database replay finish_import
    import sql_path output_path text_limit statement_limit image_limit cancelled w =
        import_prepared (λ n. cancelled (n + 1)) image_limit
          (prepare_import u x sql_path output_path text_limit statement_limit (cancelled 0) w)

-- ===== src/Merge/Extraction.antt =====
-- merge.rs: `extract`, from the paths of the sources to the state of the workspace.
use sqlite_mcp.Merge.Owner.{cleanup_workspace}
use sqlite_mcp.Policy.Cursor.{Unicode}
use sqlite_mcp.Merge.Extract.{TypedFormats}
use sqlite_mcp.Sql.{Formats}
use sqlite_mcp.Merge.Baseline.{Encodings}
use sqlite_mcp.Merge.Observe.{SourceObservation, make_workspace, source_path, input_error}
use sqlite_mcp.Prelude.Text.{Text, codes}
use sqlite_mcp.Disk.{FileSystem}
use sqlite_mcp.Merge.Split.{MergeError}
use sqlite_mcp.Merge.Import.{Stop, failed, crashed, OutputState, removed, uncertain, not_created}
use sqlite_mcp.Merge.Snapshot.{SnapshotFiles, FileByteCounts, SnapshotSqlite, Extracting, snapshot}
use sqlite_mcp.Prelude.{
  ℕ, Bool, ◌&&◌, Option, none, some, List, [], ◌∷◌, if◌then◌else◌, is_some, Result, ok, err,
}

abbrev pub no_files : SnapshotFiles
no_files = record { base_sql = none; ours_sql = none; theirs_sql = none; resolved_sql = none }

abbrev pub no_counts : FileByteCounts
no_counts = record { base_sql = 0; ours_sql = 0; theirs_sql = 0; resolved_sql = 0; manifest = 0 }

-- `ExtractionResult`, whose format version and state are constant.
pub record ExtractionResult : Type 0 where
  pub workspace_path : Text
  pub files : SnapshotFiles
  pub manifest_path : Text
  pub source_observations : List SourceObservation
  pub file_byte_counts : FileByteCounts

-- `MergeError::extraction`: the error with its details.
pub record ExtractionError (fs : FileSystem) : Type 0 where
  pub error : MergeError
  pub workspace : Option fs.FilePath
  pub files : SnapshotFiles
  pub observations : List SourceObservation
  pub counts : FileByteCounts
  pub state : OutputState
  pub cleanup_errors : List Text

-- An error of `make_workspace` has no details.
pub data Extracted (fs : FileSystem) : Type 0 where
  extracted : ExtractionResult → Extracted fs
  unextracted : ExtractionError fs → Extracted fs
  no_workspace : MergeError → Extracted fs
  crash : Extracted fs

module _ (fs : FileSystem) where
  -- All three sources are checked, and the first error is reported.
  abbrev pub all_paths :
      Result fs.FilePath MergeError
      → Result fs.FilePath MergeError
      → Result fs.FilePath MergeError
      → Result (fs.FilePath × fs.FilePath × fs.FilePath) MergeError
  all_paths (ok a) (ok b) (ok c) = ok (a, b, c)
  all_paths (err e) _ _ = err e
  all_paths (ok a) (err e) _ = err e
  all_paths (ok a) (ok b) (err e) = err e

  abbrev pub before_workspace : MergeError → ExtractionError fs
  before_workspace error = record {
    error = error;
    workspace = none;
    files = no_files;
    observations = [];
    counts = no_counts;
    state = not_created;
    cleanup_errors = [];
  }

  module _ (x : Encodings) (f : Formats) (t : TypedFormats f) (u : Unicode)
      (sqlite : SnapshotSqlite fs f) where
    -- Two paths are unwrapped as UTF-8.
    abbrev pub extraction_result :
        Option Text → Option Text → Extracting fs x f t u sqlite → Extracted fs
    extraction_result (some workspace) (some manifest) s = extracted (record {
      workspace_path = workspace;
      files = s.files;
      manifest_path = manifest;
      source_observations = s.observations;
      file_byte_counts = s.counts;
    })
    extraction_result _ _ s = crash

    abbrev pub clean_up :
        fs.FilePath
        → MergeError
        → Extracting fs x f t u sqlite
        → Result (Unit {0}) Text × fs.World
        → Extracted fs × fs.World
    clean_up workspace error s (ok _, w) = (
      unextracted (record {
        error = error;
        workspace = some workspace;
        files = s.files;
        observations = s.observations;
        counts = s.counts;
        state = removed;
        cleanup_errors = [];
      }),
      w,
    )
    clean_up workspace error s (err message, w) = (
      unextracted (record {
        error = error;
        workspace = some workspace;
        files = s.files;
        observations = s.observations;
        counts = s.counts;
        state = uncertain;
        cleanup_errors = message ∷ [];
      }),
      w,
    )

    -- What becomes of the closure: a failure removes the workspace.
    unfoldable pub finish_extraction :
        fs.FilePath
        → Result fs.FilePath Stop × Extracting fs x f t u sqlite
        → Extracted fs × fs.World
    unfolding cleanup_workspace
    finish_extraction workspace (ok manifest, s) =
        (extraction_result (fs.to_str workspace) (fs.to_str manifest) s, s.world)
    finish_extraction workspace (err crashed, s) = (crash, s.world)
    finish_extraction workspace (err (failed error), s) =
        clean_up workspace error s (cleanup_workspace fs workspace s.world)

    module _
        (json : List fs.FilePath
          → List SourceObservation
          → SnapshotFiles
          → FileByteCounts
          → Result (List ℕ) Text)
        (text_limit statement_limit observation_limit : ℕ) (cancelled : ℕ → Bool) where
      abbrev pub started_extracting : fs.World → Extracting fs x f t u sqlite
      started_extracting w = record {
        world = w;
        observations = [];
        files = no_files;
        counts = no_counts;
      }

      -- Behind the workspace.
      abbrev pub extract_in :
          fs.FilePath × fs.FilePath × fs.FilePath
          → Result fs.FilePath MergeError × fs.World
          → Extracted fs × fs.World
      extract_in paths (err error, w) = (no_workspace error, w)
      extract_in (base, ours, theirs) (ok workspace, w) = finish_extraction workspace (
          snapshot fs x f t u sqlite text_limit statement_limit observation_limit json
            (base ∷ ours ∷ theirs ∷ []) base ours theirs workspace cancelled (started_extracting w))

      -- A path that is not UTF-8 is refused.
      abbrev pub are_texts : fs.FilePath × fs.FilePath × fs.FilePath → Bool
      are_texts (a, b, c) = is_some (fs.to_str a) && is_some (fs.to_str b) && is_some (fs.to_str c)

      abbrev pub extract_from :
          fs.FilePath
          → List fs.FilePath
          → Result (fs.FilePath × fs.FilePath × fs.FilePath) MergeError
          → fs.World
          → Extracted fs × fs.World
      extract_from root names (err error) w = (unextracted (before_workspace error), w)
      extract_from root names (ok paths) w =
          if are_texts paths then extract_in paths (make_workspace fs x root names w) else (
            unextracted
                (before_workspace (input_error (codes "canonical source path is not valid UTF-8"))),
            w,
          )

      -- `extract`; the directory of temporary files and the fresh names in it are arguments.
      unfoldable pub extract :
          Text → Text → Text → fs.FilePath → List fs.FilePath → fs.World → Extracted fs × fs.World
      unfolding source_path make_workspace snapshot finish_extraction
      extract base_path ours_path theirs_path root names w =
          let (a, w1) = source_path fs x base_path w in
          let (b, w2) = source_path fs x ours_path w1 in
          let (c, w3) = source_path fs x theirs_path w2 in
          extract_from root names (all_paths a b c) w3

-- ===== src/Merge/Snapshot.antt =====
-- merge.rs: `extract`, from three databases to a directory with their merge texts and a manifest.
use sqlite_mcp.Policy.Cursor.{Unicode}
use sqlite_mcp.Merge.Owner.{same_identity, write_bounded}
use sqlite_mcp.Merge.Extract.{TypedFormats, extract_one}
use sqlite_mcp.Merge.Schema.{ExtractSqlite}
use sqlite_mcp.Merge.Baseline.{Encodings}
use sqlite_mcp.Merge.Paths.{error_of}
use sqlite_mcp.Sqlite.{SqliteError}
use sqlite_mcp.Sql.{Formats}
use sqlite_mcp.Merge.Observe.{
  SourceObservation, SidecarObservation, input_error, source_observation, input_io,
}
use sqlite_mcp.Prelude.Text.{Text, text_eq, codes}
use sqlite_mcp.Disk.{FileSystem, Io, ◌>>=◌, ◌>>◌, pure, lift, stop_if, map_err}
use sqlite_mcp.Merge.Split.{MergeError, limit_exceeded}
use sqlite_mcp.Merge.Import.{Stop, failed, crashed}
use sqlite_mcp.Merge.Manifest.{settle_manifest, manifest_json, manifest_byte_limit}
use sqlite_mcp.Prelude.{
  ℕ, Bool, true, false, not, ◌&&◌, Option, none, some, List, [], ◌∷◌, ◌++◌, ltb, ◌==◌, Result, ok,
  err, length, same,
}

-- `Files` and `FileByteCounts`.
pub record SnapshotFiles : Type 0 where
  pub base_sql : Option Text
  pub ours_sql : Option Text
  pub theirs_sql : Option Text
  pub resolved_sql : Option Text

pub record FileByteCounts : Type 0 where
  pub base_sql : ℕ
  pub ours_sql : ℕ
  pub theirs_sql : ℕ
  pub resolved_sql : ℕ
  pub manifest : ℕ

-- `labels`.
pub data SourceLabel : Type 0 where
  base ours theirs : SourceLabel

abbrev pub label_text : SourceLabel → Text
label_text base = codes "base"
label_text ours = codes "ours"
label_text theirs = codes "theirs"

abbrev pub file_text : SourceLabel → Text
file_text base = codes "base.sql"
file_text ours = codes "ours.sql"
file_text theirs = codes "theirs.sql"

abbrev pub set_file : SourceLabel → Option Text → SnapshotFiles → SnapshotFiles
set_file base p f = record f { base_sql = p }
set_file ours p f = record f { ours_sql = p }
set_file theirs p f = record f { theirs_sql = p }

abbrev pub set_count : SourceLabel → ℕ → FileByteCounts → FileByteCounts
set_count base n c = record c { base_sql = n }
set_count ours n c = record c { ours_sql = n }
set_count theirs n c = record c { theirs_sql = n }

abbrev pub option_eq {ℓ} : {A : Type ℓ} → (A → A → Bool) → Option A → Option A → Bool
option_eq eq none none = true
option_eq eq (some a) (some b) = eq a b
option_eq eq _ _ = false

-- `PartialEq` of observations.
unfoldable pub same_sidecar : SidecarObservation → SidecarObservation → Bool
unfolding text_eq
same_sidecar a b =
    text_eq a.kind b.kind
    && text_eq a.path b.path
    && same a.present b.present
    && option_eq same_identity a.device_inode b.device_inode
    && option_eq (λ m n. m == n) a.size_bytes b.size_bytes
    && option_eq (λ m n. m == n) a.mtime_ns b.mtime_ns
    && option_eq text_eq a.sha256_hex b.sha256_hex

-- Whether a source has not changed.
unfoldable pub unchanged : SourceObservation → SourceObservation → Bool
unfolding same_sidecar
unchanged a b =
    same_sidecar a.main b.main
    && same_sidecar a.rollback_journal b.rollback_journal
    && same_sidecar a.wal b.wal
    && same_sidecar a.shm b.shm

-- What SQLite does with a source: `open_with_flags` for reading only, and its transaction.
pub record SnapshotSqlite (fs : FileSystem) (f : Formats) : Type 1 where
  pub reads : ExtractSqlite f
  pub open_read_only : fs.FilePath → Io fs.World SqliteError reads.Conn
  pub begin_deferred : reads.Conn → Io fs.World SqliteError reads.Conn
  pub rollback : reads.Conn → Io fs.World SqliteError (Unit {0})

abbrev pub stop_merge : MergeError → Stop
stop_merge y = failed y

abbrev pub stop_input : Text → Stop
stop_input message = failed (input_error message)

abbrev pub stop_source : SqliteError → Stop
stop_source y = failed (input_error y.text)

abbrev pub cancelled_stop : Stop
cancelled_stop = failed (error_of limit_exceeded (codes "merge operation cancelled"))

module _ (fs : FileSystem) (x : Encodings) (f : Formats) (t : TypedFormats f) (u : Unicode)
    (sqlite : SnapshotSqlite fs f) where
  -- What the closure changes, besides the world.
  pub record Extracting : Type 0 where
    pub world : fs.World
    pub observations : List SourceObservation
    pub files : SnapshotFiles
    pub counts : FileByteCounts

  abbrev pub at_world : {A : Type 0} → Io fs.World Stop A → Io Extracting Stop A
  at_world m s = ((m s.world).0, record s { world = (m s.world).1 })

  -- A push onto the observations.
  abbrev pub observed : SourceObservation → Io Extracting Stop (Unit {0})
  observed o s = (ok tt, record s { observations = s.observations ++ (o ∷ []) })

  module _ (text_limit statement_limit observation_limit : ℕ) where
    -- The text of a source, inside its transaction.
    unfoldable pub read_source : SourceLabel → fs.FilePath → Io fs.World Stop Text
    unfolding extract_one
    read_source label path = do
      conn ← map_err stop_source (sqlite.open_read_only path)
      begun ← map_err stop_source (sqlite.begin_deferred conn)
      (text, _) ← lift (extract_one x f t u sqlite.reads (label_text label) statement_limit begun)
      map_err stop_source (sqlite.rollback begun)
      stop_if (ltb text_limit (length (x.as_bytes text))) (
          failed (
            error_of limit_exceeded
              (label_text label ++ codes ".sql exceeds configured text limit")))
      pure text

    -- A source, between two observations that agree.
    unfoldable pub snapshot_source : SourceLabel → fs.FilePath → Bool → Io Extracting Stop Text
    unfolding source_observation read_source unchanged
    snapshot_source label path cancelled = do
      stop_if cancelled cancelled_stop
      before ← at_world (
          map_err stop_merge
            (source_observation fs x (label_text label) (codes "before") path observation_limit))
      stop_if (not before.main.present) (stop_input (codes "source disappeared before open"))
      observed before
      text ← at_world (read_source label path)
      after ← at_world (
          map_err stop_merge
            (source_observation fs x (label_text label) (codes "after") path observation_limit))
      stop_if (not (unchanged before after))
          (stop_input (codes "source " ++ (label_text label ++ codes " changed during extraction")))
      observed after
      pure text

    abbrev pub record_file : SourceLabel → Option Text → ℕ → Io Extracting Stop (Unit {0})
    record_file label path n s = (
      ok tt,
      record s { files = set_file label path s.files; counts = set_count label n s.counts },
    )

    -- The text of a source in the workspace.
    unfoldable pub write_source :
        fs.FilePath → SourceLabel → Text → Bool → Io Extracting Stop (Unit {0})
    unfolding write_bounded
    write_source workspace label text cancelled = do
      stop_if cancelled cancelled_stop
      let path = fs.join workspace (fs.path_from (file_text label))
      n ← at_world (map_err stop_input (write_bounded fs path (x.as_bytes text) text_limit))
      record_file label (fs.to_str path) n

    abbrev pub files_now : Io Extracting Stop SnapshotFiles
    files_now s = (ok s.files, s)

    -- `unwrap` of the path of `ours.sql`.
    abbrev pub unwrap_ours : Option Text → Result Text Stop
    unwrap_ours none = err crashed
    unwrap_ours (some p) = ok p

    abbrev pub record_resolved : Option Text → ℕ → Io Extracting Stop (Unit {0})
    record_resolved path n s = (
      ok tt,
      record s {
        files = record s.files { resolved_sql = path };
        counts = record s.counts { resolved_sql = n };
      },
    )

    -- The copy of the text of ours, to be resolved.
    unfoldable pub write_resolved : fs.FilePath → Io Extracting Stop (Unit {0})
    unfolding write_bounded
    write_resolved workspace = do
      let path = fs.join workspace (fs.path_from (codes "resolved.sql"))
      files ← files_now
      ours_sql ← lift (unwrap_ours files.ours_sql)
      bytes ← at_world (map_err (λ y. failed (input_io y)) (fs.read_file (fs.path_from ours_sql)))
      n ← at_world (map_err stop_input (write_bounded fs path bytes text_limit))
      record_resolved (fs.to_str path) n

    module _
        (json : List fs.FilePath
          → List SourceObservation
          → SnapshotFiles
          → FileByteCounts
          → Result (List ℕ) Text)
        (inputs : List fs.FilePath) where
      -- The manifest that states a size, in the state that is reached.
      abbrev pub manifest_of : Extracting → ℕ → Result (List ℕ) MergeError
      manifest_of s n =
          manifest_json (json inputs s.observations s.files (record s.counts { manifest = n }))

      abbrev pub stop_of : {A : Type 0} → Result A MergeError → Result A Stop
      stop_of (ok a) = ok a
      stop_of (err y) = err (failed y)

      abbrev pub settled : Io Extracting Stop (List ℕ)
      settled s = (stop_of (settle_manifest (manifest_of s) s.counts.manifest), s)

      abbrev pub record_manifest : ℕ → Io Extracting Stop (Unit {0})
      record_manifest n s = (ok tt, record s { counts = record s.counts { manifest = n } })

      -- The manifest, and its path.
      unfoldable pub write_manifest : fs.FilePath → Io Extracting Stop fs.FilePath
      unfolding settle_manifest manifest_json write_bounded
      write_manifest workspace = do
        let path = fs.join workspace (fs.path_from (codes "manifest.json"))
        manifest ← settled
        record_manifest (length manifest)
        at_world (map_err stop_input (write_bounded fs path manifest manifest_byte_limit))
        pure path

      -- The closure of `extract`; the token is asked six times.
      unfoldable pub snapshot :
          fs.FilePath
          → fs.FilePath
          → fs.FilePath
          → fs.FilePath
          → (ℕ → Bool)
          → Io Extracting Stop fs.FilePath
      unfolding snapshot_source write_source write_resolved write_manifest
      snapshot base_path ours_path theirs_path workspace cancelled = do
        base_text ← snapshot_source base base_path (cancelled 0)
        ours_text ← snapshot_source ours ours_path (cancelled 1)
        theirs_text ← snapshot_source theirs theirs_path (cancelled 2)
        write_source workspace base base_text (cancelled 3)
        write_source workspace ours ours_text (cancelled 4)
        write_source workspace theirs theirs_text (cancelled 5)
        write_resolved workspace
        write_manifest workspace

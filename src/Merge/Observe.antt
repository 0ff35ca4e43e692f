-- ===== src/Merge/Observe.antt =====
-- merge.rs: what an extraction observes of its sources, `source_path`, `sha256_file`, `observe` and
-- `source_observation`, and the directory that it works in, `make_workspace`, as on Unix.
use sqlite_mcp.Merge.Owner.{io_text}
use sqlite_mcp.Worker.Error.{decimal}
use sqlite_mcp.Merge.Baseline.{Encodings}
use sqlite_mcp.Merge.Paths.{error_io, error_of, is_not_literal}
use sqlite_mcp.Prelude.Text.{Text, codes, starts_with, text_eq}
use sqlite_mcp.Disk.{
  FileSystem, IoError, Metadata, Io, ◌>>=◌, ◌>>◌, pure, lift, stop_if, map_err, ask,
}
use sqlite_mcp.Merge.Split.{MergeError, input_invalid}
use sqlite_mcp.Prelude.{
  ℕ, zero, suc, ◌+◌, Bool, true, false, not, ◌||◌, Option, none, some, List, [], ◌∷◌, ◌++◌, map,
  ltb, ◌==◌, if◌then◌else◌, ok, err, ok_or, length, is_empty, ◌%◌,
}

-- `SidecarObservation`; the digest is that of the bytes that were read.
pub record SidecarObservation : Type 0 where
  pub kind : Text
  pub path : Text
  pub present : Bool
  pub device_inode : Option (ℕ × ℕ)
  pub size_bytes : Option ℕ
  pub mtime_ns : Option ℕ
  pub sha256_hex : Option Text

pub record SourceObservation : Type 0 where
  pub label : Text
  pub phase : Text
  pub main : SidecarObservation
  pub rollback_journal : SidecarObservation
  pub wal : SidecarObservation
  pub shm : SidecarObservation

abbrev pub input_error : Text → MergeError
input_error message = error_of input_invalid message

abbrev pub input_io : IoError → MergeError
input_io e = error_io input_invalid e

-- `b"SQLite format 3\0"`.
abbrev pub database_magic : List ℕ
database_magic = codes "SQLite format 3" ++ (0 ∷ [])

module _ (fs : FileSystem) (x : Encodings) where
  -- The loop over the buffers, each turn of which reads at least a byte: the fuel is one more than the
  -- limit on the bytes. The digest is that of all bytes.
  unfoldable pub digest_all : ℕ → fs.File → List ℕ → ℕ → Io fs.World Text (List ℕ)
  digest_all zero file bytes cap w =
      (err (codes "source observation exceeds " ++ (decimal cap ++ codes " bytes")), w)
  digest_all (suc fuel) file bytes cap w =
      let (answer, w') = fs.read file w in
      elim answer [
        | err e ↦ (err e.text, w')
        | ok buffer ↦
            let rest = digest_all fuel file (bytes ++ buffer) cap w' in
            if is_empty buffer
            then (ok bytes, w')
            else if ltb cap (length bytes + length buffer)
            then (err (codes "source observation exceeds " ++ (decimal cap ++ codes " bytes")), w')
            else rest
      ]

  -- `sha256_file`: the number of bytes, and their digest.
  unfoldable pub sha256_file : fs.FilePath → ℕ → Io fs.World Text (ℕ × Text)
  unfolding digest_all
  sha256_file path cap = do
    file ← map_err io_text (fs.open_read path)
    bytes ← digest_all (suc cap) file [] cap
    pure (length bytes, x.schema_digest bytes)

  -- An observation of a file that is there.
  unfoldable pub observe_present :
      fs.FilePath → Text → Text → ℕ → Io fs.World Text SidecarObservation
  unfolding sha256_file
  observe_present path path_text kind cap = do
    metadata ← map_err io_text (fs.metadata path)
    stop_if (not metadata.is_file) (kind ++ codes " sidecar is not a regular file")
    digest ← sha256_file path cap
    pure (record {
      kind = kind;
      path = path_text;
      present = true;
      device_inode = some (metadata.dev, metadata.ino);
      size_bytes = some metadata.len;
      mtime_ns = metadata.mtime_ns;
      sha256_hex = some digest.1;
    })

  abbrev pub absent : Text → Text → SidecarObservation
  absent kind path_text = record {
    kind = kind;
    path = path_text;
    present = false;
    device_inode = none;
    size_bytes = none;
    mtime_ns = none;
    sha256_hex = none;
  }

  unfoldable pub observe_file : fs.FilePath → Text → ℕ → Io fs.World Text SidecarObservation
  unfolding observe_present
  observe_file path kind cap = do
    present ← ask (fs.exists path)
    path_text ← lift (ok_or (fs.to_str path) (codes "path is not valid UTF-8"))
    if present then observe_present path path_text kind cap else pure (absent kind path_text)

  -- A path beside the source.
  abbrev pub beside : fs.FilePath → Text → fs.FilePath
  beside path suffix = fs.path_from (fs.lossy path ++ suffix)

  unfoldable pub source_observation :
      Text → Text → fs.FilePath → ℕ → Io fs.World MergeError SourceObservation
  unfolding observe_file
  source_observation label phase path cap = do
    main ← map_err input_error (observe_file path (codes "main") cap)
    rollback_journal ←
        map_err input_error
          (observe_file (beside path (codes "-journal")) (codes "rollback_journal") cap)
    wal ← map_err input_error (observe_file (beside path (codes "-wal")) (codes "wal") cap)
    shm ← map_err input_error (observe_file (beside path (codes "-shm")) (codes "shm") cap)
    stop_if (rollback_journal.present || wal.present || shm.present)
        (input_error (label ++ codes " has unsupported SQLite sidecar files"))
    pure (record {
      label = label;
      phase = phase;
      main = main;
      rollback_journal = rollback_journal;
      wal = wal;
      shm = shm;
    })

  unfoldable pub source_path : Text → Io fs.World MergeError fs.FilePath
  unfolding starts_with text_eq
  source_path path = do
    stop_if (is_not_literal fs path)
        (input_error (codes "merge paths must be absolute literal filesystem paths"))
    canonical ← map_err input_io (fs.canonicalize (fs.path_from path))
    metadata ← map_err input_io (fs.metadata canonical)
    stop_if (not metadata.is_file) (input_error (codes "merge source is not a regular file"))
    file ← map_err input_io (fs.open_read canonical)
    header ← map_err input_io (fs.read_exact 16 file)
    stop_if (not (text_eq header database_magic))
        (input_error (codes "source is not an initialized SQLite database"))
    pure canonical

  -- `mode & 0o777 != 0o700`.
  abbrev pub is_not_private : Metadata → Bool
  is_not_private m = not (m.mode % 512 == 448)

  -- A directory that has been created is private, or it is removed again.
  unfoldable pub check_private : fs.FilePath → Io fs.World MergeError fs.FilePath
  check_private candidate w =
      let (answer, w1) = fs.metadata candidate w in
      elim answer [
        | err e ↦ (err (input_io e), w1)
        | ok m ↦
            if is_not_private m
            then (
              err (input_error (codes "temporary workspace is not private")),
              (fs.remove_dir candidate w1).1,
            )
            else (ok candidate, w1)
      ]

  -- The tries, each with a fresh name.
  unfoldable pub try_workspaces : List fs.FilePath → Io fs.World MergeError fs.FilePath
  unfolding check_private
  try_workspaces [] w = (err (input_error (codes "could not allocate a unique merge workspace")), w)
  try_workspaces (candidate ∷ candidates) w =
      let (answer, w1) = fs.create_dir 448 candidate w in
      let rest = try_workspaces candidates w1 in
      elim answer [
        | ok _ ↦ check_private candidate w1
        | err e ↦ if e.is_already_exists then rest else (err (input_io e), w1)
      ]

  -- `make_workspace`: the directory of temporary files, and sixteen fresh names in it.
  unfoldable pub make_workspace :
      fs.FilePath → List fs.FilePath → Io fs.World MergeError fs.FilePath
  unfolding try_workspaces
  make_workspace root names = do
    root_text ←
        lift (
          ok_or (fs.to_str root)
            (input_error (codes "temporary directory path is not valid UTF-8")))
    stop_if (is_empty root_text) (input_error (codes "temporary directory path is empty"))
    try_workspaces (map (λ name. fs.join root name) names)

-- ===== src/Merge/Paths.antt =====
-- merge.rs: the paths and the text of an import, `read_text`, `source_path_text` and
-- `check_output_path`.
use sqlite_mcp.Prelude.Text.{Text, codes, starts_with}
use sqlite_mcp.Sql.{has_nul}
use sqlite_mcp.Disk.{FileSystem, IoError, Io, ◌>>=◌, ◌>>◌, pure, lift, stop_if, map_err, ask}
use sqlite_mcp.Merge.Split.{
  MergeClass, format_invalid, limit_exceeded, output_exists, input_invalid, MergeError,
}
use sqlite_mcp.Merge.Baseline.{Encodings}
use sqlite_mcp.Prelude.{
  ℕ, zero, suc, ◌+◌, Bool, not, ◌||◌, List, [], ◌∷◌, ◌++◌, ltb, if◌then◌else◌, ok, err, ok_or,
  length, is_empty,
}

abbrev pub error_of : MergeClass → Text → MergeError
error_of class message = record { class = class; message = message }

abbrev pub error_io : MergeClass → IoError → MergeError
error_io class e = error_of class e.text

module _ (fs : FileSystem) where
  -- The test of a path that three functions share.
  abbrev pub is_not_literal : Text → Bool
  is_not_literal path =
      has_nul path || not (fs.is_absolute (fs.path_from path)) || starts_with path (codes "file:")

  unfoldable pub source_path_text : Text → Io fs.World MergeError fs.FilePath
  unfolding starts_with
  source_path_text path = do
    stop_if (is_not_literal path)
        (error_of format_invalid (codes "SQL path must be an absolute literal path"))
    canonical ← map_err (error_io format_invalid) (fs.canonicalize (fs.path_from path))
    file ← ask (fs.is_file canonical)
    stop_if (not file) (error_of format_invalid (codes "SQL path is not a regular file"))
    pure canonical

  -- The loop over the buffers, each turn of which reads at least a byte: the fuel is one more than the
  -- limit on the bytes.
  unfoldable pub read_all : ℕ → fs.File → List ℕ → ℕ → Io fs.World MergeError (List ℕ)
  read_all zero file bytes limit w =
      (err (error_of limit_exceeded (codes "SQL source exceeds configured text limit")), w)
  read_all (suc fuel) file bytes limit w =
      let (answer, w') = fs.read file w in
      elim answer [
        | err e ↦ (err (error_io format_invalid e), w')
        | ok buffer ↦
            let rest = read_all fuel file (bytes ++ buffer) limit w' in
            if is_empty buffer
            then (ok bytes, w')
            else if ltb limit (length bytes + length buffer)
            then (
              err (error_of limit_exceeded (codes "SQL source exceeds configured text limit")),
              w',
            )
            else rest
      ]

  module _ (x : Encodings) where
    -- The path, the text and the number of its bytes.
    unfoldable pub read_text : Text → ℕ → Io fs.World MergeError (fs.FilePath × Text × ℕ)
    unfolding source_path_text read_all
    read_text path limit = do
      source ← source_path_text path
      file ← map_err (error_io format_invalid) (fs.open_read source)
      bytes ← read_all (suc limit) file [] limit
      stop_if (has_nul bytes) (error_of format_invalid (codes "SQL source contains NUL"))
      text ←
          lift
            (ok_or (x.from_utf8 bytes) (error_of format_invalid (codes "SQL source is not UTF-8")))
      pure (source, text, length bytes)

  -- None of these files stands beside the output.
  unfoldable pub check_sidecars : fs.FilePath → Text → List Text → Io fs.World MergeError (Unit {0})
  check_sidecars candidate file_name [] w = (ok tt, w)
  check_sidecars candidate file_name (suffix ∷ suffixes) w =
      let (present, w') =
        fs.exists (fs.with_file_name candidate (fs.path_from (file_name ++ suffix))) w in
      let rest = check_sidecars candidate file_name suffixes w' in
      if present
      then (err (error_of output_exists (codes "output sidecar path is already reserved")), w')
      else rest

  unfoldable pub check_output_path : Text → fs.FilePath → Io fs.World MergeError fs.FilePath
  unfolding starts_with check_sidecars
  check_output_path path input = do
    stop_if (is_not_literal path)
        (error_of output_exists (codes "output path must be an absolute literal path"))
    let raw = fs.path_from path
    parent ←
        lift (ok_or (fs.parent raw) (error_of output_exists (codes "output parent is missing")))
    directory ← ask (fs.is_dir parent)
    stop_if (not directory) (error_of output_exists (codes "output parent does not exist"))
    canonical ← map_err (error_io input_invalid) (fs.canonicalize parent)
    name ←
        lift
          (ok_or (fs.file_name raw) (error_of output_exists (codes "output filename is missing")))
    let candidate = fs.join canonical name
    stop_if (fs.path_eq candidate input)
        (error_of output_exists (codes "SQL source and output alias the same file"))
    present ← ask (fs.exists candidate)
    stop_if present (error_of output_exists (codes "output already exists"))
    file_name ← lift (
        ok_or (fs.file_name candidate)
          (error_of output_exists (codes "output filename is missing")))
    file_text ← lift (
        ok_or (fs.to_str file_name)
          (error_of output_exists (codes "output filename is not valid UTF-8")))
    check_sidecars candidate file_text (codes "-wal" ∷ codes "-shm" ∷ codes "-journal" ∷ [])
    pure candidate

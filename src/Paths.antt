-- ===== src/Paths.antt =====
-- crates/sqlite-mcp-core/src/paths.rs: the paths of requests. `PathError` stands beside the other
-- errors of the core.
pub mod Literal
use sqlite_mcp.Prelude.{
  Bool, not, Option, none, some, List, Result, ok, err, ◌==◌, if◌then◌else◌, fail_if, ok_or,
}
use sqlite_mcp.Prelude.Text.{Text, codes, starts_with}
use sqlite_mcp.Sql.{has_nul}
use sqlite_mcp.Core.Error.{PathError}
use sqlite_mcp.Disk.{FileSystem, IoError, Io, ◌>>=◌, ◌>>◌, pure, lift, stop_if, map_err, ask}

module _ (fs : FileSystem) where
  unfoldable pub validate_literal : Text → Io fs.World PathError (Unit {0})
  unfolding starts_with
  validate_literal path = do
    stop_if (has_nul path) PathError.nul
    stop_if (starts_with path (codes "file:")) PathError.uri
    stop_if (not (fs.is_absolute (fs.path_from path))) PathError.relative

  abbrev pub missing_or_io : IoError → PathError
  missing_or_io e = if e.is_not_found then PathError.missing else PathError.io e.text

  abbrev pub path_io : IoError → PathError
  path_io e = PathError.io e.text

  unfoldable pub existing : Text → Io fs.World PathError fs.FilePath
  unfolding validate_literal
  existing path = do
    validate_literal path
    p ← map_err missing_or_io (fs.canonicalize (fs.path_from path))
    file ← ask (fs.is_file p)
    stop_if (not file) PathError.not_file
    pure p

  -- The path of the new file, and its directory.
  unfoldable pub create_target : Text → Io fs.World PathError (fs.FilePath × fs.FilePath)
  unfolding validate_literal
  create_target path = do
    validate_literal path
    let p = fs.path_from path
    directory ← lift (ok_or (fs.parent p) PathError.missing)
    parent ← map_err path_io (fs.canonicalize directory)
    name ← lift (ok_or (fs.file_name p) PathError.missing)
    pure (fs.join parent name, parent)

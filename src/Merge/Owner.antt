-- ===== src/Merge/Owner.antt =====
-- merge.rs: `ExclusiveOutputOwner`, `write_bounded` and `cleanup_workspace`, as on Unix, where every
-- file has an identity.
use sqlite_mcp.Prelude.Text.{Text, codes}
use sqlite_mcp.Worker.Error.{decimal}
use sqlite_mcp.Disk.{FileSystem, Metadata, IoError, Io, ◌>>=◌, ◌>>◌, pure, stop_if, map_err, ask}
use sqlite_mcp.Prelude.{
  ℕ, Bool, false, not, ◌&&◌, List, ◌++◌, ltb, ◌==◌, if◌then◌else◌, Result, ok, err, length,
}

-- `identity`: device and inode.
abbrev pub Identity : Type 0
Identity = ℕ × ℕ

abbrev pub identity : Metadata → Identity
identity m = (m.dev, m.ino)

abbrev pub same_identity : Identity → Identity → Bool
same_identity a b = a.0 == b.0 && a.1 == b.1

abbrev pub io_text : IoError → Text
io_text e = e.text

module _ (fs : FileSystem) where
  pub record ExclusiveOutputOwner : Type 0 where
    pub path : fs.FilePath
    pub owned : Identity

  unfoldable pub capture : fs.FilePath → fs.File → Io fs.World Text ExclusiveOutputOwner
  capture path file = do
    descriptor ← map_err io_text (fs.file_metadata file)
    target ← map_err io_text (fs.metadata path)
    stop_if (not (same_identity (identity descriptor) (identity target)))
        (codes "output identity changed during exclusive creation")
    pure (record { path = path; owned = identity descriptor })

  -- A path that is gone is not owned.
  abbrev pub owned_by : ExclusiveOutputOwner → Result Metadata IoError → Result Bool Text
  owned_by owner (ok m) = ok (same_identity (identity m) owner.owned)
  owned_by owner (err e) = if e.is_not_found then ok false else err e.text

  unfoldable pub still_owned : ExclusiveOutputOwner → Io fs.World Text Bool
  still_owned owner w = let (answer, w') = fs.metadata owner.path w in (owned_by owner answer, w')

  unfoldable pub remove_if_owned : ExclusiveOutputOwner → Io fs.World Text (Unit {0})
  unfolding still_owned
  remove_if_owned owner = do
    owned ← still_owned owner
    stop_if (not owned) (codes "output identity changed or output disappeared")
    map_err io_text (fs.remove_file owner.path)
    present ← ask (fs.exists owner.path)
    stop_if present (codes "output remained after owned removal")

  unfoldable pub write_bounded : fs.FilePath → List ℕ → ℕ → Io fs.World Text ℕ
  write_bounded path bytes cap = do
    stop_if (ltb cap (length bytes))
        (codes "artifact exceeds configured limit of " ++ (decimal cap ++ codes " bytes"))
    file ← map_err io_text (fs.create_new path)
    map_err io_text (fs.write_all file bytes)
    map_err io_text (fs.sync_all file)
    pure (length bytes)

  unfoldable pub remove_workspace : fs.FilePath → Io fs.World Text (Unit {0})
  remove_workspace path = do
    map_err io_text (fs.remove_dir_all path)
    present ← ask (fs.exists path)
    stop_if present (codes "workspace remained after removal")

  unfoldable pub cleanup_workspace : fs.FilePath → Io fs.World Text (Unit {0})
  unfolding remove_workspace
  cleanup_workspace path w =
      let (present, w') = fs.exists path w in
      if not present then (ok tt, w') else remove_workspace path w'

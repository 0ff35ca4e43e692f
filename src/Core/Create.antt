-- ===== src/Core/Create.antt =====
-- core/create.rs: `create_database`. The events of the test support, which a release does not have,
-- are left out.
use sqlite_mcp.Prelude.{ℕ, Bool, false, not, ◌&&◌, ◌||◌, ◌++◌, ◌==◌, if◌then◌else◌, Result, ok, err}
use sqlite_mcp.Prelude.Text.{Text, codes}
use sqlite_mcp.Sqlite.{SqliteError}
use sqlite_mcp.Core.Error.{CoreError}
use sqlite_mcp.Worker.Error.{decimal}
use sqlite_mcp.Disk.{FileSystem, Metadata, IoError, Io, ◌>>=◌, ◌>>◌, pure, stop_if, map_err}
use sqlite_mcp.Paths.{create_target}

-- What SQLite does with the new file: `open_with_flags` for reading and writing, without leave to
-- create it, the two pragmas of the initialisation, `PRAGMA journal_mode`, and the close.
pub record NewDatabase (fs : FileSystem) : Type 1 where
  pub Conn : Type 0
  pub open_read_write : fs.FilePath → Io fs.World SqliteError Conn
  pub initialise : Conn → Io fs.World SqliteError (Unit {0})
  pub journal_mode : Conn → Io fs.World SqliteError Text
  pub close : Conn → fs.World → fs.World

-- Device and inode.
abbrev pub Identity : Type 0
Identity = ℕ × ℕ

abbrev pub identity_of : Metadata → Identity
identity_of m = (m.dev, m.ino)

abbrev pub is_identity : Result Metadata IoError → Identity → Bool
is_identity (err e) retained = false
is_identity (ok m) retained = m.dev == retained.0 && m.ino == retained.1

-- `dev={}, ino={}`.
abbrev pub dev_ino : Identity → Text
dev_ino i = codes "dev=" ++ (decimal i.0 ++ (codes ", ino=" ++ decimal i.1))

abbrev pub target_report : Result Metadata IoError → Text
target_report (ok m) = codes "target identity is " ++ dev_ino (identity_of m)
target_report (err e) = codes "target identity unavailable (" ++ (e.text ++ codes ")")

abbrev pub io_error : IoError → CoreError
io_error e = CoreError.io e.text

module _ (fs : FileSystem) where
  abbrev pub creation_identity_error : fs.FilePath → Identity → Result Metadata IoError → CoreError
  creation_identity_error target retained target_identity = CoreError.io (
      codes "created database identity changed at "
      ++ (fs.lossy target
          ++ (codes ": retained original "
              ++ (dev_ino retained ++ (codes "; " ++ target_report target_identity)))))

  -- Both identities are asked for before either is compared.
  unfoldable pub check_creation_identity :
      fs.FilePath → fs.File → Identity → Io fs.World CoreError (Unit {0})
  check_creation_identity target descriptor retained w =
      let (descriptor_identity, w1) = fs.file_metadata descriptor w in
      let (target_identity, w2) = fs.metadata target w1 in
      if not (is_identity descriptor_identity retained)
        || not (is_identity target_identity retained)
      then (err (creation_identity_error target retained target_identity), w2)
      else (ok tt, w2)

  module _ (sqlite : NewDatabase fs) where
    -- The connection is closed also where a step fails.
    abbrev pub closing_after :
        {A : Type 0} → sqlite.Conn → Io fs.World CoreError A → Io fs.World CoreError A
    closing_after c steps w = ((steps w).0, sqlite.close c (steps w).1)

    -- The steps on the open connection.
    unfoldable pub initialise_open :
        fs.FilePath → fs.File → Identity → sqlite.Conn → Io fs.World CoreError Text
    initialise_open target f retained c = do
      check_creation_identity target f retained
      map_err CoreError.sqlite (sqlite.initialise c)
      map_err CoreError.sqlite (sqlite.journal_mode c)

    -- The steps behind the exclusive creation.
    unfoldable pub initialise_created :
        fs.FilePath → fs.File → Identity → Io fs.World CoreError (Text × Text)
    initialise_created target f retained = do
      check_creation_identity target f retained
      c ← map_err CoreError.sqlite (sqlite.open_read_write target)
      mode ← closing_after c (initialise_open target f retained c)
      check_creation_identity target f retained
      pure (fs.lossy target, mode)

    -- `create_database_with_ct`; the flag says that the token is cancelled.
    unfoldable pub create_database : Text → Bool → Io fs.World CoreError (Text × Text)
    create_database path cancelled = do
      stop_if cancelled (CoreError.cancelled false false)
      places ← map_err CoreError.path (create_target fs path)
      f ← map_err io_error (fs.create_new places.0)
      metadata ← map_err io_error (fs.file_metadata f)
      initialise_created places.0 f (identity_of metadata)

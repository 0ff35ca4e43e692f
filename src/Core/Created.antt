-- ===== src/Core/Created.antt =====
-- core/create.rs: what a database that has been created satisfies.
use sqlite_mcp.Paths.Literal.{IsLiteral, create_target-IsLiteral}
use sqlite_mcp.Prelude.Text.{Text}
use sqlite_mcp.Core.Error.{CoreError}
use sqlite_mcp.Core.Create.{
  Identity, check_creation_identity, NewDatabase, identity_of, initialise_created, create_database,
  is_identity, initialise_open,
}
use sqlite_mcp.Disk.{
  FileSystem, Metadata, IoError, bind-eq-ok, stop-eq-ok, map_err-eq-ok, pure-eq-ok,
}
use sqlite_mcp.Prelude.{
  ◌≡◌, refl, Bool, true, false, not, ◌||◌, arith, if◌then◌else◌, Result, ok, err, same,
}

module _ (fs : FileSystem) where
  -- Both questions that a check asks are answered by this identity.
  abbrev pub Holds : fs.FilePath → fs.File → Identity → fs.World → fs.World → Type 0
  Holds target f i w w' =
      (a b : Metadata) × (w1 : fs.World) × (fs.file_metadata f w ≡ (ok a, w1))
      × (fs.metadata target w1 ≡ (ok b, w'))
      × (identity_of a ≡ i)
      × (identity_of b ≡ i)

  is_identity_lem :
      (a : Result Metadata IoError) (i : Identity)
      → is_identity a i ≡ true
      → (m : Metadata) × (a ≡ ok m) × (identity_of m ≡ i)
  is_identity_lem (err e) i h = absurd (cc h)
  is_identity_lem (ok m) i h = (m, refl, ground arith)

  both_answers :
      (a b : Bool) (e : CoreError) {w w' : fs.World}
      → ◌≡◌ {A = Result (Unit {0}) CoreError × fs.World}
          (if not a || not b then (err e, w) else (ok tt, w))
          (ok tt, w')
      → (a ≡ true) × (b ≡ true) × (w ≡ w')
  both_answers a b e h = ground arith

  check_creation_identity-Holds :
      (target : fs.FilePath) (f : fs.File) (i : Identity) (w w' : fs.World)
      → check_creation_identity fs target f i w ≡ (ok tt, w')
      → Holds target f i w w'
  unfolding check_creation_identity
  check_creation_identity-Holds target f i w w' h =
      let (p, q, last) = both_answers _ _ _ h in
      let (a, answer, same) = is_identity_lem _ i p in
      let (b, answer', same') = is_identity_lem _ i q in
      (a, b, (fs.file_metadata f w).1, ground arith, ground arith, same, same')

  first_eq :
      {A : Type 0} (r : Result A CoreError × fs.World) {a : A} {w w' : fs.World}
      → ◌≡◌ {A = Result A CoreError × fs.World} (r.0, w) (ok a, w')
      → r ≡ (ok a, r.1)
  first_eq r h = ground arith

  module _ (sqlite : NewDatabase fs) where
    -- The identity holds before the file is opened, before it is initialised, and at the end.
    abbrev pub HoldsThroughout : fs.FilePath → fs.File → Identity → fs.World → fs.World → Type 0
    HoldsThroughout target f i w w' =
        (c : sqlite.Conn) × (w1 w2 w3 w4 : fs.World) × Holds target f i w w1
        × (sqlite.open_read_write target w1 ≡ (ok c, w2))
        × Holds target f i w2 w3
        × Holds target f i w4 w'

    initialise_created_ok :
        (target : fs.FilePath) (f : fs.File) (i : Identity) (w w' : fs.World) (name mode : Text)
        → initialise_created fs sqlite target f i w ≡ (ok (name, mode), w')
        → HoldsThroughout target f i w w' × (name ≡ fs.lossy target)
    unfolding initialise_created initialise_open
    initialise_created_ok target f i w w' name mode h =
        let (_, w1, e1, h1) = bind-eq-ok _ _ h in
        let (c, w2, e2, h2) = bind-eq-ok _ _ h1 in
        let (m, w3, e3, h3) = bind-eq-ok _ _ h2 in
        let (_, w4, e4, h4) = bind-eq-ok _ _ h3 in
        let (_, w5, e5, h5) = bind-eq-ok _ _ (first_eq _ e3) in
        (
          (
            c,
            w1,
            w2,
            w5,
            w3,
            check_creation_identity-Holds target f i w w1 e1,
            map_err-eq-ok _ _ e2,
            check_creation_identity-Holds target f i w2 w5 e5,
            check_creation_identity-Holds target f i w3 w' (ground (arith, e4, pure-eq-ok h4)),
          ),
          ground (arith, pure-eq-ok h4),
        )

    -- Whoever creates a database gets a file that the exclusive creation has just made, at the
    -- target of an absolute path, and the identity of that file is the identity of the path and of
    -- the descriptor when SQLite opens it, when SQLite initialises it and at the end.
    pub create_database_success :
        (path : Text) (cancelled : Bool) (w w' : fs.World) (name mode : Text)
        → create_database fs sqlite path cancelled w ≡ (ok (name, mode), w')
        → (target : fs.FilePath) × (f : fs.File) × (m : Metadata) × (w1 w2 w3 : fs.World)
          × (cancelled ≡ false)
          × IsLiteral fs path
          × (fs.create_new target w1 ≡ (ok f, w2))
          × (fs.file_metadata f w2 ≡ (ok m, w3))
          × HoldsThroughout target f (identity_of m) w3 w'
          × (name ≡ fs.lossy target)
    unfolding create_database
    create_database_success path cancelled w w' name mode h =
        let (_, w1, e1, h1) = bind-eq-ok _ _ h in
        let (places, w2, e2, h2) = bind-eq-ok _ _ h1 in
        let (f, w3, e3, h3) = bind-eq-ok _ _ h2 in
        let (m, w4, e4, h4) = bind-eq-ok _ _ h3 in
        let (through, named) =
          initialise_created_ok places.0 f (identity_of m) w4 w' name mode h4 in
        (
          places.0,
          f,
          m,
          w2,
          w3,
          w4,
          (stop-eq-ok _ _ e1).0,
          (create_target-IsLiteral fs path w1 (map_err-eq-ok _ _ e2)).0,
          map_err-eq-ok _ _ e3,
          map_err-eq-ok _ _ e4,
          through,
          named,
        )

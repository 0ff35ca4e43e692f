-- ===== src/Core/CreateTests.antt =====
-- The theorem on the creation of a database at concrete inputs.
use sqlite_mcp.Policy.Stored.{drop}
use sqlite_mcp.Policy.Tail.{take}
use sqlite_mcp.Core.Created.{HoldsThroughout, create_database_success}
use sqlite_mcp.Paths.Literal.{IsLiteral}
use sqlite_mcp.Disk.{Metadata, bind}
use sqlite_mcp.Paths.{create_target}
use sqlite_mcp.Prelude.Text.{Text, codes}
use sqlite_mcp.Disk.Sample.{memory, Files, create_in, metadata_in, find}
use sqlite_mcp.Core.Create.{
  NewDatabase, create_database, check_creation_identity, initialise_created, initialise_open,
  identity_of,
}
use sqlite_mcp.Prelude.{◌≡◌, refl, Bool, false, [], ◌∷◌, ok}

abbrev fresh_database : NewDatabase memory
fresh_database = record {
  Conn = Text;
  open_read_write = λ p w. (ok p, w);
  initialise = λ p w. (ok tt, w);
  journal_mode = λ p w. (ok (codes "wal"), w);
  close = λ p w. w;
}

creates :
    create_database memory fresh_database (codes "/d/new.db") false []
    ≡ (ok (codes "/d/new.db", codes "wal"), (codes "/d/new.db", [], false) ∷ [])
unfolding create_database create_target check_creation_identity initialise_created initialise_open
    bind create_in metadata_in find take drop
creates = refl

create_database_success_example :
    (target f : Text) × (m : Metadata) × (w1 w2 w3 : Files) × (◌≡◌ {A = Bool} false false)
    × IsLiteral memory (codes "/d/new.db")
    × (create_in target w1 ≡ (ok f, w2))
    × (metadata_in f w2 ≡ (ok m, w3))
    × HoldsThroughout memory fresh_database target f
        (identity_of m)
        w3
        ((codes "/d/new.db", [], false) ∷ [])
    × (codes "/d/new.db" ≡ target)
create_database_success_example =
    create_database_success memory fresh_database (codes "/d/new.db") false []
      ((codes "/d/new.db", [], false) ∷ []) (codes "/d/new.db") (codes "wal") creates

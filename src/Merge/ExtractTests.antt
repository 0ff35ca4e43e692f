-- ===== src/Merge/ExtractTests.antt =====
-- The theorems on the snapshots of an extraction at concrete inputs.
use sqlite_mcp.Worker.Error.{decimal}
use sqlite_mcp.Merge.Extraction.{no_files, no_counts}
use sqlite_mcp.Merge.Steady.{IsSteady, snapshot_source-IsSteady}
use sqlite_mcp.Merge.Manifest.{settle_manifest}
use sqlite_mcp.Merge.Settled.{StatesSize, settle_manifest_stated}
use sqlite_mcp.Merge.Split.{MergeError}
use sqlite_mcp.Merge.Observe.{source_observation, SourceObservation, absent}
use sqlite_mcp.Disk.{bind}
use sqlite_mcp.Prelude.Text.{Text, codes}
use sqlite_mcp.Merge.Sample.{empty_tables, plain_encodings, no_types, letters, one_table, one_index}
use sqlite_mcp.Disk.Sample.{memory, Files, find, read_in, remove_all, metadata_in}
use sqlite_mcp.Core.Query.Sample.{simple, ascii}
use sqlite_mcp.Merge.Snapshot.{base, SnapshotSqlite, Extracting, snapshot_source, read_source}
use sqlite_mcp.Prelude.{
  ℕ, ◌≡◌, refl, Bool, true, false, some, List, [], ◌∷◌, ◌++◌, arith, Result, ok, length,
}

abbrev snapshots : SnapshotSqlite memory simple
snapshots = record {
  reads = empty_tables;
  open_read_only = λ p w. (ok tt, w);
  begin_deferred = λ c w. (ok tt, w);
  rollback = λ c w. (ok tt, w);
}

abbrev extracting : Extracting memory plain_encodings simple no_types ascii snapshots
extracting = record {
  world = (codes "/d/a.db", codes "SQLite format 3", false) ∷ [];
  observations = [];
  files = no_files;
  counts = no_counts;
}

abbrev base_text : Text
base_text =
    codes
      "-- sqlite-mcp merge-format: 1\n-- sqlite-mcp schema-baseline: v1 count=2\n-- sqlite-mcp schema-hash: v1 kind=table name_b64=HE sql_sha256=d sql_bytes="
    ++ (letters one_table.sql
        ++ (codes "\n-- sqlite-mcp schema-hash: v1 kind=index name_b64=GJ sql_sha256=d sql_bytes="
            ++ (letters one_index.sql
                ++ codes
                    "\n-- sqlite-mcp schema-baseline-end: v1\ncreate table t (a);\ncreate index i on t (a);\n")))

abbrev observation : Text → SourceObservation
observation phase = record {
  label = codes "base";
  phase = phase;
  main = record {
    kind = codes "main";
    path = codes "/d/a.db";
    present = true;
    device_inode = some (1, 7);
    size_bytes = some 15;
    mtime_ns = some 7;
    sha256_hex = some (codes "d");
  };
  rollback_journal =
      absent memory plain_encodings (codes "rollback_journal") (codes "/d/a.db-journal");
  wal = absent memory plain_encodings (codes "wal") (codes "/d/a.db-wal");
  shm = absent memory plain_encodings (codes "shm") (codes "/d/a.db-shm");
}

abbrev reached : Extracting memory plain_encodings simple no_types ascii snapshots
reached = record {
  world = (codes "/d/a.db", codes "SQLite format 3", true) ∷ [];
  observations = observation (codes "before") ∷ observation (codes "after") ∷ [];
  files = no_files;
  counts = no_counts;
}

snapshot_trial :
    snapshot_source memory plain_encodings simple no_types ascii snapshots 1000 10 1000 base
      (codes "/d/a.db")
      false
      extracting
    ≡ (ok base_text, reached)
unfolding snapshot_source bind find read_in remove_all metadata_in
snapshot_trial = refl

snapshot_source-IsSteady_example :
    (◌≡◌ {A = Bool} false false)
    × ((before after : SourceObservation) × (w w' : Files) × (source_observation memory
            plain_encodings
            (codes "base")
            (codes "before")
            (codes "/d/a.db")
            1000
            extracting.world
          ≡ (ok before, w))
        × (read_source memory plain_encodings simple no_types ascii snapshots 1000 10 1000 base
              (codes "/d/a.db")
              w
            ≡ (ok base_text, w'))
        × (source_observation memory plain_encodings
              (codes "base")
              (codes "after")
              (codes "/d/a.db")
              1000
              w'
            ≡ (ok after, reached.world))
        × IsSteady memory plain_encodings simple no_types ascii snapshots 1000 10 1000 before after
        × (◌≡◌ {A = List SourceObservation} reached.observations
            (([] ++ (before ∷ [])) ++ (after ∷ []))))
snapshot_source-IsSteady_example =
    snapshot_source-IsSteady memory plain_encodings simple no_types ascii snapshots 1000 10 1000
      base (codes "/d/a.db") false extracting reached base_text snapshot_trial

-- A manifest of three letters and its size.
abbrev tiny_manifest : ℕ → Result (List ℕ) MergeError
tiny_manifest n = ok (codes "abc" ++ decimal n)

tiny_size : StatesSize 3 tiny_manifest
tiny_size n h = (codes "abc" ++ decimal n, refl, omega arith)

settle_manifest_stated_example :
    (bytes : List ℕ) × (settle_manifest tiny_manifest 0 ≡ ok bytes)
    × (tiny_manifest (length bytes) ≡ ok bytes)
settle_manifest_stated_example = settle_manifest_stated 3 tiny_manifest tiny_size (omega arith)

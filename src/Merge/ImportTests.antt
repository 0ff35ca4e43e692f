-- ===== src/Merge/ImportTests.antt =====
-- The theorems on extraction and import at concrete inputs.
use sqlite_mcp.Merge.Trip.{parse_baseline-extract}
use sqlite_mcp.Merge.Success.{import-success}
use sqlite_mcp.Merge.Counts.{extract_schema_count}
use sqlite_mcp.Merge.Reading.{read_text_bound}
use sqlite_mcp.Merge.Imported.{IsReplayed}
use sqlite_mcp.Worker.State.{Session}
use sqlite_mcp.Merge.Check.{check_merge_text, open_replay_database}
use sqlite_mcp.Merge.Baseline.{parse_baseline}
use sqlite_mcp.Sql.{has_nul}
use sqlite_mcp.Merge.Paths.{read_text, is_not_literal}
use sqlite_mcp.Merge.Cleanup.{IsRemoval, IsUncertain, finish_import-failure, capture_error_removed}
use sqlite_mcp.Merge.Split.{MergeError, validation_failed, format_header}
use sqlite_mcp.Merge.Replay.{Importing, check_database, replay_statements, replay}
use sqlite_mcp.Merge.Owner.{ExclusiveOutputOwner, capture}
use sqlite_mcp.Disk.{bind, FileSystem}
use sqlite_mcp.Merge.Sample.{
  plain_encodings, importing, no_types, empty_tables, letters, one_table, one_index, plain_lossless,
  importing_on,
}
use sqlite_mcp.Merge.Extract.{extract_one, limit_error, extract_schema, baseline_text}
use sqlite_mcp.Merge.Outcome.{import, Prepared, finish_import}
use sqlite_mcp.Merge.Import.{
  Imported, ImportResult, committed, success, ImportError, removed, failed, failure,
}
use sqlite_mcp.Prelude.Text.{Text, codes}
use sqlite_mcp.Disk.Sample.{
  memory, Files, find, read_in, create_in, write_in, metadata_in, remove_all, not_found,
}
use sqlite_mcp.Core.Query.Sample.{simple, ascii, ledger, counting_statements, open_session}
use sqlite_mcp.Prelude.{
  ℕ, ◌≤◌, ◌≡◌, refl, ◌⊎◌, true, false, none, some, List, [], ◌∷◌, ◌++◌, arith, ok, err, length, ◌+◌,
}

-- The text of an extraction of one table.
abbrev merge_text : Text
merge_text =
    codes
      "-- sqlite-mcp merge-format: 1\n-- sqlite-mcp schema-baseline: v1 count=1\n-- sqlite-mcp schema-hash: v1 kind=table name_b64=HE sql_sha256=d sql_bytes="
    ++ (letters one_table.sql
        ++ codes "\n-- sqlite-mcp schema-baseline-end: v1\ncreate table t (a);\n")

abbrev source_files : Files
source_files = (codes "/d/in.sql", merge_text, false) ∷ []

abbrev import_trial : Imported memory × Files
import_trial =
    import memory ledger simple ascii counting_statements plain_encodings importing
      (codes "/d/in.sql") (codes "/d/out.db") 1000 10 100 (λ n. false) source_files

abbrev imported : ImportResult
imported = record {
  output_path = codes "/d/out.db";
  output_state = committed;
  statement_count = 1;
  byte_count = 245;
  journal_mode = codes "delete";
  object_count = 1;
  table_count = 1;
}

abbrev final_files : Files
final_files =
    (codes "/d/out.db", 1 ∷ 2 ∷ 3 ∷ [], false) ∷ (codes "/d/in.sql", merge_text, true) ∷ []

trial : import_trial ≡ (success imported, final_files)
unfolding import bind find read_in create_in write_in metadata_in
trial = refl

limit_trial :
    extract_one plain_encodings simple no_types ascii empty_tables (codes "base") 2 tt
    ≡ err limit_error
unfolding extract_one
limit_trial = refl

import-success_example :
    (p : Prepared memory) × (w : Files) × (check_merge_text ascii plain_encodings p.text 10
      ≡ ok (p.baseline, p.statements))
    × (length p.statements ≤ 10)
    × ((s : Session ledger) × (open_replay_database ledger memory importing ≡ ok s)
        × IsReplayed ledger simple memory ascii counting_statements plain_encodings importing p 100
            imported s w final_files)
import-success_example =
    import-success memory ledger simple ascii counting_statements plain_encodings importing
      (codes "/d/in.sql") (codes "/d/out.db") 1000 10 100 (λ n. false) source_files final_files
      imported trial

-- A merge text that was read, and the state in which its replay has stopped.
abbrev prepared : Prepared memory
prepared = record {
  text = [];
  bytes = 0;
  output = codes "/d/out.db";
  baseline = [];
  statements = [];
}

abbrev owner : ExclusiveOutputOwner memory
owner = record { path = codes "/d/out.db"; owned = (1, 9) }

abbrev stopped : Importing ledger simple memory ascii counting_statements plain_encodings importing
stopped = record {
  session = open_session;
  world = (codes "/d/out.db", [], false) ∷ [];
  statement_count = 4;
  output_owner = some owner;
}

abbrev refused_output : MergeError
refused_output = record { class = validation_failed; message = codes "no" }

abbrev report : ImportError memory
report = record {
  error = refused_output;
  output = some (codes "/d/out.db");
  state = removed;
  statements = 4;
  bytes = 0;
  cleanup_errors = [];
  root_class = none;
}

cleans :
    finish_import memory ledger simple ascii counting_statements plain_encodings importing prepared
      (err (failed refused_output), stopped)
    ≡ (failure report, [])
unfolding finish_import bind metadata_in find remove_all
cleans = refl

finish_import-failure_example :
    (◌≡◌ {A = ℕ} 4 4)
    × (IsRemoval memory ledger simple ascii counting_statements plain_encodings importing
          refused_output stopped report []
        ⊎ IsUncertain memory ledger simple ascii counting_statements plain_encodings importing
            refused_output stopped report [])
finish_import-failure_example =
    finish_import-failure memory ledger simple ascii counting_statements plain_encodings importing
      prepared refused_output stopped report [] cleans

to_read :
    read_text memory plain_encodings (codes "/d/in.sql") 1000 source_files
    ≡ (ok (codes "/d/in.sql", merge_text, 245), (codes "/d/in.sql", merge_text, true) ∷ [])
unfolding read_text bind find read_in remove_all
to_read = refl

read_text_bound_example :
    (bytes : List ℕ) × (plain_encodings.from_utf8 bytes ≡ some merge_text)
    × (245 ≡ length bytes)
    × (length bytes ≤ 1000)
    × (has_nul bytes ≡ false)
    × (is_not_literal memory (codes "/d/in.sql") ≡ false)
read_text_bound_example =
    read_text_bound memory plain_encodings (codes "/d/in.sql") 1000 source_files
      ((codes "/d/in.sql", merge_text, true) ∷ []) (codes "/d/in.sql") merge_text 245 to_read

parse_baseline-extract_example :
    parse_baseline plain_encodings
      (format_header
        ++ (baseline_text plain_encodings (one_table ∷ one_index ∷ []) ++ codes "create"))
      (length format_header)
    ≡ ok (
      (codes "i", codes "create index i on t (a);") ∷ (codes "t", codes "create table t (a);") ∷ [],
      length (format_header ++ baseline_text plain_encodings (one_table ∷ one_index ∷ [])),
    )
parse_baseline-extract_example =
    parse_baseline-extract plain_encodings plain_lossless (one_table ∷ one_index ∷ [])
      (codes "create") (omega arith)

abbrev schema_text : Text
schema_text =
    format_header
    ++ (baseline_text plain_encodings (one_table ∷ one_index ∷ [])
        ++ codes "create table t (a);\ncreate index i on t (a);\n")

counts_three :
    extract_schema plain_encodings simple no_types ascii empty_tables
      (codes "base")
      3
      tt
      (one_table ∷ one_index ∷ [])
    ≡ ok (schema_text, 3)
unfolding extract_schema
counts_three = refl

extract_schema_count_example : (2 + 1 ≤ 3) × (◌≡◌ {A = ℕ} 1 0 ⊎ (3 ≤ 3))
extract_schema_count_example =
    extract_schema_count plain_encodings simple no_types ascii empty_tables (codes "base") 3 tt
      (one_table ∷ one_index ∷ []) schema_text 3 counts_three

-- A file system that cannot tell the identity of an open file.
abbrev blind : FileSystem
blind = record memory { file_metadata = λ p w. (err not_found, w) }

abbrev blind_text : Prepared blind
blind_text = record {
  text = [];
  bytes = 0;
  output = codes "/d/out.db";
  baseline = [];
  statements = [];
}

abbrev before_output :
    Importing ledger simple blind ascii counting_statements plain_encodings (importing_on blind)
before_output = record {
  session = open_session;
  world = [];
  statement_count = 0;
  output_owner = none;
}

checked_blind :
    check_database ledger simple blind ascii counting_statements plain_encodings
      (importing_on blind)
      100
      before_output
    ≡ (ok (1 ∷ 2 ∷ 3 ∷ []), before_output)
unfolding check_database bind
checked_blind = refl

no_statements :
    replay_statements ledger simple blind ascii counting_statements plain_encodings
      (importing_on blind)
      []
      []
      (λ n. false)
      0
      []
      before_output
    ≡ (ok tt, before_output)
unfolding replay_statements
no_statements = refl

created_blind :
    create_in (codes "/d/out.db") [] ≡ (ok (codes "/d/out.db"), (codes "/d/out.db", [], false) ∷ [])
unfolding create_in find
created_blind = refl

lost_blind :
    capture blind (codes "/d/out.db") (codes "/d/out.db") ((codes "/d/out.db", [], false) ∷ [])
    ≡ (err (codes "not found"), (codes "/d/out.db", [], false) ∷ [])
unfolding capture bind
lost_blind = refl

capture_error_removed_example :
    (y : ImportError blind) × (finish_import blind ledger simple ascii counting_statements
        plain_encodings
        (importing_on blind)
        blind_text
        (replay ledger simple blind ascii counting_statements plain_encodings
          (importing_on blind)
          []
          []
          (λ n. false)
          []
          100
          (codes "/d/out.db")
          0
          before_output)
      ≡ (failure y, (codes "/d/out.db", [], false) ∷ []))
    × (y.state ≡ removed)
    × (y.error.message ≡ codes "not found")
capture_error_removed_example =
    capture_error_removed blind ledger simple ascii counting_statements plain_encodings
      (importing_on blind) blind_text (λ n. false) 100 open_session [] before_output before_output
      (1 ∷ 2 ∷ 3 ∷ []) (codes "/d/out.db") ((codes "/d/out.db", [], false) ∷ [])
      ((codes "/d/out.db", [], false) ∷ []) (codes "not found") no_statements checked_blind refl
      created_blind lost_blind

-- ===== src/Merge/Sample.antt =====
-- For tests: encodings by letters, a database that accepts an import, and one that is extracted.
use sqlite_mcp.Disk.{FileSystem}
use sqlite_mcp.Merge.Extract.{TypedFormats}
use sqlite_mcp.Merge.Schema.{SchemaRow, ExtractSqlite, table, index}
use sqlite_mcp.Merge.Lines.{Lacks, Lacks-test}
use sqlite_mcp.Prelude.Text.{Text, codes}
use sqlite_mcp.Disk.Sample.{memory}
use sqlite_mcp.Core.Query.Sample.{simple, ledger, open_session}
use sqlite_mcp.Merge.Baseline.{Encodings}
use sqlite_mcp.Merge.Import.{ImportSqlite}
use sqlite_mcp.Merge.Records.{IsLossless}
use sqlite_mcp.Prelude.{
  ℕ, ◌+◌, ◌-◌, ◌*◌, ◌<◌, ◌≡◌, refl, Option, none, some, List, [], ◌∷◌, arith, ok, ◌/◌, ◌%◌,
}

-- Two letters for each byte.
abbrev pub letters : List ℕ → Text
letters [] = []
letters (c ∷ bytes) = (b'A' + c / 16) ∷ (b'A' + c % 16) ∷ letters bytes

abbrev pub bytes_of : Text → Option (List ℕ)
bytes_of [] = some []
bytes_of (a ∷ []) = none
bytes_of (a ∷ b ∷ s) = elim (bytes_of s) [
  | none ↦ none
  | some bytes ↦ some (((a - b'A') * 16 + (b - b'A')) ∷ bytes)
]

abbrev pub plain_encodings : Encodings
plain_encodings = record {
  as_bytes = λ s. s;
  from_utf8 = λ bytes. some bytes;
  b64 = letters;
  from_b64 = bytes_of;
  schema_digest = λ bytes. codes "d";
  debug = λ s. s;
}

letters_back : (bytes : List ℕ) → bytes_of (letters bytes) ≡ some bytes
letters_back [] = refl
letters_back (c ∷ bytes) = rw (letters_back bytes) (ground arith)

letters-Lacks : (k : ℕ) (bytes : List ℕ) → k < b'A' → Lacks k (letters bytes)
letters-Lacks k [] h = tt
letters-Lacks k (c ∷ bytes) h = (ground arith, (ground arith, letters-Lacks k bytes h))

pub plain_lossless : IsLossless plain_encodings
plain_lossless = record {
  b64_back = letters_back;
  utf8_back = λ s. refl;
  b64_space = λ bytes. letters-Lacks b' ' bytes (omega arith);
  b64_newline = λ bytes. letters-Lacks b'\n' bytes (omega arith);
  digest_space = λ bytes. Lacks-test b' ' (codes "d") refl;
  digest_newline = λ bytes. Lacks-test b'\n' (codes "d") refl;
}

-- A database whose image has three bytes.
abbrev pub importing_on : (fs : FileSystem) → ImportSqlite ledger fs
importing_on fs = record {
  open_in_memory = ok open_session;
  install_authorizer = λ s. ok s;
  foreign_keys = λ b s. (ok tt, s);
  begin = λ s. (ok tt, s);
  commit = λ s. (ok tt, s);
  foreign_key_check = λ s. ok 0;
  integrity_check = λ s. ok (codes "ok");
  serialize = λ s. ok (1 ∷ 2 ∷ 3 ∷ []);
  Verify = Unit {0};
  open_read_only = λ p w. (ok tt, w);
  journal_mode = λ p w. (ok (codes "delete"), w);
  object_count = λ p w. (ok 1, w);
  table_count = λ p w. (ok 1, w);
}

abbrev pub importing : ImportSqlite ledger memory
importing = importing_on memory

abbrev pub one_table : SchemaRow
one_table = record { class = table; name = codes "t"; sql = codes "create table t (a);" }

abbrev pub one_index : SchemaRow
one_index = record { class = index; name = codes "i"; sql = codes "create index i on t (a);" }

-- A database with no rows.
abbrev pub empty_tables : ExtractSqlite simple
empty_tables = record {
  Conn = Unit {0};
  schema_rows = λ c. ok (
      ok (codes "index", codes "i", codes "create index i on t (a)")
      ∷ ok (codes "table", codes "t", codes "create table t (a)")
      ∷ []);
  table_list = λ c. ok (ok (codes "t", codes "table", 0) ∷ []);
  table_xinfo = λ c name. ok (ok (codes "a", codes "TEXT", 0, 0) ∷ []);
  select_rows = λ c sql. ok [];
}

abbrev pub no_types : TypedFormats simple
no_types = record { real_bits = λ r. []; values_json = λ values. [] }

-- ===== src/Disk/Sample.antt =====
-- A small file system for tests: the files with their bytes, each read once from its start to its
-- end, under the one directory `/d`.
use sqlite_mcp.Prelude.{
  ℕ, Bool, true, false, Option, none, some, List, [], ◌∷◌, ◌++◌, if◌then◌else◌, is_some, Result, ok,
  err, length,
}
use sqlite_mcp.Prelude.Text.{Text, codes, text_eq, starts_with}
use sqlite_mcp.Policy.Stored.{drop}
use sqlite_mcp.Policy.Tail.{take}
use sqlite_mcp.Disk.{FileSystem, IoError, Metadata}

-- The path, the bytes, and whether they are read.
abbrev pub Files : Type 0
Files = List (Text × List ℕ × Bool)

unfoldable pub find : Text → Files → Option (List ℕ × Bool)
unfolding text_eq
find p [] = none
find p ((path, bytes, is_read) ∷ files) =
    let rest = find p files in if text_eq path p then some (bytes, is_read) else rest

unfoldable pub remove_all : Text → Files → Files
unfolding text_eq
remove_all p [] = []
remove_all p ((path, bytes, is_read) ∷ files) =
    let rest = remove_all p files in if text_eq path p then rest else (path, bytes, is_read) ∷ rest

abbrev pub not_found : IoError
not_found = record { is_not_found = true; is_already_exists = false; text = codes "not found" }

abbrev pub already_exists : IoError
already_exists = record { is_not_found = false; is_already_exists = true; text = codes "exists" }

abbrev pub file_of : ℕ → List ℕ → Metadata
file_of ino bytes = record {
  is_file = true;
  dev = 1;
  ino = ino;
  len = length bytes;
  mtime_ns = some 7;
  mode = 384;
}

-- The number of a file is the length of its path.
unfoldable pub metadata_in : Text → Files → Result Metadata IoError × Files
unfolding find
metadata_in p w = elim (find p w) [
  | none ↦ (err not_found, w)
  | some (bytes, is_read) ↦ (ok (file_of (length p) bytes), w)
]

unfoldable pub create_in : Text → Files → Result Text IoError × Files
unfolding find
create_in p w = if is_some (find p w) then (err already_exists, w) else (ok p, (p, [], false) ∷ w)

unfoldable pub write_in : Text → List ℕ → Files → Result (Unit {0}) IoError × Files
unfolding remove_all
write_in p bytes w = (ok tt, (p, bytes, false) ∷ remove_all p w)

unfoldable pub read_in : Text → Files → Result (List ℕ) IoError × Files
unfolding find remove_all
read_in p w = elim (find p w) [
  | none ↦ (err not_found, w)
  | some (bytes, true) ↦ (ok [], w)
  | some (bytes, false) ↦ (ok bytes, (p, bytes, true) ∷ remove_all p w)
]

abbrev pub memory : FileSystem
memory = record {
  World = Files;
  File = Text;
  FilePath = Text;
  path_from = λ p. p;
  path_eq = text_eq;
  to_str = λ p. some p;
  lossy = λ p. p;
  is_absolute = λ p. starts_with p (codes "/");
  parent = λ p. some (take 2 p);
  file_name = λ p. some (drop 3 p);
  join = λ p name. p ++ (codes "/" ++ name);
  with_file_name = λ p name. take 3 p ++ name;
  exists = λ p w. (is_some (find p w), w);
  is_dir = λ p w. (text_eq p (codes "/d"), w);
  is_file = λ p w. (is_some (find p w), w);
  canonicalize = λ p w. (ok p, w);
  metadata = metadata_in;
  file_metadata = metadata_in;
  open_read = λ p w. (ok p, w);
  create_new = create_in;
  write_all = write_in;
  sync_all = λ p w. (ok tt, w);
  read = read_in;
  read_file = read_in;
  read_exact = λ n p w. (ok (codes "SQLite format 3" ++ (0 ∷ [])), w);
  remove_file = λ p w. (ok tt, remove_all p w);
  create_dir = λ mode p w. (ok tt, w);
  remove_dir = λ p w. (ok tt, w);
  remove_dir_all = λ p w. (ok tt, w);
}

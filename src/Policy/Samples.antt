-- ===== src/Policy/Samples.antt =====
-- The guard against stored bodies at concrete inputs.
use sqlite_mcp.Policy.Pragma.{plain}
use sqlite_mcp.Prelude.{◌≡◌, refl, true, false, ◌∷◌, ◌++◌, List, []}
use sqlite_mcp.Prelude.Text.{Text, codes, to_ascii_lowercase}
use sqlite_mcp.Policy.Cursor.{Unicode, is_identifier, skip_trivia}
use sqlite_mcp.Policy.Stored.{
  accepted, denied, closing, is_initial, contains_pragma_table_valued_call, check_stored_body,
}
use sqlite_mcp.Policy.Signal.{new}
use sqlite_mcp.Policy.Found.{scan_finds_call}
use sqlite_mcp.Policy.Pieces.{Piece, word, mark, quoted, are_pieces, spell}
use sqlite_mcp.Policy.Bodies.{IsDecision, check_stored_body-decides}

-- Tables with no letters and no spaces beyond ASCII.
abbrev plain_tables : Unicode
plain_tables = record {
  alphanumeric = λ c. false;
  whitespace = λ c. false;
  alphabetic = λ c. false;
}

abbrev viewed : Text
viewed =
    codes
      "CREATE TEMP VIEW IF NOT EXISTS \"a-pragma_x\" (c) AS SELECT * FROM Pragma_table_info /**/ ('t')"

stored_call : (check_stored_body plain_tables viewed new).0 ≡ denied
unfolding check_stored_body to_ascii_lowercase closing is_initial
stored_call = refl

stored_name :
    (check_stored_body plain_tables (codes "CREATE VIEW pragma_v AS SELECT 'pragma_x(1)'") new).0
    ≡ accepted
unfolding check_stored_body to_ascii_lowercase closing is_initial
stored_name = refl

-- `SELECT 'a' FROM "t", `.
abbrev selected : List Piece
selected =
    word 83 (codes "ELECT")
    ∷ mark 32
    ∷ quoted 39 (codes "a")
    ∷ mark 32
    ∷ word 70 (codes "ROM")
    ∷ mark 32
    ∷ quoted 34 (codes "t")
    ∷ mark 44
    ∷ mark 32
    ∷ []

selected-pieces :
    are_pieces plain_tables selected (80 ∷ (codes "ragma_Table_info" ++ codes " /* */ ('t')"))
    ≡ true
unfolding are_pieces
selected-pieces = refl

opens : skip_trivia plain_tables plain (codes " /* */ ('t')") ≡ 40 ∷ codes "'t')"
unfolding skip_trivia
opens = refl

scan_finds_call_example :
    contains_pragma_table_valued_call plain_tables
      (spell selected (80 ∷ (codes "ragma_Table_info" ++ codes " /* */ ('t')")))
    ≡ true
unfolding is_identifier to_ascii_lowercase
scan_finds_call_example =
    scan_finds_call plain_tables selected 80 (codes "ragma_Table_info") (codes " /* */ ('t')")
      (codes "table_info") (codes "'t')") selected-pieces refl refl refl opens

check_stored_body-decides_example :
    IsDecision plain_tables new (check_stored_body plain_tables viewed new)
check_stored_body-decides_example = check_stored_body-decides plain_tables viewed new refl

-- ===== src/Merge/Tests.antt =====
-- The theorems on merge texts at concrete inputs.
use sqlite_mcp.Merge.Statement.{insert}
use sqlite_mcp.Merge.Guard.{execute_one_success}
use sqlite_mcp.Policy.Tail.{prepare_exact}
use sqlite_mcp.Merge.Quoting.{quoted_passes}
use sqlite_mcp.Merge.Literal.{quoted}
use sqlite_mcp.Merge.Statement.{execute_one, statement_kind, done, create}
use sqlite_mcp.Core.Query.Sample.{ascii, ledger, counting_statements, open_session, simple}
use sqlite_mcp.Merge.Ranges.{IsPartition, split_statements-IsPartition}
use sqlite_mcp.Prelude.Text.{Text, codes}
use sqlite_mcp.Merge.Split.{plain, split_from, split_statements}
use sqlite_mcp.Policy.Signal.{new}
use sqlite_mcp.Policy.Stored.{check_stored_body, accepted}
use sqlite_mcp.Prelude.{◌+◌, ◌≡◌, refl, ◌⊎◌, true, none, [], ◌∷◌, ◌++◌, ok, is_ok, length}

abbrev two_statements : Text
two_statements = codes "INSERT INTO t VALUES (';''--'); --;\n ;"

splits : split_statements ascii two_statements 0 ≡ ok ((0, 31) ∷ (31, 38) ∷ [])
unfolding split_statements
splits = refl

split_statements-IsPartition_example : IsPartition ascii two_statements 0 ((0, 31) ∷ (31, 38) ∷ [])
split_statements-IsPartition_example =
    split_statements-IsPartition ascii two_statements 0 ((0, 31) ∷ (31, 38) ∷ []) splits

quoted_passes_example :
    split_from ascii (codes "'a'';b';") plain 0 0 (quoted b'\'' (codes "a';b") ++ (b';' ∷ []))
    ≡ split_from ascii (codes "'a'';b';") plain 0 7 (b';' ∷ [])
unfolding quoted
quoted_passes_example =
    quoted_passes ascii (codes "'a'';b';") b'\'' 0 0 7 (codes "a';b") b';' [] refl refl length_seven
  where
    length_seven : 7 ≡ 0 + length (quoted b'\'' (codes "a';b"))
    length_seven = refl

-- An insertion on the counting engine.
abbrev insertion : Text
insertion = codes "/* a */ insert into t;"

executes : (execute_one ascii ledger simple counting_statements insertion 0 open_session).0 ≡ done
unfolding execute_one
executes = refl

execute_one_success_example :
    ((statement_kind ascii insertion ≡ create) ⊎ (statement_kind ascii insertion ≡ insert))
    × ((check_stored_body ascii insertion new).0 ≡ accepted)
    × (prepare_exact ascii (counting_statements.discover open_session.conn) insertion ≡ ok tt)
    × (is_ok (counting_statements.prepare open_session insertion).0 ≡ true)
    × ((counting_statements.step
          (counting_statements.prepare open_session insertion).1
          insertion
          []).0.1
        ≡ none)
execute_one_success_example =
    execute_one_success ascii ledger simple counting_statements insertion 0 open_session executes

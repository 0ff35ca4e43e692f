-- ===== src/Policy/Scans.antt =====
-- The guard against maintenance statements at concrete inputs.
use sqlite_mcp.Prelude.{◌≡◌, refl, ◌⊎◌, inl, false}
use sqlite_mcp.Prelude.Text.{codes, to_ascii_lowercase}
use sqlite_mcp.Policy.Pragma.{plain}
use sqlite_mcp.Policy.Signal.{new, mark_policy_denied}
use sqlite_mcp.Policy.Cursor.{
  Unicode, maintenance, allowed, skip_trivia, is_identifier, check_maintenance,
}
use sqlite_mcp.Policy.Maintenance.{check_maintenance-decides, check_maintenance_denies}

-- Tables with no letters and no spaces beyond ASCII.
abbrev bare : Unicode
bare = record { alphanumeric = λ c. false; whitespace = λ c. false; alphabetic = λ c. false }

explained : (check_maintenance bare (codes "EXPLAIN/**/QUERY PLAN REINDEX") new).0 ≡ maintenance
unfolding check_maintenance to_ascii_lowercase
explained = refl

created : (check_maintenance bare (codes "CREATE TABLE reindex(a)") new).0 ≡ allowed
unfolding check_maintenance to_ascii_lowercase
created = refl

check_maintenance-decides_example :
    (check_maintenance bare (codes "EXPLAIN SELECT 1") new ≡ (maintenance, mark_policy_denied new))
    ⊎ (check_maintenance bare (codes "EXPLAIN SELECT 1") new ≡ (allowed, new))
check_maintenance-decides_example =
    check_maintenance-decides bare (codes "EXPLAIN SELECT 1") new refl

leading : skip_trivia bare plain (codes "/* c */ Reindex/**/t") ≡ codes "Reindex/**/t"
unfolding skip_trivia
leading = refl

check_maintenance_denies_example :
    check_maintenance bare (codes "/* c */ Reindex/**/t") new
    ≡ (maintenance, mark_policy_denied new)
unfolding is_identifier to_ascii_lowercase
check_maintenance_denies_example =
    check_maintenance_denies bare (codes "/* c */ Reindex/**/t") 82 (codes "eindex") (codes "/**/t")
      new leading refl refl (inl refl)

-- ===== src/Operation/Tests.antt =====
-- The theorems on operation outcomes and reports at concrete inputs.
use sqlite_mcp.Prelude.{ℕ, true, List, [], ◌∷◌, ok, err}
use sqlite_mcp.Prelude.Text.{codes}
use sqlite_mcp.Operation.{join_uncertain, Status}
use sqlite_mcp.Operation.Laws.{Update, expires, mutates}

abbrev changes : List Update
changes = mutates true ∷ expires true ∷ []

abbrev three : ℕ
three = 3

abbrev closed_status : Status
closed_status = ok (record { connection_closed = true; thread_joined = true })

abbrev answers : List (ℕ × Status)
answers =
    (5, closed_status)
    ∷ (2, err (join_uncertain (codes "lost")))
    ∷ (5, err (join_uncertain []))
    ∷ []

-- ===== src/Sql/Tests.antt =====
-- The theorem on cells at concrete inputs.
use sqlite_mcp.Sql.Cells.{to_value-cell, of_integer}
use sqlite_mcp.Sql.{to_value, cell, integer_ref, integer}
use sqlite_mcp.Core.Query.Sample.{simple}
use sqlite_mcp.Prelude.Int.{negsuc}
use sqlite_mcp.Prelude.{◌≡◌, arith, ok}

to_value-cell_example :
    to_value simple (cell simple (integer_ref (negsuc 41))) ≡ ok (integer (negsuc 41))
to_value-cell_example =
    to_value-cell simple (integer_ref (negsuc 41)) (integer (negsuc 41))
      (of_integer (negsuc 41) (omega arith))

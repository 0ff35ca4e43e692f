-- ===== src/Worker/Limits.antt =====
-- worker/limits.rs and operation.rs: the limits of the engine, installed and read back.
use sqlite_mcp.Prelude.Text.{Text, codes}
use sqlite_mcp.Prelude.Words.{i32_max}
use sqlite_mcp.Prelude.Int.{ℤ, pos, ◌==ℤ◌}
use sqlite_mcp.Sqlite.{Engine, SqliteError}
use sqlite_mcp.Sql.{i64_to_string}
use sqlite_mcp.Worker.Error.{decimal}
use sqlite_mcp.Prelude.{ℕ, not, Option, none, some, ◌++◌, leb, if◌then◌else◌, Result, ok, err}

pub record WorkerLimits : Type 0 where
  pub cell_byte_limit : ℕ
  pub sql_byte_limit : ℕ
  pub column_limit : ℕ
  pub expression_depth : ℕ
  pub compound_terms : ℕ
  pub parameter_limit : ℕ

-- The limits are `i32`.
pub record EffectiveLimits : Type 0 where
  pub cell_byte_limit : ℤ
  pub expression_depth : ℤ
  pub compound_terms : ℤ
  pub parameter_limit : ℤ

pub data LimitInstallError : Type 0 where
  conversion : Text → ℕ → LimitInstallError
  unsupported : Text → ℕ → Option ℤ → LimitInstallError
  sqlite : Text → SqliteError → LimitInstallError

-- `Display` of the error.
unfoldable pub limit_text : LimitInstallError → Text
limit_text (conversion field requested) =
    codes "limit "
    ++ (field
        ++ (codes ": configured value "
            ++ (decimal requested ++ codes " does not fit the engine limit type")))
limit_text (unsupported field requested (some effective)) =
    codes "limit "
    ++ (field
        ++ (codes ": engine refused "
            ++ (decimal requested ++ (codes "; effective value is " ++ i64_to_string effective))))
limit_text (unsupported field requested none) =
    codes "limit " ++ (field ++ (codes ": engine refused " ++ decimal requested))
limit_text (sqlite field source) =
    codes "limit " ++ (field ++ (codes ": read-back failed: " ++ source.text))

-- The limits of SQLite that are installed.
pub data Limit : Type 0 where
  length_limit expr_depth compound_select variable_number : Limit

-- `Connection::set_limit` and `Connection::limit`.
pub record LimitCalls (e : Engine) : Type 0 where
  pub set_limit : Limit → ℤ → e.Conn → Option SqliteError × e.Conn
  pub limit : Limit → e.Conn → Result ℤ SqliteError

module _ {e : Engine} (calls : LimitCalls e) where
  -- What is read back, against what was requested.
  unfoldable pub check_effective : Text → ℕ → Result ℤ SqliteError → Result ℤ LimitInstallError
  check_effective field requested (err x) = err (sqlite field x)
  check_effective field requested (ok effective) =
      if not (effective ==ℤ pos requested)
      then err (unsupported field requested (some effective))
      else ok effective

  unfoldable pub install_one : Text → Limit → ℕ → e.Conn → Result ℤ LimitInstallError × e.Conn
  unfolding check_effective
  install_one field l requested c =
      let (failed, c') = calls.set_limit l (pos requested) c in
      if not (leb requested i32_max) then (err (conversion field requested), c) else elim failed [
        | some x ↦ (err (sqlite field x), c')
        | none ↦ (check_effective field requested (calls.limit l c'), c')
      ]

  -- The four limits, in the order of the source.
  unfoldable pub install_limits :
      WorkerLimits → e.Conn → Result EffectiveLimits LimitInstallError × e.Conn
  unfolding install_one
  install_limits limits c =
      let (cell, c1) =
        install_one (codes "cell_byte_limit") length_limit limits.cell_byte_limit c in
      let (depth, c2) =
        install_one (codes "expression_depth") expr_depth limits.expression_depth c1 in
      let (terms, c3) =
        install_one (codes "compound_terms") compound_select limits.compound_terms c2 in
      let (parameters, c4) =
        install_one (codes "parameter_limit") variable_number limits.parameter_limit c3 in
      elim cell [
        | err x ↦ (err x, c1)
        | ok cell' ↦ elim depth [
          | err x ↦ (err x, c2)
          | ok depth' ↦ elim terms [
            | err x ↦ (err x, c3)
            | ok terms' ↦ elim parameters [
              | err x ↦ (err x, c4)
              | ok parameters' ↦ (
                ok (record {
                  cell_byte_limit = cell';
                  expression_depth = depth';
                  compound_terms = terms';
                  parameter_limit = parameters';
                }),
                c4,
              )
            ]
          ]
        ]
      ]

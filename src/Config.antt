-- ===== src/Config.antt =====
-- crates/sqlite-mcp-core/src/config.rs. Every field is an unsigned integer, so it is a number; the
-- TOML reader and the file are parameters, and a parsed file is a partial map from keys.
pub mod Bounds
mod Tests
use Prim.Native.String.{String}
use sqlite_mcp.Prelude.{
  ℕ, ◌*◌, ◌&&◌, Option, List, [], ◌∷◌, Result, ok, err, ◌>>=◌, ◌>>◌, leb, unwrap_or, if◌then◌else◌,
}

pub record Config : Type 0 where
  pub max_handles : ℕ
  pub queue_capacity : ℕ
  pub query_timeout_ms : ℕ
  pub writable_idle_seconds : ℕ
  pub readonly_idle_seconds : ℕ
  pub result_row_limit : ℕ
  pub result_byte_limit : ℕ
  pub schema_byte_limit : ℕ
  pub busy_wait_ms : ℕ
  pub sql_byte_limit : ℕ
  pub batch_sql_byte_limit : ℕ
  pub batch_statement_limit : ℕ
  pub cell_byte_limit : ℕ
  pub column_limit : ℕ
  pub parameter_limit : ℕ
  pub expression_depth : ℕ
  pub compound_terms : ℕ
  pub merge_text_byte_limit : ℕ
  pub merge_statement_limit : ℕ
  pub merge_source_observation_byte_limit : ℕ
  pub merge_image_byte_limit : ℕ

abbrev pub default_max_handles : ℕ
default_max_handles = 32

abbrev pub default_queue : ℕ
default_queue = 16

abbrev pub default_timeout : ℕ
default_timeout = 30000

abbrev pub default_idle : ℕ
default_idle = 60

abbrev pub default_read_idle : ℕ
default_read_idle = 600

abbrev pub default_result_row_limit : ℕ
default_result_row_limit = 500

abbrev pub default_result_byte_limit : ℕ
default_result_byte_limit = 1024 * 1024

abbrev pub default_schema_byte_limit : ℕ
default_schema_byte_limit = 2 * 1024 * 1024

abbrev pub default_busy_wait : ℕ
default_busy_wait = 2000

abbrev pub default_sql_limit : ℕ
default_sql_limit = 100 * 1024

abbrev pub default_batch_sql_byte_limit : ℕ
default_batch_sql_byte_limit = 1024 * 1024

abbrev pub default_batch_statement_limit : ℕ
default_batch_statement_limit = 1000

abbrev pub default_cell_limit : ℕ
default_cell_limit = 1024 * 1024

abbrev pub default_columns : ℕ
default_columns = 256

abbrev pub default_parameters : ℕ
default_parameters = 1000

abbrev pub default_expression_depth : ℕ
default_expression_depth = 100

abbrev pub default_compound_terms : ℕ
default_compound_terms = 50

abbrev pub default_merge_text_byte_limit : ℕ
default_merge_text_byte_limit = 64 * 1024 * 1024

abbrev pub default_merge_statement_limit : ℕ
default_merge_statement_limit = 100000

abbrev pub default_merge_source_observation_byte_limit : ℕ
default_merge_source_observation_byte_limit = 256 * 1024 * 1024

abbrev pub default_merge_image_byte_limit : ℕ
default_merge_image_byte_limit = 64 * 1024 * 1024

-- `impl Default for Config`, which repeats some of the values.
unfoldable pub default : Config
default = record {
  max_handles = 32;
  queue_capacity = 16;
  query_timeout_ms = 30000;
  writable_idle_seconds = 60;
  readonly_idle_seconds = 600;
  result_row_limit = default_result_row_limit;
  result_byte_limit = default_result_byte_limit;
  schema_byte_limit = default_schema_byte_limit;
  busy_wait_ms = 2000;
  sql_byte_limit = 100 * 1024;
  batch_sql_byte_limit = default_batch_sql_byte_limit;
  batch_statement_limit = default_batch_statement_limit;
  cell_byte_limit = 1024 * 1024;
  column_limit = 256;
  parameter_limit = 1000;
  expression_depth = 100;
  compound_terms = 50;
  merge_text_byte_limit = default_merge_text_byte_limit;
  merge_statement_limit = default_merge_statement_limit;
  merge_source_observation_byte_limit = default_merge_source_observation_byte_limit;
  merge_image_byte_limit = default_merge_image_byte_limit;
}

-- What serde makes of a parsed file: a key that is missing takes its default.
unfoldable pub from_table : (String → Option ℕ) → Config
from_table t = record {
  max_handles = unwrap_or (t "max_handles") default_max_handles;
  queue_capacity = unwrap_or (t "queue_capacity") default_queue;
  query_timeout_ms = unwrap_or (t "query_timeout_ms") default_timeout;
  writable_idle_seconds = unwrap_or (t "writable_idle_seconds") default_idle;
  readonly_idle_seconds = unwrap_or (t "readonly_idle_seconds") default_read_idle;
  result_row_limit = unwrap_or (t "result_row_limit") default_result_row_limit;
  result_byte_limit = unwrap_or (t "result_byte_limit") default_result_byte_limit;
  schema_byte_limit = unwrap_or (t "schema_byte_limit") default_schema_byte_limit;
  busy_wait_ms = unwrap_or (t "busy_wait_ms") default_busy_wait;
  sql_byte_limit = unwrap_or (t "sql_byte_limit") default_sql_limit;
  batch_sql_byte_limit = unwrap_or (t "batch_sql_byte_limit") default_batch_sql_byte_limit;
  batch_statement_limit = unwrap_or (t "batch_statement_limit") default_batch_statement_limit;
  cell_byte_limit = unwrap_or (t "cell_byte_limit") default_cell_limit;
  column_limit = unwrap_or (t "column_limit") default_columns;
  parameter_limit = unwrap_or (t "parameter_limit") default_parameters;
  expression_depth = unwrap_or (t "expression_depth") default_expression_depth;
  compound_terms = unwrap_or (t "compound_terms") default_compound_terms;
  merge_text_byte_limit = unwrap_or (t "merge_text_byte_limit") default_merge_text_byte_limit;
  merge_statement_limit = unwrap_or (t "merge_statement_limit") default_merge_statement_limit;
  merge_source_observation_byte_limit =
      unwrap_or (t "merge_source_observation_byte_limit")
        default_merge_source_observation_byte_limit;
  merge_image_byte_limit = unwrap_or (t "merge_image_byte_limit") default_merge_image_byte_limit;
}

pub data ConfigError : Type 0 where
  io : String → ConfigError
  parse : String → ConfigError
  invalid : String → ℕ → ℕ → ℕ → ConfigError

-- A field of the table `POLICY`: its name, minimum and maximum.
pub record Range : Type 0 where
  pub field : String
  pub minimum : ℕ
  pub maximum : ℕ

abbrev range : String → ℕ → ℕ → Range
range f lo hi = record { field = f; minimum = lo; maximum = hi }

abbrev pub policy : List Range
policy =
    range "max_handles" 1 1024
    ∷ range "queue_capacity" 1 4096
    ∷ range "query_timeout_ms" 1 300000
    ∷ range "writable_idle_seconds" 1 86400
    ∷ range "readonly_idle_seconds" 1 604800
    ∷ range "result_row_limit" 1 100000
    ∷ range "result_byte_limit" 1 67108864
    ∷ range "schema_byte_limit" 1 67108864
    ∷ range "cell_byte_limit" 1 67108864
    ∷ range "busy_wait_ms" 1 60000
    ∷ range "sql_byte_limit" 1 1048576
    ∷ range "batch_sql_byte_limit" 1 16777216
    ∷ range "batch_statement_limit" 1 100000
    ∷ range "column_limit" 1 2048
    ∷ range "parameter_limit" 1 32766
    ∷ range "expression_depth" 1 1000
    ∷ range "compound_terms" 1 500
    ∷ range "merge_text_byte_limit" 1 67108864
    ∷ range "merge_statement_limit" 1 1000000
    ∷ range "merge_source_observation_byte_limit" 1 1073741824
    ∷ range "merge_image_byte_limit" 1 1073741824
    ∷ []

abbrev pub values : Config → List (String × ℕ)
values c =
    ("max_handles", c.max_handles)
    ∷ ("queue_capacity", c.queue_capacity)
    ∷ ("query_timeout_ms", c.query_timeout_ms)
    ∷ ("writable_idle_seconds", c.writable_idle_seconds)
    ∷ ("readonly_idle_seconds", c.readonly_idle_seconds)
    ∷ ("result_row_limit", c.result_row_limit)
    ∷ ("result_byte_limit", c.result_byte_limit)
    ∷ ("schema_byte_limit", c.schema_byte_limit)
    ∷ ("cell_byte_limit", c.cell_byte_limit)
    ∷ ("busy_wait_ms", c.busy_wait_ms)
    ∷ ("sql_byte_limit", c.sql_byte_limit)
    ∷ ("batch_sql_byte_limit", c.batch_sql_byte_limit)
    ∷ ("batch_statement_limit", c.batch_statement_limit)
    ∷ ("column_limit", c.column_limit)
    ∷ ("parameter_limit", c.parameter_limit)
    ∷ ("expression_depth", c.expression_depth)
    ∷ ("compound_terms", c.compound_terms)
    ∷ ("merge_text_byte_limit", c.merge_text_byte_limit)
    ∷ ("merge_statement_limit", c.merge_statement_limit)
    ∷ ("merge_source_observation_byte_limit", c.merge_source_observation_byte_limit)
    ∷ ("merge_image_byte_limit", c.merge_image_byte_limit)
    ∷ []

-- The loop over `POLICY.iter().zip(values)`.
unfoldable pub check_ranges : List Range → List (String × ℕ) → Result (Unit {0}) ConfigError
check_ranges [] vs = ok tt
check_ranges (p ∷ ps) [] = ok tt
check_ranges (p ∷ ps) ((name, value) ∷ vs) =
    let rest = check_ranges ps vs in
    if leb p.minimum value && leb value p.maximum
    then rest
    else err (invalid name p.minimum p.maximum value)

unfoldable pub validate : Config → Result (Unit {0}) ConfigError
unfolding check_ranges
validate c = check_ranges policy (values c)

-- `Config::from_path`, with the outcomes of reading and of parsing as arguments.
unfoldable pub from_path :
    {F : Type 0}
    → Result F ConfigError
    → (F → Result Config ConfigError)
    → Result Config ConfigError
unfolding validate
from_path read toml = do text ← read; c ← toml text; validate c; ok c

-- ===== src/Config/Bounds.antt =====
-- config.rs: what `validate` accepts and what it reports.
use Prim.Native.String.{String}
use sqlite_mcp.Config.{
  Config, ConfigError, invalid, Range, policy, values, check_ranges, validate, from_table,
  from_path, default,
}
use sqlite_mcp.Prelude.{
  ℕ, ◌≤◌, ◌<◌, ◌≡◌, refl, ◌↔◌, ◌⊎◌, inl, inr, ◌&&◌, Option, none, some, List, [], ◌∷◌, map, arith,
  leb, Bool-cases, Result-cases, unwrap_or, Result, ok, err, ◌>>=◌, ◌>>◌,
}

-- The documented bounds, field by field.
pub record IsInRange (c : Config) : Type 0 where
  pub max_handles : (1 ≤ c.max_handles) × (c.max_handles ≤ 1024)
  pub queue_capacity : (1 ≤ c.queue_capacity) × (c.queue_capacity ≤ 4096)
  pub query_timeout_ms : (1 ≤ c.query_timeout_ms) × (c.query_timeout_ms ≤ 300000)
  pub writable_idle_seconds : (1 ≤ c.writable_idle_seconds) × (c.writable_idle_seconds ≤ 86400)
  pub readonly_idle_seconds : (1 ≤ c.readonly_idle_seconds) × (c.readonly_idle_seconds ≤ 604800)
  pub result_row_limit : (1 ≤ c.result_row_limit) × (c.result_row_limit ≤ 100000)
  pub result_byte_limit : (1 ≤ c.result_byte_limit) × (c.result_byte_limit ≤ 67108864)
  pub schema_byte_limit : (1 ≤ c.schema_byte_limit) × (c.schema_byte_limit ≤ 67108864)
  pub cell_byte_limit : (1 ≤ c.cell_byte_limit) × (c.cell_byte_limit ≤ 67108864)
  pub busy_wait_ms : (1 ≤ c.busy_wait_ms) × (c.busy_wait_ms ≤ 60000)
  pub sql_byte_limit : (1 ≤ c.sql_byte_limit) × (c.sql_byte_limit ≤ 1048576)
  pub batch_sql_byte_limit : (1 ≤ c.batch_sql_byte_limit) × (c.batch_sql_byte_limit ≤ 16777216)
  pub batch_statement_limit : (1 ≤ c.batch_statement_limit) × (c.batch_statement_limit ≤ 100000)
  pub column_limit : (1 ≤ c.column_limit) × (c.column_limit ≤ 2048)
  pub parameter_limit : (1 ≤ c.parameter_limit) × (c.parameter_limit ≤ 32766)
  pub expression_depth : (1 ≤ c.expression_depth) × (c.expression_depth ≤ 1000)
  pub compound_terms : (1 ≤ c.compound_terms) × (c.compound_terms ≤ 500)
  pub merge_text_byte_limit : (1 ≤ c.merge_text_byte_limit) × (c.merge_text_byte_limit ≤ 67108864)
  pub merge_statement_limit : (1 ≤ c.merge_statement_limit) × (c.merge_statement_limit ≤ 1000000)
  pub merge_source_observation_byte_limit :
      (1 ≤ c.merge_source_observation_byte_limit)
      × (c.merge_source_observation_byte_limit ≤ 1073741824)
  pub merge_image_byte_limit :
      (1 ≤ c.merge_image_byte_limit) × (c.merge_image_byte_limit ≤ 1073741824)

abbrev Within : List Range → List (String × ℕ) → Type 0
Within [] vs = Unit
Within (p ∷ ps) [] = Unit
Within (p ∷ ps) (v ∷ vs) = ((p.minimum ≤ v.1) × (v.1 ≤ p.maximum)) × Within ps vs

check_ranges-Within :
    (ps : List Range) (vs : List (String × ℕ)) → check_ranges ps vs ≡ ok tt → Within ps vs
unfolding check_ranges
check_ranges-Within [] vs h = tt
check_ranges-Within (p ∷ ps) [] h = tt
check_ranges-Within (p ∷ ps) (v ∷ vs) h = ground (arith, check_ranges-Within ps vs)

Within-check_ranges :
    (ps : List Range) (vs : List (String × ℕ)) → Within ps vs → check_ranges ps vs ≡ ok tt
unfolding check_ranges
Within-check_ranges [] vs h = refl
Within-check_ranges (p ∷ ps) [] h = refl
Within-check_ranges (p ∷ ps) (v ∷ vs) h = ground (arith, Within-check_ranges ps vs h.1)

-- `validate` accepts a configuration exactly when every one of the 21 fields lies in its
-- documented range.
pub validate_iff : (c : Config) → (validate c ≡ ok tt) ↔ IsInRange c
unfolding validate
validate_iff c = (
  λ h. of_within (check_ranges-Within policy (values c) h),
  λ r. Within-check_ranges policy (values c) (to_within r),
)
  where
    of_within : Within policy (values c) → IsInRange c
    of_within w = omega arith

    to_within : IsInRange c → Within policy (values c)
    to_within r = omega arith

-- The names of the two tables agree, position by position (the `debug_assert_eq!` of the loop).
abbrev Named : List Range → List (String × ℕ) → Type 0
Named [] vs = Unit
Named (p ∷ ps) [] = Unit
Named (p ∷ ps) (v ∷ vs) = (p.field ≡ v.0) × Named ps vs

-- The error names the first range of the table that its value misses.
abbrev pub FirstMiss : List Range → List (String × ℕ) → ConfigError → Type 0
FirstMiss [] vs e = ⊥
FirstMiss (p ∷ ps) [] e = ⊥
FirstMiss (p ∷ ps) (v ∷ vs) e =
    (((v.1 < p.minimum) ⊎ (p.maximum < v.1)) × (e ≡ invalid p.field p.minimum p.maximum v.1))
    ⊎ (((p.minimum ≤ v.1) × (v.1 ≤ p.maximum)) × FirstMiss ps vs e)

check_ranges-FirstMiss :
    (ps : List Range) (vs : List (String × ℕ)) (e : ConfigError)
    → Named ps vs
    → check_ranges ps vs ≡ err e
    → FirstMiss ps vs e
unfolding check_ranges
check_ranges-FirstMiss [] vs e n h = cc
check_ranges-FirstMiss (p ∷ ps) [] e n h = cc
check_ranges-FirstMiss (p ∷ ps) (v ∷ vs) e n h =
    elim (Bool-cases (leb p.minimum v.1 && leb v.1 p.maximum)) [
      | inl within ↦ inr (ground arith, check_ranges-FirstMiss ps vs e n.1 (ground arith))
      | inr missed ↦ inl (ground arith, ground arith)
    ]

-- A rejected configuration is reported by the first field, in the order of the policy table, that
-- lies outside its range, with that field's name, bounds and value.
pub validate_first_error :
    (c : Config) (e : ConfigError) → validate c ≡ err e → FirstMiss policy (values c) e
unfolding validate
validate_first_error c e h = check_ranges-FirstMiss policy (values c) e (ground arith) h

-- A key of the file, if it is there, has a value in the documented range.
abbrev pub IsGiven : (String → Option ℕ) → List Range → Type 0
IsGiven t [] = Unit
IsGiven t (p ∷ ps) =
    ((v : ℕ) → t p.field ≡ some v → (p.minimum ≤ v) × (v ≤ p.maximum)) × IsGiven t ps

-- One key with its default.
unwrap_or_within :
    (o : Option ℕ) (d lo hi : ℕ)
    → ((v : ℕ) → o ≡ some v → (lo ≤ v) × (v ≤ hi))
    → (lo ≤ d) × (d ≤ hi)
    → (lo ≤ unwrap_or o d) × (unwrap_or o d ≤ hi)
unwrap_or_within none d lo hi given default_ok = default_ok
unwrap_or_within (some v) d lo hi given default_ok = given v refl

-- The values of a parsed file, in the order of a table of ranges.
resolve : (String → Option ℕ) → List Range → List ℕ → List (String × ℕ)
resolve t [] ds = []
resolve t (p ∷ ps) [] = []
resolve t (p ∷ ps) (d ∷ ds) = (p.field, unwrap_or (t p.field) d) ∷ resolve t ps ds

abbrev DefaultsFit : List Range → List ℕ → Type 0
DefaultsFit [] ds = Unit
DefaultsFit (p ∷ ps) [] = Unit
DefaultsFit (p ∷ ps) (d ∷ ds) = ((p.minimum ≤ d) × (d ≤ p.maximum)) × DefaultsFit ps ds

resolve-Within :
    (t : String → Option ℕ) (ps : List Range) (ds : List ℕ)
    → IsGiven t ps
    → DefaultsFit ps ds
    → Within ps (resolve t ps ds)
unfolding resolve
resolve-Within t [] ds g f = tt
resolve-Within t (p ∷ ps) [] g f = tt
resolve-Within t (p ∷ ps) (d ∷ ds) g f =
    (unwrap_or_within (t p.field) d p.minimum p.maximum g.0 f.0, resolve-Within t ps ds g.1 f.1)

-- The defaults in the order of the policy table.
abbrev defaults : List ℕ
defaults =
    32 ∷ 16 ∷ 30000 ∷ 60 ∷ 600 ∷ 500 ∷ 1048576 ∷ 2097152 ∷ 1048576 ∷ 2000 ∷ 102400 ∷ 1048576 ∷ 1000
    ∷ 256 ∷ 1000 ∷ 100 ∷ 50 ∷ 67108864 ∷ 100000 ∷ 268435456 ∷ 67108864 ∷ []

-- A file whose keys, so far as they are given, lie in the documented ranges is accepted: each
-- missing key takes a default, and no default is out of range.
pub validate-from_table :
    (t : String → Option ℕ) → IsGiven t policy → validate (from_table t) ≡ ok tt
unfolding validate from_table resolve
validate-from_table t g =
    Within-check_ranges policy (values (from_table t))
      (resolve-Within t policy defaults g (omega arith))

-- Whatever keys a file gives, every field of the configuration has the value of the key of its name,
-- and where the key is missing that of `Config::default()`, so the two lists of defaults in the
-- source agree.
pub from_table-values :
    (t : String → Option ℕ)
    → values (from_table t)
      ≡ map (λ field. (field.0, unwrap_or (t field.0) field.1)) (values default)
unfolding from_table default
from_table-values t = refl

validated :
    (m : Result Config ConfigError) (c : Config)
    → (m >>= λ c'. validate c' >> ok c') ≡ ok c
    → (m ≡ ok c) × (validate c ≡ ok tt)
validated (err e) c h = cc
validated (ok c') c h = elim (Result-cases (validate c')) [
  | inl (u, e) ↦ ground arith
  | inr (x, e) ↦ ground arith
]

from_path-ok :
    {F : Type 0} (read : Result F ConfigError) (toml : F → Result Config ConfigError) (c : Config)
    → from_path read toml ≡ ok c
    → (text : F) × (read ≡ ok text) × (toml text ≡ ok c) × IsInRange c
unfolding from_path
from_path-ok (err e) toml c h = cc
from_path-ok (ok text) toml c h =
    let v = validated (toml text) c h in (text, refl, v.0, (validate_iff c).0 v.1)

-- Loading a configuration file succeeds with `c` exactly when the file can be read, parses to `c`
-- and `c` lies in the documented ranges.
pub from_path_iff :
    {F : Type 0} (read : Result F ConfigError) (toml : F → Result Config ConfigError) (c : Config)
    → (from_path read toml ≡ ok c)
      ↔ ((text : F) × (read ≡ ok text) × (toml text ≡ ok c) × IsInRange c)
unfolding from_path
from_path_iff read toml c = (from_path-ok read toml c, λ h. rw (h.1, h.2, (validate_iff c).1 h.3))

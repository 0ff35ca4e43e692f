-- ===== src/Config/Tests.antt =====
-- The theorems on the configuration at concrete inputs.
use sqlite_mcp.Config.{Config, ConfigError, Range, invalid, validate, default}
use sqlite_mcp.Config.Bounds.{IsInRange, IsGiven, validate_iff}
use Prim.Native.String.{String}
use sqlite_mcp.Prelude.{ℕ, ◌≡◌, refl, ◌↔◌, Option, none, List, [], ◌∷◌, Result, ok, err}

abbrev no_handles : Config
no_handles = record default { max_handles = 0 }

validate_iff_example : (validate default ≡ ok tt) ↔ IsInRange default
validate_iff_example = validate_iff default

no_handles-error : validate no_handles ≡ err (invalid "max_handles" 1 1024 0)
unfolding validate
no_handles-error = refl

abbrev no_keys : String → Option ℕ
no_keys key = none

given : (ps : List Range) → IsGiven no_keys ps
given [] = tt
given (p ∷ ps) = (λ v h. cc, given ps)

abbrev read : Result (Unit {0}) ConfigError
read = ok tt

abbrev parsed : Unit {0} → Result Config ConfigError
parsed text = ok default

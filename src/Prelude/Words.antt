-- ===== src/Prelude/Words.antt =====
-- Machine integers of Rust: the largest values and saturating operations.
use Prim.Native.Nat.{ℕ, ◌+◌, ◌*◌, ◌≤◌, ◌<◌, min}
use mathlib.Core.Path.{◌≡◌}
use native.Mathlib.Omega.{arith}

abbrev pub u64_max : ℕ
u64_max = 18446744073709551615

abbrev pub i32_max : ℕ
i32_max = 2147483647

-- `u64::saturating_add` and `u64::saturating_mul`.
unfoldable pub saturating_add : ℕ → ℕ → ℕ
saturating_add a b = min (a + b) u64_max

unfoldable pub saturating_mul : ℕ → ℕ → ℕ
saturating_mul a b = min (a * b) u64_max

pub le-saturating_add : (a b : ℕ) → a ≤ u64_max → a ≤ saturating_add a b
unfolding saturating_add
le-saturating_add a b h = omega arith

pub lt-saturating_add : (a : ℕ) → a < u64_max → saturating_add a 1 ≡ a + 1
unfolding saturating_add
lt-saturating_add a h = omega arith

-- ===== src/Prelude/Table.antt =====
-- A `HashMap` as an association list over any key type with a Boolean equality: an insertion
-- replaces the entry of the key, and a removal drops every entry of the key.
use Prim.Native.Nat.{ℕ, ◌≤◌}
use mathlib.Core.Path.{◌≡◌, refl}
use mathlib.Core.Bool.{Bool}
use mathlib.Core.Option.{Option, none, some}
use mathlib.Core.List.{List, [], ◌∷◌}
use native.Mathlib.Omega.{arith}
use sqlite_mcp.Prelude.Tests.{◌==◌, if◌then◌else◌, is_some}
use sqlite_mcp.Prelude.Lists.{length}

abbrev pub Table {ℓ} : Type ℓ → Type ℓ
Table V = List (ℕ × V)

module _ {ℓ} {V : Type ℓ} where
  unfoldable pub get : Table V → ℕ → Option V
  get [] k = none
  get ((j, v) ∷ m) k = if j == k then some v else get m k

  unfoldable pub remove : Table V → ℕ → Table V
  remove [] k = []
  remove ((j, v) ∷ m) k = let rest = remove m k in if j == k then rest else (j, v) ∷ rest

  unfoldable pub insert : Table V → ℕ → V → Table V
  unfolding remove
  insert m k v = (k, v) ∷ remove m k

  unfoldable pub contains_key : Table V → ℕ → Bool
  unfolding get
  contains_key m k = is_some (get m k)

  pub get-remove : (m : Table V) (k j : ℕ) → get (remove m k) j ≡ (if k == j then none else get m j)
  unfolding get remove
  get-remove [] k j = ground arith
  get-remove ((i, v) ∷ m) k j = ground (arith, get-remove m k j)

  pub get-insert :
      (m : Table V) (k j : ℕ) (v : V) → get (insert m k v) j ≡ (if k == j then some v else get m j)
  unfolding get insert
  get-insert m k j v = ground (arith, get-remove m k j)

  pub length-remove-le : (m : Table V) (k : ℕ) → length (remove m k) ≤ length m
  unfolding remove
  length-remove-le [] k = omega arith
  length-remove-le ((i, v) ∷ m) k = ground (arith, length-remove-le m k)

module _ {ℓ} {V : Type ℓ} where
  -- `get_mut` and a write through it.
  unfoldable pub modify : Table V → ℕ → (V → V) → Table V
  modify [] k f = []
  modify ((j, v) ∷ m) k f =
      let rest = modify m k f in if j == k then (j, f v) ∷ m else (j, v) ∷ rest

  abbrev pub map_some : (V → V) → Option V → Option V
  map_some f none = none
  map_some f (some v) = some (f v)

  pub get-modify :
      (m : Table V) (k j : ℕ) (f : V → V)
      → get (modify m k f) j ≡ (if k == j then map_some f (get m j) else get m j)
  unfolding get modify
  get-modify [] k j f = ground arith
  get-modify ((i, v) ∷ m) k j f = ground (arith, get-modify m k j f)

  pub length-modify : (m : Table V) (k : ℕ) (f : V → V) → length (modify m k f) ≡ length m
  unfolding modify
  length-modify [] k f = refl
  length-modify ((i, v) ∷ m) k f = ground (arith, length-modify m k f)

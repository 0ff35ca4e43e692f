-- ===== src/Core/Distinct.antt =====
-- core.rs: the paths of the open handles are pairwise different, a modification or a removal away,
-- and how many of the open files are held for a handle.
use sqlite_mcp.Prelude.{
  ℕ, ◌+◌, ◌-◌, ◌≡◌, refl, Bool, true, false, not, ◌&&◌, [], ◌∷◌, arith, ◌==◌, if◌then◌else◌,
}
use sqlite_mcp.Prelude.Text.{Text}
use sqlite_mcp.Prelude.Table.{Table, remove, modify, insert, contains_key, get}
use sqlite_mcp.Sqlite.{Engine}
use sqlite_mcp.Worker.State.{Worker}
use sqlite_mcp.Core.State.{Handle, remove_value}
use sqlite_mcp.Core.Open.{path_is_open}

module _ {e : Engine} where
  -- The paths of the entries are pairwise different.
  unfoldable pub are_distinct : Table (Handle × Worker e) → Bool
  are_distinct [] = true
  are_distinct ((id, entry) ∷ m) = not (path_is_open e entry.0.path m) && are_distinct m

  path_is_open-modify :
      (p : Text) (m : Table (Handle × Worker e)) (id : ℕ)
      (g : Handle × Worker e → Handle × Worker e)
      → ((entry : Handle × Worker e) → (g entry).0.path ≡ entry.0.path)
      → path_is_open e p (modify m id g) ≡ path_is_open e p m
  unfolding path_is_open modify
  path_is_open-modify p [] id g keeps = refl
  path_is_open-modify p ((i, entry) ∷ m) id g keeps =
      ground (arith, keeps entry, path_is_open-modify p m id g keeps)

  pub are_distinct-modify :
      (m : Table (Handle × Worker e)) (id : ℕ) (g : Handle × Worker e → Handle × Worker e)
      → ((entry : Handle × Worker e) → (g entry).0.path ≡ entry.0.path)
      → are_distinct (modify m id g) ≡ are_distinct m
  unfolding are_distinct modify
  are_distinct-modify [] id g keeps = refl
  are_distinct-modify ((i, entry) ∷ m) id g keeps = ground (
    arith,
    keeps entry,
    path_is_open-modify entry.0.path m id g keeps,
    are_distinct-modify m id g keeps,
  )

  pub path_is_open-remove :
      (p : Text) (m : Table (Handle × Worker e)) (id : ℕ)
      → path_is_open e p m ≡ false
      → path_is_open e p (remove m id) ≡ false
  unfolding path_is_open remove
  path_is_open-remove p [] id c = refl
  path_is_open-remove p ((i, entry) ∷ m) id c = ground (arith, c, path_is_open-remove p m id)

  pub are_distinct-remove :
      (m : Table (Handle × Worker e)) (id : ℕ)
      → are_distinct m ≡ true
      → are_distinct (remove m id) ≡ true
  unfolding are_distinct remove
  are_distinct-remove [] id d = refl
  are_distinct-remove ((i, entry) ∷ m) id d =
      ground (arith, d, path_is_open-remove entry.0.path m id, are_distinct-remove m id)

-- The number of open files that are held for a handle.
unfoldable pub owners : Table ℕ → ℕ → ℕ
owners [] id = 0
owners ((k, v) ∷ m) id = (if v == id then 1 else 0) + owners m id

pub owners-remove_value :
    (m : Table ℕ) (id j : ℕ)
    → owners (remove_value m id) j ≡ (if id == j then owners m j - 1 else owners m j)
unfolding owners remove_value
owners-remove_value [] id j = ground arith
owners-remove_value ((k, v) ∷ m) id j = ground (arith, owners-remove_value m id j)

owners-remove :
    (m : Table ℕ) (k j : ℕ) → contains_key m k ≡ false → owners (remove m k) j ≡ owners m j
unfolding owners remove contains_key get
owners-remove [] k j h = refl
owners-remove ((i, v) ∷ m) k j h = ground (arith, h, owners-remove m k j)

pub owners-insert :
    (m : Table ℕ) (k v j : ℕ)
    → contains_key m k ≡ false
    → owners (insert m k v) j ≡ (if v == j then 1 else 0) + owners m j
unfolding owners insert
owners-insert m k v j h = ground (arith, owners-remove m k j h)

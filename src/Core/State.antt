-- ===== src/Core/State.antt =====
-- core.rs and handles.rs: the registry that `Core` guards by one lock, and the steps that its
-- operations share. Ids, device and inode pairs and UUIDs are only compared, so they are numbers. A
-- worker thread serves its handle alone, so its state is kept beside the handle. The gate of a
-- handle makes each operation on it one step; the map of the gates is their set of ids.
use sqlite_mcp.Prelude.{
  ℕ, Bool, true, false, Option, none, some, [], ◌∷◌, ◌==◌, if◌then◌else◌, Result, ok, ◌>>=◌, ok_or,
}
use sqlite_mcp.Prelude.Text.{Text}
use sqlite_mcp.Prelude.Int.{ℤ, negsuc}
use sqlite_mcp.Prelude.Table.{Table, get, remove, modify}
use sqlite_mcp.Sqlite.{Engine}
use sqlite_mcp.Operation.{TransactionMode}
use sqlite_mcp.Worker.State.{Worker}
use sqlite_mcp.Core.Error.{CoreError, unknown_handle}

pub record Handle : Type 0 where
  pub id : ℕ
  pub path : Text
  pub readonly : Bool
  pub journal_mode : Text
  pub transaction_id : Option ℕ
  pub transaction_mode : Option TransactionMode
  pub schema_observed : Bool
  pub schema_version : ℤ
  pub observation_generation : ℕ
  pub expired : Bool

-- `Handle::new`, with the fresh id.
unfoldable pub new_handle : ℕ → Text → Bool → Text → Handle
new_handle id path readonly journal_mode = record {
  id = id;
  path = path;
  readonly = readonly;
  journal_mode = journal_mode;
  transaction_id = none;
  transaction_mode = none;
  schema_observed = false;
  schema_version = negsuc 0;
  observation_generation = 0;
  expired = false;
}

pub record TransactionSchemaState (e : Engine) : Type 0 where
  pub pre_observed : Bool
  pub pre_version : ℤ
  pub pre_generation : ℕ
  pub expected_version : ℤ
  pub pending_schema_change : Bool
  pub overlay : Option e.Schema

pub record State (e : Engine) : Type 0 where
  pub handles : Table (Handle × Worker e)
  pub transaction_schema : Table (TransactionSchemaState e)
  -- The open file of each device and inode.
  pub identities : Table ℕ
  pub gates : Table (Unit {0})

-- The entry of `identities` for a handle, found by its value, is dropped.
unfoldable pub remove_value : Table ℕ → ℕ → Table ℕ
remove_value [] id = []
remove_value ((k, v) ∷ m) id = let rest = remove_value m id in if v == id then m else (k, v) ∷ rest

-- The observation goes back to what it was before the transaction.
unfoldable pub restore : {e : Engine} → Option (TransactionSchemaState e) → Handle → Handle
restore none h = h
restore (some tx) h = record h {
  schema_observed = tx.pre_observed;
  schema_version = tx.pre_version;
  observation_generation = tx.pre_generation;
}

abbrev pub clear_transaction : Handle → Handle
clear_transaction h = record h { transaction_id = none; transaction_mode = none }

abbrev pub expire : Handle → Handle
expire h = record h { expired = true; transaction_id = none; transaction_mode = none }

module _ {e : Engine} where
  unfoldable pub handle_gate : State e → ℕ → Result (Handle × Worker e) CoreError
  handle_gate s id = do
    entry ← ok_or (get s.handles id) unknown_handle
    ok_or (get s.gates id) unknown_handle >>= λ _. ok entry

  -- The state of a worker behind a command.
  unfoldable pub put_worker : State e → ℕ → Worker e → State e
  put_worker s id w = record s { handles = modify s.handles id (λ entry. (entry.0, w)) }

  unfoldable pub put_handle : State e → ℕ → (Handle → Handle) → State e
  put_handle s id f = record s { handles = modify s.handles id (λ entry. (f entry.0, entry.1)) }

  -- The transaction's bookkeeping is dropped, the prior observation restored, and the handle updated.
  unfoldable pub end_transaction : State e → ℕ → (Handle → Handle) → State e
  unfolding put_handle restore
  end_transaction s id f =
      let tx = get s.transaction_schema id in
      put_handle (record s { transaction_schema = remove s.transaction_schema id }) id
        (λ h. f (restore tx h))

  -- `invalidate_handle`: the entry goes, and the worker, which is shut down, with it.
  unfoldable pub invalidate_handle : State e → ℕ → State e
  unfolding remove_value
  invalidate_handle s id = record s {
    identities = remove_value s.identities id;
    gates = remove s.gates id;
    transaction_schema = remove s.transaction_schema id;
    handles = remove s.handles id;
  }

-- ===== src/Core/Registry.antt =====
-- core.rs: the maps of the registry agree, before and behind each operation on a handle.
use sqlite_mcp.Prelude.{
  ℕ, ◌≤◌, ◌≡◌, refl, ap, ◌∙◌, Bool, true, false, Option, none, some, arith, Option-cases, is_some,
  ok, length, if◌then◌else◌,
}
use sqlite_mcp.Prelude.Table.{get, contains_key, map_some}
use sqlite_mcp.Sqlite.{Engine}
use sqlite_mcp.Worker.State.{Worker}
use sqlite_mcp.Core.State.{
  Handle, TransactionSchemaState, State, restore, handle_gate, put_worker, end_transaction,
  invalidate_handle,
}
use sqlite_mcp.Prelude.Table.{get-modify, get-remove}
use sqlite_mcp.Core.Schema.{drop_handle}
use sqlite_mcp.Core.Distinct.{
  owners, owners-remove_value, are_distinct, are_distinct-modify, are_distinct-remove,
}
use sqlite_mcp.Prelude.Table.{length-modify, length-remove-le, map_some}

module _ {e : Engine} where
  -- Whether the entry of an id, if there is one, has a transaction.
  abbrev pub has_transaction : Option (Handle × Worker e) → Bool
  has_transaction none = false
  has_transaction (some (h, w)) = is_some h.transaction_id

  -- An entry whose handle is closed has no transaction.
  pub closed_entry :
      (g : Handle × Worker e → Handle × Worker e) (entry : Option (Handle × Worker e))
      → ((p : Handle × Worker e) → (g p).0.transaction_id ≡ none)
      → has_transaction (map_some g entry) ≡ false
  closed_entry g none closes = refl
  closed_entry g (some p) closes = ap is_some (closes p)

  pub restore-path :
      (tx : Option (TransactionSchemaState e)) (h : Handle) → (restore tx h).path ≡ h.path
  unfolding restore
  restore-path none h = refl
  restore-path (some tx) h = refl

  -- The gate answers with the entry that is in the map.
  pub handle_gate_lem :
      (s : State e) (id : ℕ) (h : Handle) (w : Worker e)
      → handle_gate s id ≡ ok (h, w)
      → get s.handles id ≡ some (h, w)
  unfolding handle_gate
  handle_gate_lem s id h w p =
      ground (arith, p, Option-cases (get s.handles id), Option-cases (get s.gates id))

  -- Exactly the open handles have a gate. An open handle has the bookkeeping of a transaction exactly
  -- if it has a transaction. Exactly one open file is held for an open handle, and none for any other
  -- id. There are at most `limit` handles, each for a path of its own.
  pub record IsConsistent (limit : ℕ) (s : State e) : Type 0 where
    pub gated : (id : ℕ) → contains_key s.gates id ≡ contains_key s.handles id
    pub tracked :
        (id : ℕ)
        → contains_key s.handles id ≡ true
        → contains_key s.transaction_schema id ≡ has_transaction (get s.handles id)
    pub claimed : (id : ℕ) → owners s.identities id ≡ (if contains_key s.handles id then 1 else 0)
    pub bounded : length s.handles ≤ limit
    pub distinct : are_distinct s.handles ≡ true

module _ {e : Engine} {limit : ℕ} where
  pub put_worker-IsConsistent :
      (s : State e) (id : ℕ) (w : Worker e)
      → IsConsistent limit s
      → IsConsistent limit (put_worker s id w)
  unfolding put_worker contains_key
  put_worker-IsConsistent s id w c =
      let g : Handle × Worker e → Handle × Worker e = λ entry. (entry.0, w) in
      record {
        gated = λ j. ground (arith, c.gated j, get-modify s.handles id j g);
        tracked = λ j here.
            ground (
              arith,
              here,
              c.tracked j,
              get-modify s.handles id j g,
              Option-cases (get s.handles j),
            );
        claimed = λ j. ground (arith, c.claimed j, get-modify s.handles id j g);
        bounded = ground (arith, c.bounded, length-modify s.handles id g);
        distinct = are_distinct-modify s.handles id g (λ p. refl) ∙ c.distinct;
      }

  pub end_transaction-IsConsistent :
      (s : State e) (id : ℕ) (f : Handle → Handle)
      → ((h : Handle) → (f h).transaction_id ≡ none)
      → ((tx : Option (TransactionSchemaState e)) (h : Handle) → (f (restore tx h)).path ≡ h.path)
      → IsConsistent limit s
      → IsConsistent limit (end_transaction s id f)
  unfolding end_transaction contains_key
  end_transaction-IsConsistent s id f closes keeps c =
      let tx = get s.transaction_schema id in
      let g : Handle × Worker e → Handle × Worker e = λ entry. (f (restore tx entry.0), entry.1) in
      record {
        gated = λ j. ground (arith, c.gated j, get-modify s.handles id j g);
        tracked = λ j here. ground (
          arith,
          here,
          c.tracked j,
          get-modify s.handles id j g,
          get-remove s.transaction_schema id j,
          closed_entry g (get s.handles j) (λ p. closes (restore tx p.0)),
          Option-cases (get s.handles j),
        );
        claimed = λ j. ground (arith, c.claimed j, get-modify s.handles id j g);
        bounded = ground (arith, c.bounded, length-modify s.handles id g);
        distinct = are_distinct-modify s.handles id g (λ p. keeps tx p.0) ∙ c.distinct;
      }

  pub invalidate_handle-IsConsistent :
      (s : State e) (id : ℕ) → IsConsistent limit s → IsConsistent limit (invalidate_handle s id)
  unfolding invalidate_handle contains_key
  invalidate_handle-IsConsistent s id c = record {
    gated = λ j. ground (arith, c.gated j, get-remove s.handles id j, get-remove s.gates id j);
    tracked = λ j here.
        ground (
          arith,
          here,
          c.tracked j,
          get-remove s.handles id j,
          get-remove s.transaction_schema id j,
        );
    claimed = λ j.
        ground
          (arith, c.claimed j, get-remove s.handles id j, owners-remove_value s.identities id j);
    bounded = ground (arith, c.bounded, length-remove-le s.handles id);
    distinct = are_distinct-remove s.handles id c.distinct;
  }

  pub drop_handle-IsConsistent :
      (s : State e) (id : ℕ) → IsConsistent limit s → IsConsistent limit (drop_handle e s id)
  unfolding drop_handle contains_key
  drop_handle-IsConsistent s id c = record {
    gated = λ j. ground (arith, c.gated j, get-remove s.handles id j, get-remove s.gates id j);
    tracked = λ j here. ground (arith, here, c.tracked j, get-remove s.handles id j);
    claimed = λ j.
        ground
          (arith, c.claimed j, get-remove s.handles id j, owners-remove_value s.identities id j);
    bounded = ground (arith, c.bounded, length-remove-le s.handles id);
    distinct = are_distinct-remove s.handles id c.distinct;
  }

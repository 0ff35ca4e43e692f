-- ===== src/Core/Publish.antt =====
-- core.rs: what the operations publish keeps the registry consistent.
use sqlite_mcp.Prelude.{
  ℕ, ◌<◌, ◌≡◌, refl, ◌∙◌, false, none, some, arith, ==_iff, Option-cases, length,
}
use sqlite_mcp.Prelude.Int.{ℤ}
use sqlite_mcp.Prelude.Table.{get, insert, contains_key, modify}
use sqlite_mcp.Sqlite.{Engine}
use sqlite_mcp.Operation.{TransactionMode}
use sqlite_mcp.Worker.Error.{WorkerError}
use sqlite_mcp.Worker.State.{Worker}
use sqlite_mcp.Worker.Commit.{CommitOutcome}
use sqlite_mcp.Core.State.{
  Handle, TransactionSchemaState, State, clear_transaction, expire, put_handle, end_transaction,
}
use sqlite_mcp.Prelude.Table.{get-modify, get-remove, get-insert}
use sqlite_mcp.Core.Begin.{fresh_transaction, publish_begin, fail_begin}
use sqlite_mcp.Core.Rollback.{fail_rollback}
use sqlite_mcp.Core.Commit.{committed, unconfirmed, confirmed, publish_commit, is_pending}
use sqlite_mcp.Core.Schema.{observe, publish_schema}
use sqlite_mcp.Core.Distinct.{owners-insert, are_distinct, are_distinct-modify, are_distinct-remove}
use sqlite_mcp.Prelude.Table.{length-modify, length-remove-le}
use sqlite_mcp.Core.Open.{path_is_open, insert_handle}
use sqlite_mcp.Core.Registry.{
  IsConsistent, closed_entry, restore-path, end_transaction-IsConsistent,
  invalidate_handle-IsConsistent,
}
use sqlite_mcp.Core.Distinct.{path_is_open-remove}
use sqlite_mcp.Core.Commit.{is_pending}

module _ {e : Engine} {limit : ℕ} where
  pub expired-IsConsistent :
      (s : State e) (id : ℕ)
      → IsConsistent limit s
      → IsConsistent limit (end_transaction s id expire)
  expired-IsConsistent s id c =
      end_transaction-IsConsistent s id expire (λ h. refl) (λ tx h. restore-path tx h) c

  pub cleared-IsConsistent :
      (s : State e) (id : ℕ)
      → IsConsistent limit s
      → IsConsistent limit (end_transaction s id clear_transaction)
  cleared-IsConsistent s id c =
      end_transaction-IsConsistent s id clear_transaction (λ h. refl) (λ tx h. restore-path tx h) c

  pub publish_begin-IsConsistent :
      (s : State e) (id : ℕ) (h : Handle) (live : ℤ) (mode : TransactionMode) (fresh : ℕ)
      → IsConsistent limit s
      → IsConsistent limit (publish_begin e s id h live mode fresh).1
  unfolding publish_begin put_handle contains_key
  publish_begin-IsConsistent s id h live mode fresh c =
      let g : Handle × Worker e → Handle × Worker e = λ entry.
        (record entry.0 { transaction_id = some fresh; transaction_mode = some mode }, entry.1) in
      record {
        gated = λ j. ground (arith, c.gated j, get-modify s.handles id j g);
        tracked = λ j here. ground (
          arith,
          here,
          c.tracked j,
          get-modify s.handles id j g,
          get-insert s.transaction_schema id j (fresh_transaction e h live),
          Option-cases (get s.handles j),
        );
        claimed = λ j. ground (arith, c.claimed j, get-modify s.handles id j g);
        bounded = ground (arith, c.bounded, length-modify s.handles id g);
        distinct = are_distinct-modify s.handles id g (λ p. refl) ∙ c.distinct;
      }

  pub fail_begin-IsConsistent :
      (s : State e) (id : ℕ) (x : WorkerError)
      → IsConsistent limit s
      → IsConsistent limit (fail_begin e s id x).1
  unfolding fail_begin
  fail_begin-IsConsistent s id x c = ground (arith, c, invalidate_handle-IsConsistent s id c)

  pub fail_rollback-IsConsistent :
      (s : State e) (id : ℕ) (x : WorkerError)
      → IsConsistent limit s
      → IsConsistent limit (fail_rollback e s id x).1
  unfolding fail_rollback
  fail_rollback-IsConsistent s id x c =
      let closed = expired-IsConsistent s id c in
      ground (
        arith,
        c,
        closed,
        invalidate_handle-IsConsistent s id c,
        invalidate_handle-IsConsistent (end_transaction s id expire) id closed,
      )

  confirmed-IsConsistent :
      (s : State e) (id : ℕ) (o : CommitOutcome)
      → IsConsistent limit s
      → IsConsistent limit (confirmed e s id o).1
  unfolding confirmed put_handle contains_key committed
  confirmed-IsConsistent s id o c =
      let pending = is_pending (get s.transaction_schema id) in
      let g : Handle × Worker e → Handle × Worker e =
        λ entry. (committed pending entry.0, entry.1) in
      record {
        gated = λ j. ground (arith, c.gated j, get-modify s.handles id j g);
        tracked = λ j here. ground (
          arith,
          here,
          c.tracked j,
          get-modify s.handles id j g,
          get-remove s.transaction_schema id j,
          closed_entry g (get s.handles j) (λ p. refl),
          Option-cases (get s.handles j),
        );
        claimed = λ j. ground (arith, c.claimed j, get-modify s.handles id j g);
        bounded = ground (arith, c.bounded, length-modify s.handles id g);
        distinct = are_distinct-modify s.handles id g (λ p. refl) ∙ c.distinct;
      }

  pub publish_commit-IsConsistent :
      (s : State e) (id : ℕ) (o : CommitOutcome)
      → IsConsistent limit s
      → IsConsistent limit (publish_commit e s id o).1
  unfolding publish_commit unconfirmed
  publish_commit-IsConsistent s id o c = ground (
    arith,
    c,
    expired-IsConsistent s id c,
    cleared-IsConsistent s id c,
    confirmed-IsConsistent s id o c,
    invalidate_handle-IsConsistent s id c,
  )

  observed-IsConsistent :
      (s : State e) (id : ℕ) (version : ℤ)
      → IsConsistent limit s
      → IsConsistent limit (put_handle s id (observe e version))
  unfolding put_handle contains_key
  observed-IsConsistent s id version c =
      let g : Handle × Worker e → Handle × Worker e =
        λ entry. (observe e version entry.0, entry.1) in
      record {
        gated = λ j. ground (arith, c.gated j, get-modify s.handles id j g);
        tracked = λ j here.
            ground (
              arith,
              here,
              c.tracked j,
              get-modify s.handles id j g,
              Option-cases (get s.handles j),
            );
        claimed = λ j. ground (arith, c.claimed j, get-modify s.handles id j g);
        bounded = ground (arith, c.bounded, length-modify s.handles id g);
        distinct = are_distinct-modify s.handles id g (λ p. refl) ∙ c.distinct;
      }

  -- A write to the bookkeeping of a transaction.
  pub modify-IsConsistent :
      (s : State e) (id : ℕ) (g : TransactionSchemaState e → TransactionSchemaState e)
      → IsConsistent limit s
      → IsConsistent limit (record s { transaction_schema = modify s.transaction_schema id g })
  unfolding contains_key
  modify-IsConsistent s id g c = record {
    gated = c.gated;
    tracked = λ j here. ground (
      arith,
      here,
      c.tracked j here,
      get-modify s.transaction_schema id j g,
      Option-cases (get s.transaction_schema j),
    );
    claimed = c.claimed;
    bounded = c.bounded;
    distinct = c.distinct;
  }

  pub publish_schema-IsConsistent :
      (s : State e) (id : ℕ) (schema : e.Schema)
      → IsConsistent limit s
      → IsConsistent limit (publish_schema e s id schema).1
  unfolding publish_schema contains_key
  publish_schema-IsConsistent s id schema c = ground (
    arith,
    c,
    modify-IsConsistent s id (λ tx. record tx { overlay = some schema }) c,
    observed-IsConsistent s id (e.cookie schema) c,
  )

  pub insert_handle-IsConsistent :
      (s : State e) (h : Handle) (w : Worker e) (identity : ℕ)
      → IsConsistent limit s
      → h.transaction_id ≡ none
      → contains_key s.transaction_schema h.id ≡ false
      → contains_key s.handles h.id ≡ false
      → contains_key s.identities identity ≡ false
      → path_is_open e h.path s.handles ≡ false
      → length s.handles < limit
      → IsConsistent limit (insert_handle e s h w identity)
  unfolding insert_handle contains_key insert are_distinct
  insert_handle-IsConsistent s h w identity c closed fresh new_id free unopened room = record {
    gated = λ j.
        ground (arith, c.gated j, get-insert s.handles h.id j (h, w), get-insert s.gates h.id j tt);
    tracked = λ j here. ground (
      arith,
      here,
      c.tracked j,
      fresh,
      closed,
      ==_iff h.id j,
      get-insert s.handles h.id j (h, w),
    );
    claimed = λ j. ground (
      arith,
      c.claimed j,
      new_id,
      ==_iff h.id j,
      get-insert s.handles h.id j (h, w),
      owners-insert s.identities identity h.id j free,
    );
    bounded = ground (arith, room, length-remove-le s.handles h.id);
    distinct = ground (
      arith,
      path_is_open-remove h.path s.handles h.id unopened,
      are_distinct-remove s.handles h.id c.distinct,
    );
  }

-- ===== src/Core/Entry.antt =====
-- core.rs: the entry of a handle behind each step of the registry.
use sqlite_mcp.Prelude.{ℕ, ◌≡◌, none, some, arith, ==_iff}
use sqlite_mcp.Prelude.Table.{get}
use sqlite_mcp.Sqlite.{Engine}
use sqlite_mcp.Worker.State.{Worker}
use sqlite_mcp.Worker.Commit.{CommitOutcome}
use sqlite_mcp.Core.State.{
  Handle, State, restore, put_worker, put_handle, end_transaction, invalidate_handle,
}
use sqlite_mcp.Prelude.Table.{get-modify, get-remove}
use sqlite_mcp.Core.Commit.{committed, confirmed, is_pending}
use sqlite_mcp.Core.Commit.{is_pending}

module _ (e : Engine) where
  pub get-end_transaction :
      (s : State e) (id : ℕ) (f : Handle → Handle) (h : Handle) (w : Worker e)
      → get s.handles id ≡ some (h, w)
      → get (end_transaction s id f).handles id
        ≡ some (f (restore (get s.transaction_schema id) h), w)
  unfolding end_transaction
  get-end_transaction s id f h w there = ground (
    arith,
    there,
    get-modify s.handles id id
        (λ entry. (f (restore (get s.transaction_schema id) entry.0), entry.1)),
    ==_iff id id,
  )

  pub get-invalidate_handle :
      (s : State e) (id : ℕ) → get (invalidate_handle s id).handles id ≡ none
  unfolding invalidate_handle
  get-invalidate_handle s id = ground (arith, get-remove s.handles id id, ==_iff id id)

  pub get-confirmed :
      (s : State e) (id : ℕ) (o : CommitOutcome) (h : Handle) (w : Worker e)
      → get s.handles id ≡ some (h, w)
      → get (confirmed e s id o).1.handles id
        ≡ some (committed (is_pending (get s.transaction_schema id)) h, w)
  unfolding confirmed put_handle
  get-confirmed s id o h w there = ground (
    arith,
    there,
    get-modify s.handles id id
        (λ entry. (committed (is_pending (get s.transaction_schema id)) entry.0, entry.1)),
    ==_iff id id,
  )

  pub get-put_worker :
      (s : State e) (id : ℕ) (h : Handle) (w w' : Worker e)
      → get s.handles id ≡ some (h, w)
      → get (put_worker s id w').handles id ≡ some (h, w')
  unfolding put_worker
  get-put_worker s id h w w' there =
      ground (arith, there, get-modify s.handles id id (λ entry. (entry.0, w')), ==_iff id id)

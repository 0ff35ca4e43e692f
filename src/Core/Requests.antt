-- ===== src/Core/Requests.antt =====
-- core.rs: a run of requests to the registry, and what holds in every state that it reaches.
use sqlite_mcp.Core.Query.Consistent.{
  query-IsConsistent, query_batch-IsConsistent, execute_sql_file-IsConsistent,
}
use sqlite_mcp.Policy.Cursor.{Unicode}
use sqlite_mcp.Core.Query.Calls.{SqlFile, query, query_batch, execute_sql_file}
use sqlite_mcp.Core.Query.Statement.{Statements}
use sqlite_mcp.Sql.{Formats, Cell}
use sqlite_mcp.Prelude.Text.{Text}
use sqlite_mcp.Prelude.{ℕ, ◌≡◌, refl, Bool, true, not, ◌&&◌, Option, List, [], ◌∷◌, arith}
use sqlite_mcp.Prelude.Table.{get, contains_key}
use sqlite_mcp.Sqlite.{Engine}
use sqlite_mcp.Worker.State.{Observed}
use sqlite_mcp.Worker.Commit.{CommitFault}
use sqlite_mcp.Core.State.{State}
use sqlite_mcp.Core.Rollback.{rollback_admitted, expire_admitted}
use sqlite_mcp.Core.Commit.{commit_admitted}
use sqlite_mcp.Core.Schema.{get_schema_admitted}
use sqlite_mcp.Core.Distinct.{are_distinct, owners}
use sqlite_mcp.Core.Open.{open_database, close_database}
use sqlite_mcp.Core.Registry.{IsConsistent}
use sqlite_mcp.Core.Open.{OpenFacts}
use sqlite_mcp.Core.Begin.{begin_transaction}
use sqlite_mcp.Config.{Config}
use Prim.Native.String.{String}
use sqlite_mcp.Core.Preserve.{
  open_database-IsConsistent, close_database-IsConsistent, begin_transaction-IsConsistent,
  rollback_admitted-IsConsistent, expire_admitted-IsConsistent, commit_admitted-IsConsistent,
  get_schema-IsConsistent,
}

-- An operation on the registry but the shutdown, with what it reads of its environment.
pub data Request (e : Engine) : Type 0 where
  open' : Bool → OpenFacts e → Request e
  close : ℕ → Bool → Option Bool → Request e
  begin : ℕ → String → ℕ → Observed → Request e
  rollback' : ℕ → Bool → Bool → ℕ → ℕ → Request e
  expire' : ℕ → Bool → Request e
  commit' : ℕ → Option CommitFault → ℕ → Request e
  get_schema : ℕ → Bool → Observed → Request e
  query' : ℕ → Bool → Text → List Cell → Observed → Observed → Request e
  query_batch' : ℕ → Bool → Text → Observed → Observed → Request e
  execute_sql_file' : ℕ → Bool → SqlFile → Observed → Observed → Request e

module _ (e : Engine) where
  unfoldable pub empty : State e
  empty = record { handles = []; transaction_schema = []; identities = []; gates = [] }

  -- The id of an open is that of no handle, and no bookkeeping of a transaction is left of it.
  abbrev pub is_fresh : State e → Request e → Bool
  is_fresh s (open' readonly facts) =
      not (contains_key s.transaction_schema facts.fresh)
      && not (contains_key s.handles facts.fresh)
  is_fresh s _ = true

module _ (e : Engine) (f : Formats) (q : Statements e f) (u : Unicode) (config : Config) where
  unfoldable pub perform : State e → Request e → State e
  unfolding open_database close_database begin_transaction rollback_admitted expire_admitted
      commit_admitted get_schema_admitted query query_batch execute_sql_file
  perform s (open' readonly facts) = (open_database e s config readonly facts).1
  perform s (close id injected joined) = (close_database e s id injected joined).1
  perform s (begin id mode fresh o) = (begin_transaction e s id mode fresh o).1
  perform s (rollback' id injected fault now now_after) =
      (rollback_admitted e s id injected fault now now_after).1
  perform s (expire' id injected) = (expire_admitted e s id injected).1
  perform s (commit' id fault now) = (commit_admitted e s id fault now).1
  perform s (get_schema id injected o) =
      (get_schema_admitted e s id config.schema_byte_limit injected o).1
  perform s (query' id injected sql params o o') =
      (query e f q u config s id injected sql params o o').1
  perform s (query_batch' id injected sql o o') =
      (query_batch e f q u config s id injected sql o o').1
  perform s (execute_sql_file' id injected file o o') =
      (execute_sql_file e f q u config s id injected file o o').1

  unfoldable pub perform_all : State e → List (Request e) → State e
  unfolding perform
  perform_all s [] = s
  perform_all s (r ∷ rs) = perform_all (perform s r) rs

  -- The id of each open of a run is new when it is made.
  unfoldable pub are_fresh : State e → List (Request e) → Bool
  unfolding perform
  are_fresh s [] = true
  are_fresh s (r ∷ rs) = is_fresh e s r && are_fresh (perform s r) rs

  empty-IsConsistent : IsConsistent config.max_handles (empty e)
  unfolding empty are_distinct contains_key get owners
  empty-IsConsistent = record {
    gated = λ id. refl;
    tracked = λ id here. refl;
    claimed = λ id. refl;
    bounded = omega arith;
    distinct = refl;
  }

  perform-IsConsistent :
      (s : State e) (r : Request e)
      → IsConsistent config.max_handles s
      → is_fresh e s r ≡ true
      → IsConsistent config.max_handles (perform s r)
  unfolding perform
  perform-IsConsistent s (open' readonly facts) c fresh' =
      open_database-IsConsistent e config s readonly facts c (ground (arith, fresh'))
        (ground (arith, fresh'))
  perform-IsConsistent s (close id injected joined) c fresh' =
      close_database-IsConsistent e config s id injected joined c
  perform-IsConsistent s (begin id mode fresh o) c fresh' =
      begin_transaction-IsConsistent e config s id mode fresh o c
  perform-IsConsistent s (rollback' id injected fault now now_after) c fresh' =
      rollback_admitted-IsConsistent e config s id injected fault now now_after c
  perform-IsConsistent s (expire' id injected) c fresh' =
      expire_admitted-IsConsistent e config s id injected c
  perform-IsConsistent s (commit' id fault now) c fresh' =
      commit_admitted-IsConsistent e config s id fault now c
  perform-IsConsistent s (get_schema id injected o) c fresh' =
      get_schema-IsConsistent e config s id injected o c
  perform-IsConsistent s (query' id injected sql params o o') c fresh' =
      query-IsConsistent f q u config s id injected sql params o o' c
  perform-IsConsistent s (query_batch' id injected sql o o') c fresh' =
      query_batch-IsConsistent f q u config s id injected sql o o' c
  perform-IsConsistent s (execute_sql_file' id injected file o o') c fresh' =
      execute_sql_file-IsConsistent f q u config s id injected file o o' c

  run-IsConsistent :
      (s : State e) (rs : List (Request e))
      → IsConsistent config.max_handles s
      → are_fresh s rs ≡ true
      → IsConsistent config.max_handles (perform_all s rs)
  unfolding perform_all are_fresh
  run-IsConsistent s [] c a = c
  run-IsConsistent s (r ∷ rs) c a =
      run-IsConsistent (perform s r) rs (perform-IsConsistent s r c (ground (arith, a)))
        (ground (arith, a))

  -- Whatever requests other than a shutdown are made of an empty registry, in whatever circumstances,
  -- if no open takes the id of an open handle or of bookkeeping that is left: exactly the open handles
  -- have a gate, an open handle has the bookkeeping of a transaction exactly if it has a transaction,
  -- exactly one open file is held for each open handle and none for any other id, there are at most
  -- `max_handles` handles, and no two of them are for the same path.
  pub requests-IsConsistent :
      (rs : List (Request e))
      → are_fresh (empty e) rs ≡ true
      → IsConsistent config.max_handles (perform_all (empty e) rs)
  requests-IsConsistent rs a = run-IsConsistent (empty e) rs empty-IsConsistent a

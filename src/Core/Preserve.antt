-- ===== src/Core/Preserve.antt =====
-- core.rs: each operation, whatever it meets, keeps the registry consistent.
use sqlite_mcp.Prelude.{
  ℕ, ◌<◌, ◌≡◌, refl, inl, inr, Bool, false, Option, arith, if◌then◌else◌, Result-cases, ok, length,
}
use sqlite_mcp.Prelude.Text.{Text}
use sqlite_mcp.Prelude.Table.{contains_key}
use sqlite_mcp.Sqlite.{Engine}
use sqlite_mcp.Operation.{TransactionMode}
use sqlite_mcp.Worker.State.{Worker, Observed}
use sqlite_mcp.Worker.Run.{run}
use sqlite_mcp.Worker.Commit.{CommitFault, run_commit}
use sqlite_mcp.Worker.Control.{run_control, run_expire}
use sqlite_mcp.Core.State.{new_handle, State, handle_gate, put_worker}
use sqlite_mcp.Core.Begin.{begin_job, check_begin, is_immediate, begin_admitted, parse_mode}
use sqlite_mcp.Core.Rollback.{rollback_job, rollback_admitted, expire_admitted}
use sqlite_mcp.Core.Commit.{commit_admitted}
use sqlite_mcp.Core.Schema.{schema_job, get_schema_admitted}
use sqlite_mcp.Core.Open.{path_is_open, insert_handle, open_database, close_database}
use sqlite_mcp.Core.Registry.{
  IsConsistent, put_worker-IsConsistent, invalidate_handle-IsConsistent, drop_handle-IsConsistent,
}
use sqlite_mcp.Core.Open.{OpenFacts, check_file, check_registry}
use sqlite_mcp.Core.Begin.{begin_transaction}
use sqlite_mcp.Core.Publish.{
  publish_begin-IsConsistent, fail_begin-IsConsistent, fail_rollback-IsConsistent,
  publish_commit-IsConsistent, publish_schema-IsConsistent, insert_handle-IsConsistent,
  expired-IsConsistent, cleared-IsConsistent,
}
use sqlite_mcp.Config.{Config}
use Prim.Native.String.{String}

module _ (e : Engine) (config : Config) where
  -- A handle that passes the checks of the registry has room and a path of its own.
  check_registry_lem :
      (s : State e) (path : Text) (identity : ℕ)
      → check_registry e s config path identity ≡ ok tt
      → (path_is_open e path s.handles ≡ false)
        × (contains_key s.identities identity ≡ false)
        × (length s.handles < config.max_handles)
  unfolding check_registry
  check_registry_lem s path identity p = ground (arith, p)

  opened-IsConsistent :
      (s : State e) (path mode : Text) (readonly : Bool) (identity fresh : ℕ) (w : Worker e)
      → IsConsistent config.max_handles s
      → contains_key s.transaction_schema fresh ≡ false
      → contains_key s.handles fresh ≡ false
      → check_registry e s config path identity ≡ ok tt
      → IsConsistent config.max_handles
          (insert_handle e s (new_handle fresh path readonly mode) w identity)
  unfolding new_handle
  opened-IsConsistent s path mode readonly identity fresh w c f new_id p =
      let (unopened, free, room) = check_registry_lem s path identity p in
      insert_handle-IsConsistent s (new_handle fresh path readonly mode) w identity c refl f new_id
        free unopened room

  pub open_database-IsConsistent :
      (s : State e) (readonly : Bool) (f : OpenFacts e)
      → IsConsistent config.max_handles s
      → contains_key s.transaction_schema f.fresh ≡ false
      → contains_key s.handles f.fresh ≡ false
      → IsConsistent config.max_handles (open_database e s config readonly f).1
  unfolding open_database
  open_database-IsConsistent s readonly f c fresh new_id =
      elim (Result-cases (check_file readonly f)) [
        | inr (x, p) ↦ ground (arith, c, p)
        | inl ((path, mode), p) ↦ elim (Result-cases (check_registry e s config path f.identity)) [
          | inr (x, q) ↦ ground (arith, c, p, q)
          | inl (passed, q) ↦
              let idle =
                if readonly then config.readonly_idle_seconds else config.writable_idle_seconds in
              elim (Result-cases (f.started idle)) [
                | inr (x, r) ↦ ground (arith, c, p, q, r)
                | inl (w, r) ↦ ground (
                  arith,
                  p,
                  q,
                  r,
                  opened-IsConsistent s path mode readonly f.identity f.fresh w c fresh new_id q,
                )
              ]
        ]
      ]

  pub close_database-IsConsistent :
      (s : State e) (id : ℕ) (injected : Bool) (joined : Option Bool)
      → IsConsistent config.max_handles s
      → IsConsistent config.max_handles (close_database e s id injected joined).1
  unfolding close_database
  close_database-IsConsistent s id injected joined c =
      ground (arith, c, invalidate_handle-IsConsistent s id c)

  begin_admitted-IsConsistent :
      (s : State e) (id : ℕ) (mode : TransactionMode) (fresh : ℕ) (o : Observed)
      → IsConsistent config.max_handles s
      → IsConsistent config.max_handles (begin_admitted e s id mode fresh o).1
  unfolding begin_admitted
  begin_admitted-IsConsistent s id mode fresh o c = elim (Result-cases (handle_gate s id)) [
    | inr (x, p) ↦ ground (arith, c, p)
    | inl ((h, w), p) ↦ elim (Result-cases (check_begin h (is_immediate mode))) [
      | inr (x, q) ↦ ground (arith, c, p, q)
      | inl (passed, q) ↦
          let (reply, w') = run e w (begin_job e (is_immediate mode) h.schema_version) o in
          let served = put_worker-IsConsistent s id w' c in
          elim (Result-cases reply) [
            | inl (live, r) ↦ ground (
              arith,
              p,
              q,
              r,
              publish_begin-IsConsistent (put_worker s id w') id h live mode fresh served,
            )
            | inr (x, r) ↦
                ground (arith, p, q, r, fail_begin-IsConsistent (put_worker s id w') id x served)
          ]
    ]
  ]

  pub begin_transaction-IsConsistent :
      (s : State e) (id : ℕ) (mode : String) (fresh : ℕ) (o : Observed)
      → IsConsistent config.max_handles s
      → IsConsistent config.max_handles (begin_transaction e s id mode fresh o).1
  unfolding begin_transaction
  begin_transaction-IsConsistent s id mode fresh o c = elim (Result-cases (parse_mode mode)) [
    | inr (x, p) ↦ ground (arith, c, p)
    | inl (m, p) ↦ ground (arith, p, begin_admitted-IsConsistent s id m fresh o c)
  ]

  pub rollback_admitted-IsConsistent :
      (s : State e) (id : ℕ) (injected fault : Bool) (now now_after : ℕ)
      → IsConsistent config.max_handles s
      → IsConsistent config.max_handles (rollback_admitted e s id injected fault now now_after).1
  unfolding rollback_admitted
  rollback_admitted-IsConsistent s id injected fault now now_after c =
      elim (Result-cases (handle_gate s id)) [
        | inr (x, p) ↦ ground (arith, c, p)
        | inl ((h, w), p) ↦
            let (reply, w') = run_control e w (rollback_job e injected) fault now now_after in
            let served = put_worker-IsConsistent s id w' c in
            elim (Result-cases reply) [
              | inl (done, r) ↦
                  ground (arith, p, r, cleared-IsConsistent (put_worker s id w') id served)
              | inr (x, r) ↦
                  ground (arith, p, r, fail_rollback-IsConsistent (put_worker s id w') id x served)
            ]
      ]

  pub expire_admitted-IsConsistent :
      (s : State e) (id : ℕ) (injected : Bool)
      → IsConsistent config.max_handles s
      → IsConsistent config.max_handles (expire_admitted e s id injected).1
  unfolding expire_admitted
  expire_admitted-IsConsistent s id injected c = elim (Result-cases (handle_gate s id)) [
    | inr (x, p) ↦ ground (arith, c, p)
    | inl ((h, w), p) ↦
        let w' = (run_expire e w injected).1 in
        let served = put_worker-IsConsistent s id w' c in
        ground (arith, p, served, expired-IsConsistent (put_worker s id w') id served)
  ]

  pub commit_admitted-IsConsistent :
      (s : State e) (id : ℕ) (fault : Option CommitFault) (now : ℕ)
      → IsConsistent config.max_handles s
      → IsConsistent config.max_handles (commit_admitted e s id fault now).1
  unfolding commit_admitted
  commit_admitted-IsConsistent s id fault now c = elim (Result-cases (handle_gate s id)) [
    | inr (x, p) ↦ ground (arith, c, p)
    | inl ((h, w), p) ↦
        let (o, w') = run_commit e w fault now in
        let served = put_worker-IsConsistent s id w' c in
        ground (arith, c, p, publish_commit-IsConsistent (put_worker s id w') id o served)
  ]

  pub get_schema-IsConsistent :
      (s : State e) (id : ℕ) (injected : Bool) (o : Observed)
      → IsConsistent config.max_handles s
      → IsConsistent config.max_handles
          (get_schema_admitted e s id config.schema_byte_limit injected o).1
  unfolding get_schema_admitted
  get_schema-IsConsistent s id injected o c = elim (Result-cases (handle_gate s id)) [
    | inr (x, p) ↦ ground (arith, c, p)
    | inl ((h, w), p) ↦
        let (reply, w') = run e w (schema_job e injected) o in
        let served = put_worker-IsConsistent s id w' c in
        elim (Result-cases reply) [
          | inl (schema, r) ↦ ground (
            arith,
            p,
            r,
            served,
            publish_schema-IsConsistent (put_worker s id w') id schema served,
          )
          | inr (x, r) ↦
              ground (arith, p, r, served, drop_handle-IsConsistent (put_worker s id w') id served)
        ]
  ]

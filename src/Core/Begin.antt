-- ===== src/Core/Begin.antt =====
-- core.rs: `begin_transaction`. The fresh transaction id and what the worker reads are arguments.
use sqlite_mcp.Prelude.{
  ℕ, Bool, true, false, not, ◌&&◌, ◌||◌, none, some, if◌then◌else◌, is_some, Result, ok, err, ◌>>◌,
  fail_if,
}
use sqlite_mcp.Prelude.Text.{codes}
use sqlite_mcp.Prelude.Int.{ℤ, ◌==ℤ◌}
use sqlite_mcp.Prelude.Table.{get, insert}
use sqlite_mcp.Sqlite.{Engine, begin_deferred, begin_immediate, rollback}
use sqlite_mcp.Operation.{TransactionMode, deferred, immediate, exclusive, parse}
use sqlite_mcp.Worker.Error.{WorkerError, message}
use sqlite_mcp.Worker.State.{Session, Job, Observed}
use sqlite_mcp.Worker.Run.{run}
use sqlite_mcp.Core.Error.{
  CoreError, says_invalidated, says_stale, classify_worker_error, unknown_handle,
}
use sqlite_mcp.Core.State.{
  Handle, TransactionSchemaState, State, handle_gate, put_worker, put_handle, invalidate_handle,
}
use Prim.Native.String.{String}

-- `TransactionMode::parse(mode).filter(…)`.
unfoldable pub parse_mode : String → Result TransactionMode CoreError
parse_mode mode = elim (parse mode) [
  | some deferred ↦ ok deferred
  | some immediate ↦ ok immediate
  | some exclusive ↦ err CoreError.invalid_transaction_mode
  | none ↦ err CoreError.invalid_transaction_mode
]

abbrev pub is_immediate : TransactionMode → Bool
is_immediate immediate = true
is_immediate _ = false

-- The checks on the registry, before the worker is asked.
unfoldable pub check_begin : Handle → Bool → Result (Unit {0}) CoreError
check_begin h now = do
  fail_if h.expired CoreError.transaction_expired
  fail_if (is_some h.transaction_id) CoreError.transaction_open
  fail_if (not h.schema_observed) CoreError.schema_required
  fail_if (now && h.readonly) CoreError.readonly_immediate

module _ (e : Engine) where
  abbrev pub at_conn : Session e → e.Conn → Session e
  at_conn s c = record s { conn = c }

  -- The job of a begin: the transaction, and the schema cookie that it sees.
  unfoldable pub begin_job : Bool → ℤ → Job e ℤ
  begin_job now expected s =
      let (r, c) = e.execute (if now then begin_immediate else begin_deferred) s.conn in
      let (r', c') = e.execute rollback c in
      elim r [
        | some x ↦ (err (WorkerError.sqlite x), at_conn s c)
        | none ↦ elim (e.schema_version c) [
          | err x ↦ (err (WorkerError.sqlite x), at_conn s c)
          | ok current ↦
              if current ==ℤ expected
              then (ok current, at_conn s c)
              else if is_some r' || not (e.is_autocommit c')
              then (err (message (codes "begin cleanup failed; handle invalidated")), at_conn s c')
              else (err (message (codes "SCHEMA_STALE")), at_conn s c')
        ]
      ]

  -- The bookkeeping of a transaction that has begun.
  unfoldable pub fresh_transaction : Handle → ℤ → TransactionSchemaState e
  fresh_transaction h live = record {
    pre_observed = h.schema_observed;
    pre_version = h.schema_version;
    pre_generation = h.observation_generation;
    expected_version = live;
    pending_schema_change = false;
    overlay = none;
  }

  -- The handle of an entry that is there.
  unfoldable pub handle_of : State e → ℕ → Result Handle CoreError
  handle_of s id = elim (get s.handles id) [ none ↦ err unknown_handle | some (h, w) ↦ ok h ]

  -- The publication of a begin.
  unfoldable pub publish_begin :
      State e → ℕ → Handle → ℤ → TransactionMode → ℕ → Result Handle CoreError × State e
  unfolding fresh_transaction put_handle handle_of
  publish_begin s id h live mode fresh =
      let tracked = record s {
        transaction_schema = insert s.transaction_schema id (fresh_transaction h live);
      } in
      let s' =
        put_handle tracked id
          (λ g. record g { transaction_id = some fresh; transaction_mode = some mode }) in
      (handle_of s' id, s')

  unfoldable pub fail_begin : State e → ℕ → WorkerError → Result Handle CoreError × State e
  unfolding invalidate_handle
  fail_begin s id x = if says_stale x then (err CoreError.schema_stale, s) else (
    err (classify_worker_error x false),
    if says_invalidated x then invalidate_handle s id else s,
  )

  -- `begin_admitted`.
  unfoldable pub begin_admitted :
      State e → ℕ → TransactionMode → ℕ → Observed → Result Handle CoreError × State e
  begin_admitted s id mode fresh o = elim (handle_gate s id) [
    | err x ↦ (err x, s)
    | ok (h, w) ↦ elim (check_begin h (is_immediate mode)) [
      | err x ↦ (err x, s)
      | ok _ ↦
          let (reply, w') = run e w (begin_job (is_immediate mode) h.schema_version) o in
          let s' = put_worker s id w' in
          elim reply [
            | ok live ↦ publish_begin s' id h live mode fresh
            | err x ↦ fail_begin s' id x
          ]
    ]
  ]

  -- `begin_transaction_with_ct`: the mode is parsed before anything else.
  unfoldable pub begin_transaction :
      State e → ℕ → String → ℕ → Observed → Result Handle CoreError × State e
  unfolding parse_mode begin_admitted
  begin_transaction s id mode fresh o = elim (parse_mode mode) [
    | err x ↦ (err x, s)
    | ok m ↦ begin_admitted s id m fresh o
  ]

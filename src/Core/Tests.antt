-- ===== src/Core/Tests.antt =====
-- The theorems on the registry at concrete inputs.
use sqlite_mcp.Core.Query.Sample.{simple, silent, ascii}
use sqlite_mcp.Prelude.{
  ℕ, ◌<◌, ◌≡◌, refl, Bool, true, false, ◌&&◌, Option, none, some, List, [], ◌∷◌, ok,
}
use sqlite_mcp.Core.Begin.{
  check_begin, begin_job, publish_begin, handle_of, begin_transaction, parse_mode,
  fresh_transaction,
}
use sqlite_mcp.Core.State.{put_worker, put_handle, end_transaction, restore, invalidate_handle}
use sqlite_mcp.Worker.Run.{run, before_job, serve, after_job, apply_policy}
use sqlite_mcp.Policy.Signal.{reset_for_request, clear_source}
use sqlite_mcp.Prelude.Table.{modify, insert, remove}
use sqlite_mcp.Worker.Commit.{run_commit}
use sqlite_mcp.Core.Commit.{publish_commit, confirmed}
use sqlite_mcp.Worker.Control.{run_control}
use sqlite_mcp.Core.Rollback.{rollback_job}
use sqlite_mcp.Worker.State.{idle_from}
use sqlite_mcp.Core.Requests.{perform}
use sqlite_mcp.Core.Schema.{get_schema_admitted, schema_job, end_managed, publish_schema}
use sqlite_mcp.Core.Open.{close_database, check_registry, insert_handle, close_reply}
use sqlite_mcp.Prelude.Int.{ℤ, ◌==ℤ◌}
use sqlite_mcp.Prelude.Text.{codes, text_eq}
use sqlite_mcp.Prelude.Table.{get, contains_key}
use sqlite_mcp.Sqlite.{begin_deferred, commit}
use sqlite_mcp.Sqlite.Sample.{sample}
use sqlite_mcp.Config.{Config, default}
use sqlite_mcp.Operation.{deferred, immediate}
use sqlite_mcp.Operation.Laws.{Sorted, status_of}
use sqlite_mcp.Worker.State.{Worker, autocommit}
use sqlite_mcp.Worker.Sample.{worker_at, calm}
use sqlite_mcp.Core.State.{Handle, new_handle, TransactionSchemaState, State, restore, handle_gate}
use sqlite_mcp.Core.Begin.{begin_admitted, is_immediate}
use sqlite_mcp.Core.Rollback.{rollback_admitted}
use sqlite_mcp.Core.Commit.{committed, commit_admitted}
use sqlite_mcp.Core.Open.{
  OpenFacts, magic, path_is_open, check_file, open_database, shutdown, list_handles,
}
use sqlite_mcp.Core.Registry.{IsConsistent}
use sqlite_mcp.Core.Requests.{
  Request, open', close, begin, commit', get_schema, query', empty, perform_all, are_fresh,
  requests-IsConsistent, perform,
}
use sqlite_mcp.Core.Lifecycle.{begun, begin_current}
use sqlite_mcp.Core.Synced.{is_synced, commit-IsSynced, commit_success, AfterCommit}
use sqlite_mcp.Core.Undo.{rollback_success, begin_rollback, AfterRollback}
use sqlite_mcp.Core.Reopen.{answer_of, shutdown_report}

-- The file of a good database, which is opened under an id.
abbrev facts : ℕ → OpenFacts sample
facts id = record {
  cancelled = false;
  path = ok (codes "/data/a.db");
  length = ok 4096;
  header = ok magic;
  connection = ok tt;
  schema_count = ok tt;
  db_readonly = ok none;
  journal_mode = ok (codes "wal");
  identity = 40;
  fresh = id;
  started = λ idle. ok (worker_at true);
}

abbrev initial : Config
initial = default

abbrev requests : List (Request sample)
requests =
    open' false (facts 1)
    ∷ get_schema 1 false calm
    ∷ begin 1 "immediate" 9 calm
    ∷ query' 1 false (codes "SELECT 1") [] calm calm
    ∷ commit' 1 none 100
    ∷ close 1 false (some true)
    ∷ []

requests-fresh :
    are_fresh sample simple (silent sample) ascii initial (empty sample) requests ≡ true
unfolding text_eq path_is_open after_job apply_policy are_fresh before_job begin_admitted begin_job
    begin_transaction check_begin check_file check_registry clear_source close_database close_reply
    commit_admitted committed confirmed contains_key empty end_managed get get_schema_admitted
    handle_gate handle_of insert insert_handle invalidate_handle modify new_handle open_database
    parse_mode perform perform_all publish_begin publish_commit publish_schema put_handle put_worker
    remove reset_for_request run run_commit schema_job serve
requests-fresh = refl

requests-IsConsistent_example :
    IsConsistent initial.max_handles
      (perform_all sample simple (silent sample) ascii initial (empty sample) requests)
requests-IsConsistent_example =
    requests-IsConsistent sample simple (silent sample) ascii initial requests requests-fresh

abbrev observed : Handle
observed = record (new_handle 1 (codes "/data/a.db") false (codes "wal")) {
  schema_observed = true;
  schema_version = ℤ.pos 7;
}

abbrev in_transaction : Handle
in_transaction = record observed { transaction_id = some 9; transaction_mode = some immediate }

abbrev tracked : TransactionSchemaState sample
tracked = record {
  pre_observed = true;
  pre_version = ℤ.pos 7;
  pre_generation = 0;
  expected_version = ℤ.pos 7;
  pending_schema_change = true;
  overlay = none;
}

abbrev idle : State sample
idle = record {
  handles = (1, (observed, worker_at true)) ∷ [];
  transaction_schema = [];
  identities = (40, 1) ∷ [];
  gates = (1, tt) ∷ [];
}

abbrev working : State sample
working = record idle {
  handles = (1, (in_transaction, worker_at false)) ∷ [];
  transaction_schema = (1, tracked) ∷ [];
}

idle-gate : handle_gate idle 1 ≡ ok (observed, worker_at true)
unfolding handle_gate get
idle-gate = refl

working-gate : handle_gate working 1 ≡ ok (in_transaction, worker_at false)
unfolding handle_gate get
working-gate = refl

abbrev begun_handle : Handle
begun_handle = record observed { transaction_id = some 9; transaction_mode = some deferred }

begins : (begin_admitted sample idle 1 deferred 9 calm).0 ≡ ok begun_handle
unfolding new_handle handle_gate get check_begin run before_job serve reset_for_request after_job
    apply_policy clear_source begin_job put_worker modify publish_begin put_handle insert remove
    handle_of begin_admitted
begins = refl

begin_current_example :
    (observed.expired ≡ false)
    × (observed.transaction_id ≡ none)
    × (observed.schema_observed ≡ true)
    × ((is_immediate deferred && observed.readonly) ≡ false)
    × ((sample.execute begin_deferred true).0 ≡ none)
    × ((live : ℤ) × (sample.schema_version (begun sample (worker_at true) deferred) ≡ ok live)
        × ((live ==ℤ observed.schema_version) ≡ true))
begin_current_example =
    begin_current sample idle 1 deferred 9 calm observed begun_handle (worker_at true) idle-gate
      begins

commit-IsSynced_example :
    is_synced sample (get (commit_admitted sample working 1 none 100).1.handles 1) ≡ true
unfolding new_handle
commit-IsSynced_example =
    commit-IsSynced sample working 1 none 100 in_transaction (worker_at false) working-gate refl
      (λ h. cc) refl

commits' : (commit_admitted sample working 1 none 100).0 ≡ ok (committed true in_transaction)
unfolding new_handle handle_gate get commit_admitted run_commit put_worker modify publish_commit
    confirmed committed remove put_handle handle_of
commits' = refl

commit_success_example :
    ((sample.execute commit false).0 ≡ none)
    × (autocommit (worker_at false) ≡ false)
    × (100 < 60000)
    × AfterCommit sample
        (get working.transaction_schema 1)
        in_transaction
        (committed true in_transaction)
    × (contains_key (commit_admitted sample working 1 none 100).1.transaction_schema 1 ≡ false)
commit_success_example =
    commit_success sample working 1 100 in_transaction (committed true in_transaction)
      (worker_at false) working-gate commits'

rolls_back : (rollback_admitted sample working 1 false false 100 110).0 ≡ ok observed
unfolding new_handle handle_gate get rollback_admitted run_control rollback_job put_worker modify
    end_transaction put_handle restore remove handle_of idle_from
rolls_back = refl

rollback_success_example :
    AfterRollback sample (get working.transaction_schema 1) in_transaction observed
    × ((w' : Worker sample) × (get
            (rollback_admitted sample working 1 false false 100 110).1.handles
            1
          ≡ some (observed, w'))
        × (autocommit w' ≡ true))
    × (contains_key (rollback_admitted sample working 1 false false 100 110).1.transaction_schema 1
        ≡ false)
rollback_success_example =
    rollback_success sample working 1 false false 100 110 in_transaction observed (worker_at false)
      working-gate rolls_back

rolls_back_begun :
    (rollback_admitted sample
      (begin_admitted sample idle 1 deferred 9 calm).1
      1
      false
      false
      100
      110).0
    ≡ ok observed
unfolding new_handle handle_gate get check_begin run before_job serve reset_for_request after_job
    apply_policy clear_source begin_job put_worker modify publish_begin put_handle insert remove
    handle_of begin_admitted rollback_admitted run_control rollback_job end_transaction restore
    idle_from fresh_transaction
rolls_back_begun = refl

begin_rollback_example : observed ≡ observed
unfolding new_handle
begin_rollback_example =
    begin_rollback sample idle 1 deferred 9 calm false false 100 110 observed begun_handle observed
      (worker_at true) idle-gate refl begins rolls_back_begun

abbrev never : ℕ → Bool
never id = false

abbrev joins : ℕ → Option Bool
joins id = some true

shutdown_report_example :
    Sorted 0 (shutdown sample working never joins).0.entries
    × (status_of 1 (shutdown sample working never joins).0.entries
        ≡ answer_of sample (get working.handles 1) false (some true))
    × (list_handles sample (shutdown sample working never joins).1 ≡ [])
shutdown_report_example = shutdown_report sample working never joins 1

good_file : check_file false (facts 2) ≡ ok (codes "/data/a.db", codes "wal")
unfolding check_file text_eq
good_file = refl

known_file : contains_key idle.identities 40 ≡ true
unfolding contains_key
known_file = refl

-- ===== src/Worker/Tests.antt =====
-- The theorems on the worker at concrete inputs.
use sqlite_mcp.Worker.Busy.{BusyState, Reading, retries, retries_bounded}
use sqlite_mcp.Worker.Limits.{
  LimitCalls, WorkerLimits, EffectiveLimits, Limit, length_limit, expr_depth, compound_select,
  variable_number, install_limits,
}
use sqlite_mcp.Worker.Installed.{install_limits_ok, IsInstalled, AreSeparate, is_same}
use sqlite_mcp.Prelude.Int.{pos, ℤ}
use sqlite_mcp.Sqlite.{rollback, Engine}
use sqlite_mcp.Sqlite.Sample.{sample, refusal}
use sqlite_mcp.Operation.{ShutdownStatus}
use sqlite_mcp.Worker.Error.{policy_denied}
use sqlite_mcp.Worker.State.{autocommit}
use sqlite_mcp.Worker.Run.{before_job, run}
use sqlite_mcp.Worker.Commit.{CommitFault, run_commit}
use sqlite_mcp.Worker.Control.{run_shutdown, finish_shutdown}
use sqlite_mcp.Worker.Sample.{worker_at, expired_worker, calm, cancelled_late, counting, failing}
use sqlite_mcp.Worker.Truth.{IsTruthful, run-IsTruthful, CommitTruth, run_commit-CommitTruth}
use sqlite_mcp.Worker.Interrupt.{started, lost_reply, run_closes}
use sqlite_mcp.Worker.Expiry.{
  Command, runs, controls, commits, expires, loop, Refuses, loop_expired,
}
use sqlite_mcp.Prelude.{
  ℕ, ◌+◌, ◌*◌, ◌<◌, ◌≡◌, refl, ◌⊎◌, true, false, none, some, List, [], ◌∷◌, arith, ok, err, All,
  if◌then◌else◌,
}

run-IsTruthful_example : IsTruthful sample (run sample (worker_at false) counting cancelled_late)
run-IsTruthful_example = run-IsTruthful sample (worker_at false) counting cancelled_late (λ s. refl)

run_commit-CommitTruth_example :
    let (o, w') = run_commit sample (worker_at false) (some CommitFault.uncertain) 100 in
    CommitTruth sample o w'.session.conn
run_commit-CommitTruth_example =
    run_commit-CommitTruth sample (worker_at false) (some CommitFault.uncertain) 100 (λ h. cc)

committing : (run_commit sample (worker_at false) none 100).0.commit_confirmed ≡ true
unfolding run_commit
committing = refl

admitted : before_job sample (worker_at false) cancelled_late ≡ (none, worker_at false)
unfolding before_job
admitted = refl

run_closes_example :
    let (result, s) = failing (started (worker_at false)) in
    let (reply, w') = run sample (worker_at false) failing cancelled_late in
    (autocommit w' ≡ true)
    ⊎ (reply ≡ err (lost_reply sample cancelled_late result (sample.execute rollback s.conn).0))
    ⊎ (reply ≡ err (policy_denied true true))
run_closes_example = run_closes sample (worker_at false) failing cancelled_late admitted refl

abbrev commands : List (Command sample ℕ)
commands =
    runs counting calm ∷ commits none 100 ∷ controls counting false 100 110 ∷ expires false ∷ []

loop_expired_example :
    ((loop sample expired_worker commands).1 ≡ expired_worker)
    × All (Refuses sample) (loop sample expired_worker commands).0
loop_expired_example = loop_expired sample expired_worker commands refl refl

abbrev closed_status : ShutdownStatus
closed_status = record { connection_closed = true; thread_joined = true }

shutting_down :
    finish_shutdown (some (some (run_shutdown sample (worker_at false) false).0)) (some true)
    ≡ ok closed_status
unfolding finish_shutdown run_shutdown
shutting_down = refl

-- An engine whose connections are their limits.
abbrev limited : Engine
limited = record {
  Conn = Limit → ℤ;
  is_autocommit = λ c. true;
  execute = λ control c. (none, c);
  invalid_query = refusal;
  Schema = Unit {0};
  cookie = λ s. pos 0;
  json_bytes = λ s. 0;
  read_schema = λ c. ok tt;
  schema_version = λ c. ok (pos 0);
}

abbrev own_limits : LimitCalls limited
own_limits = record {
  set_limit = λ l v c. (none, λ l'. if is_same l' l then v else c l');
  limit = λ l c. ok (c l);
}

own_limits-AreSeparate : AreSeparate own_limits
own_limits-AreSeparate l l' v c other = ground (arith, other)

abbrev unlimited : Limit → ℤ
unlimited l = pos 1000000

abbrev configured : WorkerLimits
configured = record {
  cell_byte_limit = 4000;
  sql_byte_limit = 5000;
  column_limit = 100;
  expression_depth = 50;
  compound_terms = 20;
  parameter_limit = 300;
}

abbrev reported : EffectiveLimits
reported = record {
  cell_byte_limit = pos 4000;
  expression_depth = pos 50;
  compound_terms = pos 20;
  parameter_limit = pos 300;
}

installs : (install_limits own_limits configured unlimited).0 ≡ ok reported
unfolding install_limits is_same
installs = refl

install_limits_ok_example :
    let c' = (install_limits own_limits configured unlimited).1 in
    IsInstalled own_limits length_limit 4000 (pos 4000) c'
    × IsInstalled own_limits expr_depth 50 (pos 50) c'
    × IsInstalled own_limits compound_select 20 (pos 20) c'
    × IsInstalled own_limits variable_number 300 (pos 300) c'
install_limits_ok_example =
    install_limits_ok own_limits configured unlimited reported own_limits-AreSeparate installs

abbrev busy_window : BusyState
busy_window = record { token = true; deadline = some 5000; budget = 25; first_retry = none }

abbrev reading : ℕ → Reading
reading now = record { shutdown = false; cancelled = false; now_deadline = now; now = now }

abbrev four_calls : List Reading
four_calls = reading 100 ∷ reading 110 ∷ reading 121 ∷ reading 140 ∷ []

three_retries : retries (some busy_window) four_calls ≡ 3
unfolding retries
three_retries = refl

retries_bounded_example : 10 * retries (some busy_window) four_calls < 25 + 10
retries_bounded_example =
    retries_bounded busy_window four_calls refl
      (omega arith, (omega arith, (omega arith, (omega arith, tt))))

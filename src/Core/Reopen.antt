-- ===== src/Core/Reopen.antt =====
-- core.rs: what a shutdown reports, and what it leaves behind for a later open.
use sqlite_mcp.Prelude.{
  ℕ, ◌≡◌, refl, ap, ◌∙◌, Bool, true, Option, none, some, List, [], ◌∷◌, arith, ==_iff, ok, err,
}
use sqlite_mcp.Prelude.Text.{Text}
use sqlite_mcp.Prelude.Table.{Table, get, contains_key}
use sqlite_mcp.Sqlite.{Engine}
use sqlite_mcp.Operation.{Status, ShutdownReport, record_entry, new_report}
use sqlite_mcp.Worker.State.{Worker}
use sqlite_mcp.Worker.Control.{run_shutdown, finish_shutdown}
use sqlite_mcp.Core.Error.{CoreError}
use sqlite_mcp.Core.State.{Handle, State}
use sqlite_mcp.Core.Open.{path_is_open, open_database}
use sqlite_mcp.Core.Open.{OpenFacts, check_file, check_registry, shutdown}
use sqlite_mcp.Config.{Config}
use sqlite_mcp.Core.Open.{list_handles, path_is_open}
use sqlite_mcp.Core.Open.{drain}
use sqlite_mcp.Operation.Laws.{Sorted, status_of, record_all, record_all_report}

module _ (e : Engine) where
  -- What the shutdown of a worker answers.
  abbrev answer : Worker e → Bool → Option Bool → Status
  answer w injected joined = finish_shutdown (some (some (run_shutdown e w injected).0)) joined

  -- The answers of all workers, in the order of the map.
  answers : Table (Handle × Worker e) → (ℕ → Bool) → (ℕ → Option Bool) → List (ℕ × Status)
  answers [] injected joined = []
  answers ((id, entry) ∷ m) injected joined =
      (id, answer entry.1 (injected id) (joined id)) ∷ answers m injected joined

  drain_lem :
      (r : ShutdownReport) (m : Table (Handle × Worker e)) (injected : ℕ → Bool)
      (joined : ℕ → Option Bool)
      → drain e r m injected joined ≡ record_all r (answers m injected joined)
  unfolding drain answers record_all
  drain_lem r [] injected joined = refl
  drain_lem r ((id, entry) ∷ m) injected joined =
      drain_lem (record_entry r id (answer entry.1 (injected id) (joined id))) m injected joined

  -- The answer for an entry that is there.
  abbrev pub answer_of : Option (Handle × Worker e) → Bool → Option Bool → Option Status
  answer_of none injected joined = none
  answer_of (some (h, w)) injected joined = some (answer w injected joined)

  status_of-answers :
      (m : Table (Handle × Worker e)) (injected : ℕ → Bool) (joined : ℕ → Option Bool) (id : ℕ)
      → status_of id (answers m injected joined) ≡ answer_of (get m id) (injected id) (joined id)
  unfolding answers status_of get
  status_of-answers [] injected joined id = refl
  status_of-answers ((j, entry) ∷ m) injected joined id =
      ground (arith, status_of-answers m injected joined id, ==_iff j id)

  -- The report of a shutdown is in the order of the ids and lists every handle that was open, and no
  -- other, with what the shutdown of its worker answered; behind it no handle is open.
  pub shutdown_report :
      (s : State e) (injected : ℕ → Bool) (joined : ℕ → Option Bool) (id : ℕ)
      → Sorted 0 (shutdown e s injected joined).0.entries
        × (status_of id (shutdown e s injected joined).0.entries
            ≡ answer_of (get s.handles id) (injected id) (joined id))
        × (list_handles e (shutdown e s injected joined).1 ≡ [])
  unfolding shutdown list_handles
  shutdown_report s injected joined id =
      let (sorted, listed) = record_all_report (answers s.handles injected joined) id in
      let drained = drain_lem new_report s.handles injected joined in
      (
        rw drained sorted,
        ap (λ r. status_of id r.entries) drained
            ∙ listed
            ∙ status_of-answers s.handles injected joined id,
        refl,
      )

  -- A shutdown leaves no handle, but it leaves the identities: a file that was open when the server
  -- shut down can never be opened again, although no handle is open; the open passes its checks of
  -- the file.
  pub shutdown_keeps_identity :
      (s : State e) (config : Config) (injected : ℕ → Bool) (joined : ℕ → Option Bool)
      (readonly : Bool) (f : OpenFacts e) (path mode : Text)
      → check_file readonly f ≡ ok (path, mode)
      → contains_key s.identities f.identity ≡ true
      → let s' = (shutdown e s injected joined).1 in
        (list_handles e s' ≡ [])
        × ((open_database e s' config readonly f).0 ≡ err CoreError.already_open)
  unfolding shutdown list_handles open_database check_registry path_is_open
  shutdown_keeps_identity s config injected joined readonly f path mode checked there =
      ground (arith, checked, there)

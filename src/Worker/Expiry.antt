-- ===== src/Worker/Expiry.antt =====
-- worker.rs: the loop over commands, and what the expiry of an idle transaction means to it.
use sqlite_mcp.Prelude.{
  ℕ, ◌≡◌, refl, ◌⊎◌, Bool, true, false, Option, List, [], ◌∷◌, arith, Result, err, All,
}
use sqlite_mcp.Sqlite.{Engine, RollbackCloses}
use sqlite_mcp.Worker.Error.{WorkerError, server_shutdown, transaction_expired}
use sqlite_mcp.Worker.State.{Worker, Job, Observed, autocommit}
use sqlite_mcp.Worker.Run.{before_job, serve, run}
use sqlite_mcp.Worker.Commit.{CommitOutcome, CommitFault, expired_outcome, run_commit}
use sqlite_mcp.Worker.Control.{run_control, run_expire}

-- One command with what the thread reads while it serves it. `Command::Shutdown` ends the loop.
pub data Command (e : Engine) (A : Type 0) : Type 0 where
  runs : Job e A → Observed → Command e A
  controls : Job e A → Bool → ℕ → ℕ → Command e A
  commits : Option CommitFault → ℕ → Command e A
  expires : Bool → Command e A

pub data Reply (A : Type 0) : Type 0 where
  value : Result A WorkerError → Reply A
  committed : CommitOutcome → Reply A
  expiry : Bool → Reply A

-- A worker whose transaction has expired has none open.
abbrev pub IsSettled : {e : Engine} → Worker e → Type 0
IsSettled w = w.expired ≡ true → autocommit w ≡ true

module _ (e : Engine) {A : Type 0} where
  unfoldable pub step : Worker e → Command e A → Reply A × Worker e
  unfolding run run_control run_commit run_expire
  step w (runs job o) = let (r, w') = run e w job o in (value r, w')
  step w (controls job injected now now_after) =
      let (r, w') = run_control e w job injected now now_after in (value r, w')
  step w (commits fault now) = let (o, w') = run_commit e w fault now in (committed o, w')
  step w (expires injected) = let (b, w') = run_expire e w injected in (expiry b, w')

  unfoldable pub loop : Worker e → List (Command e A) → List (Reply A) × Worker e
  unfolding step
  loop w [] = ([], w)
  loop w (c ∷ cs) = let (r, w') = step w c in let (rs, w'') = loop w' cs in (r ∷ rs, w'')

  -- The replies of a worker whose transaction has expired.
  abbrev pub Refuses : Reply A → Type 0
  Refuses (value r) = (r ≡ err transaction_expired) ⊎ (r ≡ err server_shutdown)
  Refuses (committed o) = o ≡ expired_outcome
  Refuses (expiry b) = b ≡ false

  step_expired :
      (w : Worker e) (c : Command e A)
      → w.expired ≡ true
      → autocommit w ≡ true
      → ((step w c).1 ≡ w) × Refuses (step w c).0
  unfolding step before_job
  step_expired w (runs job o) h a = ground arith
  step_expired w (controls job injected now now_after) h a = ground arith
  step_expired w (commits fault now) h a = ground arith
  step_expired w (expires injected) h a = ground arith

  -- Expiry is final for a worker: once its transaction has expired and is rolled back, every later
  -- command is refused, runs no job, and leaves the worker exactly as it was.
  pub loop_expired :
      (w : Worker e) (cs : List (Command e A))
      → w.expired ≡ true
      → autocommit w ≡ true
      → ((loop w cs).1 ≡ w) × All Refuses (loop w cs).0
  unfolding loop
  loop_expired w [] h a = (refl, tt)
  loop_expired w (c ∷ cs) h a =
      let (same_w, refused) = step_expired w c h a in
      let rest = loop_expired w cs h a in rw same_w (rest.0, (refused, rest.1))

  serve-expired :
      (w : Worker e) (job : Job e A) (o : Observed) → (serve e w job o).1.expired ≡ w.expired
  unfolding serve
  serve-expired w job o = refl

  step-IsSettled :
      RollbackCloses e → (w : Worker e) (c : Command e A) → IsSettled w → IsSettled (step w c).1
  unfolding step before_job
  step-IsSettled closes w (runs job o) s =
      ground (arith, closes w.session.conn, serve-expired w job o)
  step-IsSettled closes w (controls job injected now now_after) s = ground arith
  step-IsSettled closes w (commits fault now) s = ground arith
  step-IsSettled closes w (expires injected) s = ground (arith, closes w.session.conn)

  -- Over any commands, a worker whose transaction has expired never holds one open, so an expiry
  -- releases the database's locks, if SQLite's ROLLBACK always ends the transaction.
  pub loop-IsSettled :
      RollbackCloses e
      → (w : Worker e) (cs : List (Command e A)) → IsSettled w
      → IsSettled (loop w cs).1
  unfolding loop
  loop-IsSettled closes w [] s = s
  loop-IsSettled closes w (c ∷ cs) s =
      loop-IsSettled closes (step w c).1 cs (step-IsSettled closes w c s)

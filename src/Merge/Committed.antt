-- ===== src/Merge/Committed.antt =====
-- merge.rs: what an import that succeeds has done.
use sqlite_mcp.Merge.Guard.{execute_one_success, execute_one-IsRun, IsRun}
use sqlite_mcp.Policy.Stored.{check_stored_body, accepted}
use sqlite_mcp.Merge.Split.{slice}
use sqlite_mcp.Worker.State.{Session}
use sqlite_mcp.Merge.Statement.{Executed, done, statement_kind, create}
use sqlite_mcp.Prelude.Text.{Text, codes, text_eq-eq}
use sqlite_mcp.Merge.Import.{ImportSqlite, check_baseline}
use sqlite_mcp.Merge.Baseline.{Encodings, Baseline}
use sqlite_mcp.Core.Query.Statement.{Statements}
use sqlite_mcp.Policy.Cursor.{Unicode}
use sqlite_mcp.Disk.{FileSystem, err_of, bind-then, stop-eq-ok, lift-eq-ok, pure-eq-ok}
use sqlite_mcp.Sql.{Formats}
use sqlite_mcp.Sqlite.{Engine}
use sqlite_mcp.Merge.Replay.{Importing, replay_statements, check_database}
use sqlite_mcp.Prelude.{
  ℕ, suc, ◌+◌, ◌≤◌, ◌<◌, ◌≡◌, refl, sym, ap, ◌∙◌, ◌⊎◌, Bool, true, false, not, ◌||◌, List, [], ◌∷◌,
  arith, ltb, ◌==◌, Result, ok, err, length, All, is_empty, same, true_of_not, subst,
}
use sqlite_mcp.Merge.Replay.{executed, counted, replay_statement}
use sqlite_mcp.Merge.Statement.{insert, refused, panicked}
use sqlite_mcp.Policy.Signal.{new}

module _ (e : Engine) (f : Formats) (fs : FileSystem) (u : Unicode) (q : Statements e f)
    (x : Encodings) (sqlite : ImportSqlite e fs) where
  abbrev pub Replaying : Type 0
  Replaying = Importing e f fs u q x sqlite

  -- A statement is a CREATE or an INSERT that passes the guard against stored bodies and agrees with
  -- the baseline.
  abbrev pub IsPermitted : Text → Baseline → ℕ × ℕ → Type 0
  IsPermitted text baseline range =
      let sql = slice text range.0 range.1 in
      ((statement_kind u sql ≡ create) ⊎ (statement_kind u sql ≡ insert))
      × ((check_stored_body u sql new).0 ≡ accepted)
      × (check_baseline u x baseline sql ≡ ok tt)

  -- SQLite has run the statements of a text one after the other, each on the session that the one
  -- before it has left.
  unfoldable pub HasRun : Text → List (ℕ × ℕ) → Session e → Session e → Type 0
  HasRun text [] s s' = s' ≡ s
  HasRun text ((start, stop) ∷ ranges) s s' =
      (s1 : Session e) × IsRun u e f q (slice text start stop) s s1 × HasRun text ranges s1 s'

  err_of-eq-ok :
      {A E F : Type 0} (g : E → F) (r : Result A E) {a : A} → err_of g r ≡ ok a → r ≡ ok a
  err_of-eq-ok g (ok a) h = cc h
  err_of-eq-ok g (err y) h = absurd (cc h)

  -- What a call on the database leaves alone.
  session_ok :
      {A E F : Type 0} (g : E → F) (r : Result A E × Session e) (s : Replaying) {a : A}
      {s' : Replaying}
      → ◌≡◌ {A = Result A F × Replaying} (err_of g r.0, record s { session = r.1 }) (ok a, s')
      → (r ≡ (ok a, s'.session)) × (s'.world ≡ s.world) × (s'.statement_count ≡ s.statement_count)
  session_ok g r s h =
      let done' = err_of-eq-ok g r.0 (ap (λ p. p.0) h) in
      let last = ap (λ p. p.1) h in
      (ground (arith, done', last), ground (arith, last), ground (arith, last))

  answer_ok :
      {A E F : Type 0} (g : E → F) (r : Result A E) {a : A} {s s' : Replaying}
      → ◌≡◌ {A = Result A F × Replaying} (err_of g r, s) (ok a, s')
      → (r ≡ ok a) × (s ≡ s')
  answer_ok g r h = (err_of-eq-ok g r (ap (λ p. p.0) h), ap (λ p. p.1) h)

  Executed-ok :
      (o : Executed) (s s' : Replaying)
      → executed e f fs u q x sqlite o s ≡ (ok tt, s')
      → (o ≡ done) × (s' ≡ counted e f fs u q x sqlite s)
  Executed-ok done s s' h = (refl, ap (λ p. p.1) (sym h))
  Executed-ok panicked s s' h = absurd (cc (ap (λ p. p.0) h))
  Executed-ok (refused y) s s' h = absurd (cc (ap (λ p. p.0) h))

  replay_statement_ok :
      (sql : Text) (index : ℕ) (s s' : Replaying)
      → replay_statement e f fs u q x sqlite sql index s ≡ (ok tt, s')
      → ((statement_kind u sql ≡ create) ⊎ (statement_kind u sql ≡ insert))
        × ((check_stored_body u sql new).0 ≡ accepted)
        × (s'.statement_count ≡ s.statement_count + 1)
        × (s'.world ≡ s.world)
        × (s'.output_owner ≡ s.output_owner)
        × IsRun u e f q sql s.session s'.session
  unfolding replay_statement
  replay_statement_ok sql index s s' h =
      let (ran, same) = Executed-ok _ _ _ h in
      let (kind, passes, _, _, _) = execute_one_success u e f q sql index s.session ran in
      (
        kind,
        passes,
        ground (arith, same),
        ground (arith, same),
        ground (arith, same),
        subst (IsRun u e f q sql s.session) (ap (λ v. v.session) (sym same))
            (execute_one-IsRun u e f q sql index s.session ran),
      )

  -- The loop executes all statements, and leaves the file system alone.
  pub replay_statements_ok :
      (text : Text) (baseline : Baseline) (cancelled : ℕ → Bool) (index : ℕ) (ranges : List (ℕ × ℕ))
      (s s' : Replaying)
      → replay_statements e f fs u q x sqlite text baseline cancelled index ranges s ≡ (ok tt, s')
      → All (IsPermitted text baseline) ranges
        × (s'.statement_count ≡ s.statement_count + length ranges)
        × (s'.world ≡ s.world)
        × (s'.output_owner ≡ s.output_owner)
        × HasRun text ranges s.session s'.session
  unfolding replay_statements HasRun
  replay_statements_ok text baseline cancelled index [] s s' h =
      let same = ap (λ p. p.1) h in
      (
        tt,
        ground (arith, same),
        ground (arith, same),
        ground (arith, same),
        ap (λ v. v.session) (sym same),
      )
  replay_statements_ok text baseline cancelled index ((start, stop) ∷ ranges) s s' h =
      bind-then _ _ h λ _ s1 e1 h1. bind-then _ _ h1 λ _ s2 e2 h2. bind-then _ _ h2 λ _ s3 e3 h3.
        let (_, same1) = stop-eq-ok _ _ e1 in
        let (agrees, same2) = lift-eq-ok _ e2 in
        let (kind, passes, more, world, owner, ran) =
          replay_statement_ok (slice text start stop) index s2 s3 e3 in
        let (rest, count, world', owner', ran') =
          replay_statements_ok text baseline cancelled (suc index) ranges s3 s' h3 in
        (
          ((kind, passes, agrees), rest),
          ground (arith, same1, same2, more, count),
          ground arith,
          ground arith,
          (
            s3.session,
            subst (λ v. IsRun u e f q (slice text start stop) v s3.session)
                (ap (λ v. v.session) (sym (same1 ∙ same2))) ran,
            ran',
          ),
        )

  -- COMMIT has succeeded, and what SQLite says after it of the keys and of the integrity; the image
  -- has the size that is allowed.
  abbrev pub IsChecked : ℕ → Session e → List ℕ → Type 0
  IsChecked limit s image =
      (c c' : Session e) × (sqlite.commit s ≡ (ok tt, c))
      × (sqlite.foreign_keys true c ≡ (ok tt, c'))
      × (sqlite.foreign_key_check c' ≡ ok 0)
      × (sqlite.integrity_check c' ≡ ok (codes "ok"))
      × (sqlite.serialize c' ≡ ok image)
      × (0 < length image)
      × (length image ≤ limit)

  in_bounds :
      (image : List ℕ) (limit : ℕ)
      → (is_empty image || ltb limit (length image)) ≡ false
      → (0 < length image) × (length image ≤ limit)
  in_bounds [] limit h = absurd (cc h)
  in_bounds (b ∷ image) limit h = ground arith

  not_zero : (n : ℕ) → not (n == 0) ≡ false → n ≡ 0
  not_zero n h = ground arith

  pub check_database_ok :
      (limit : ℕ) (s s' : Replaying) (image : List ℕ)
      → check_database e f fs u q x sqlite limit s ≡ (ok image, s')
      → IsChecked limit s.session image
        × (s'.world ≡ s.world)
        × (s'.statement_count ≡ s.statement_count)
  unfolding check_database
  check_database_ok limit s s' image h = bind-then _ _ h λ _ s1 e1 h1.
      bind-then _ _ h1 λ _ s2 e2 h2. bind-then _ _ h2 λ violations s3 e3 h3.
        bind-then _ _ h3 λ _ s4 e4 h4. bind-then _ _ h4 λ integrity s5 e5 h5.
          bind-then _ _ h5 λ _ s6 e6 h6. bind-then _ _ h6 λ image' s7 e7 h7.
            bind-then _ _ h7 λ _ s8 e8 h8.
              let (commits, world1, count1) = session_ok _ _ s e1 in
              let (sets, world2, count2) = session_ok _ _ s1 e2 in
              let (keys, same3) = answer_ok _ _ e3 in
              let (none', same4) = stop-eq-ok _ _ e4 in
              let (intact, same5) = answer_ok _ _ e5 in
              let (fine, same6) = stop-eq-ok _ _ e6 in
              let (written, same7) = answer_ok _ _ e7 in
              let (fits, same8) = stop-eq-ok _ _ e8 in
              let (same, same9) = pure-eq-ok h8 in
              let is_ok' = text_eq-eq integrity (codes "ok") (true_of_not _ fine) in
              let zero' = not_zero violations none' in
              let (some', bounded) = in_bounds image' limit fits in
              let steady = same3 ∙ same4 ∙ same5 ∙ same6 ∙ same7 ∙ same8 ∙ same9 in
              (
                (
                  s1.session,
                  s2.session,
                  commits,
                  sets,
                  ground (arith, keys, zero'),
                  ground (arith, intact, is_ok', same3, same4),
                  ground (arith, written, same, same3, same4, same5, same6),
                  ground (arith, some', same),
                  ground (arith, bounded, same),
                ),
                ground (arith, world1, world2, steady),
                ground (arith, count1, count2, steady),
              )

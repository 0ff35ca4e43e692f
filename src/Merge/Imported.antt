-- ===== src/Merge/Imported.antt =====
-- merge.rs: `import`, what its success and its failure say about the output.
use sqlite_mcp.Worker.State.{Session}
use sqlite_mcp.Merge.Outcome.{Prepared, started}
use sqlite_mcp.Merge.Ownership.{IsCaptured, IsOwned, capture-IsCaptured, still_owned-IsOwned}
use sqlite_mcp.Prelude.Text.{Text}
use sqlite_mcp.Merge.Owner.{ExclusiveOutputOwner, still_owned}
use sqlite_mcp.Merge.Replay.{
  Importing, write_output, is_owned, own, unwrap_path, replay, verify_output,
}
use sqlite_mcp.Merge.Import.{ImportSqlite, Stop, ImportResult, committed}
use sqlite_mcp.Merge.Baseline.{Encodings}
use sqlite_mcp.Core.Query.Statement.{Statements}
use sqlite_mcp.Policy.Cursor.{Unicode}
use sqlite_mcp.Disk.{FileSystem, bind-then, stop-eq-ok, pure-eq-ok, map_err-eq-ok, lift-eq-ok}
use sqlite_mcp.Sql.{Formats}
use sqlite_mcp.Sqlite.{Engine}
use sqlite_mcp.Prelude.{subst, true_of_not}
use sqlite_mcp.Merge.Committed.{
  HasRun, IsChecked, IsPermitted, replay_statements_ok, check_database_ok,
}
use sqlite_mcp.Prelude.{
  ℕ, ◌≡◌, ap, Bool, true, Option, none, some, List, arith, Result, ok, err, length, All, same,
}

module _ (e : Engine) (f : Formats) (fs : FileSystem) (u : Unicode) (q : Statements e f)
    (x : Encodings) (sqlite : ImportSqlite e fs) where
  abbrev pub Replaying : Type 0
  Replaying = Importing e f fs u q x sqlite

  -- The output is a file that did not exist, it has the image, and the path is still this file.
  abbrev pub IsWritten : fs.FilePath → List ℕ → fs.World → fs.World → Type 0
  IsWritten output image w w' =
      (file : fs.File) × (owner : ExclusiveOutputOwner fs) × (w1 w2 w3 w4 : fs.World)
      × (fs.create_new output w ≡ (ok file, w1))
      × IsCaptured fs output file owner w1 w2
      × (fs.write_all file image w2 ≡ (ok tt, w3))
      × IsOwned fs owner w4 w'

  world_ok :
      {A : Type 0} (r : Result A Stop × fs.World) (s : Replaying) {a : A} {s' : Replaying}
      → ◌≡◌ {A = Result A Stop × Replaying} (r.0, record s { world = r.1 }) (ok a, s')
      → (r ≡ (ok a, s'.world)) × (s'.statement_count ≡ s.statement_count)
  world_ok r s h =
      let first = ap (λ p. p.0) h in
      let last = ap (λ p. p.1) h in (ground (arith, first, last), ground (arith, last))

  owned_true : (r : Result Bool Text) → is_owned e f fs u q x sqlite r ≡ true → r ≡ ok true
  owned_true (ok b) h = ap ok h
  owned_true (err y) h = absurd (cc h)

  own_ok :
      (owner : ExclusiveOutputOwner fs) (s : Replaying) {s' : Replaying}
      → own e f fs u q x sqlite owner s ≡ (ok tt, s')
      → (s'.world ≡ s.world) × (s'.statement_count ≡ s.statement_count)
  own_ok owner s h = let last = ap (λ p. p.1) h in (ground (arith, last), ground (arith, last))

  write_output_ok :
      (output : fs.FilePath) (image : List ℕ) (s s' : Replaying)
      → write_output e f fs u q x sqlite output image s ≡ (ok tt, s')
      → IsWritten output image s.world s'.world × (s'.statement_count ≡ s.statement_count)
  unfolding write_output
  write_output_ok output image s s' h = bind-then _ _ h λ file s1 e1 h1.
      bind-then _ _ h1 λ owner s2 e2 h2. bind-then _ _ h2 λ _ s3 e3 h3.
        bind-then _ _ h3 λ _ s4 e4 h4. bind-then _ _ h4 λ _ s5 e5 h5. bind-then _ _ h5 λ _ s6 e6 h6.
          bind-then _ _ h6 λ owned s7 e7 h7.
            let (created, count1) = world_ok _ s e1 in
            let (captured, count2) = world_ok _ s1 e2 in
            let (alone, count3) = own_ok owner s2 e3 in
            let (wrote, count4) = world_ok _ s3 e4 in
            let (_, count5) = world_ok _ s4 e5 in
            let (_, count6) = world_ok _ s5 e6 in
            let (asked, count7) = world_ok _ s6 e7 in
            let (is_own, same) = stop-eq-ok _ _ h7 in
            let (answer, same') = pure-eq-ok asked in
            let here =
              owned_true (still_owned fs owner s6.world).0
                (ground (arith, answer, true_of_not owned is_own)) in
            (
              (
                file,
                owner,
                s1.world,
                s2.world,
                s4.world,
                s6.world,
                map_err-eq-ok _ _ created,
                capture-IsCaptured fs output file owner s1.world s2.world
                    (map_err-eq-ok _ _ captured),
                ground (arith, map_err-eq-ok _ _ wrote, alone),
                still_owned-IsOwned fs owner s6.world s'.world (ground (arith, here, same', same)),
              ),
              ground (arith, count1, count2, count3, count4, count5, count6, count7, same),
            )

  unwrapped :
      (o : Option Text) {path : Text} → unwrap_path e f fs u q x sqlite o ≡ ok path → o ≡ some path
  unwrapped none h = absurd (cc h)
  unwrapped (some p) h = cc h

  -- What a replay that succeeds has done from a session on, between two states of the file system.
  abbrev pub IsReplayed : Prepared fs → ℕ → ImportResult → Session e → fs.World → fs.World → Type 0
  IsReplayed p image_limit result s w w' =
      All (IsPermitted e f fs u q x sqlite p.text p.baseline) p.statements
      × (result.statement_count ≡ length p.statements)
      × (result.output_state ≡ committed)
      × ((s' : Session e) × (image : List ℕ) × (w1 : fs.World) × HasRun e f fs u q x sqlite p.text
            p.statements s s'
          × IsChecked e f fs u q x sqlite image_limit s' image
          × IsWritten p.output image w w1
          × (verify_output e f fs u q x sqlite p.output w1
              ≡ (ok (result.journal_mode, result.object_count, result.table_count), w')))

  pub replay-IsReplayed :
      (p : Prepared fs) (cancelled : ℕ → Bool) (image_limit : ℕ) (s : Session e) (w : fs.World)
      (result : ImportResult) (s' : Replaying)
      → replay e f fs u q x sqlite p.text p.baseline cancelled p.statements image_limit p.output
          p.bytes
          (started fs e f u q x sqlite s w)
        ≡ (ok result, s')
      → IsReplayed p image_limit result s w s'.world
  unfolding replay
  replay-IsReplayed p cancelled image_limit s w result s' h = bind-then _ _ h λ _ s1 e1 h1.
      bind-then _ _ h1 λ image s2 e2 h2. bind-then _ _ h2 λ _ s3 e3 h3.
        bind-then _ _ h3 λ seen s4 e4 h4. bind-then _ _ h4 λ path s5 e5 h5.
          bind-then _ _ h5 λ count s6 e6 h6.
            let (permitted, count1, world1, _, ran) =
              replay_statements_ok e f fs u q x sqlite p.text p.baseline cancelled 0 p.statements
                (started fs e f u q x sqlite s w) s1 e1 in
            let (checked, world2, count2) =
              check_database_ok e f fs u q x sqlite image_limit s1 s2 image e2 in
            let (written, count3) = write_output_ok p.output image s2 s3 e3 in
            let (verified, count4) = world_ok _ s3 e4 in
            let (_, same5) = lift-eq-ok _ e5 in
            let (counted', same6) = pure-eq-ok e6 in
            let (made, same7) = pure-eq-ok h6 in
            let before : s2.world ≡ w = ground (arith, world1, world2) in
            (
              permitted,
              ground (arith, count1, count2, count3, count4, counted', made, same5),
              ground (arith, made),
              (
                s1.session,
                image,
                s3.world,
                ran,
                checked,
                subst (λ v. IsWritten p.output image v s3.world) before written,
                ground (arith, verified, made, same5, same6, same7),
              ),
            )

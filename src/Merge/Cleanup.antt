-- ===== src/Merge/Cleanup.antt =====
-- merge.rs: `import`, what a failure does with the output.
use sqlite_mcp.Worker.State.{Session}
use sqlite_mcp.Merge.Ownership.{IsRemoved, remove_if_owned-IsRemoved}
use sqlite_mcp.Prelude.Text.{Text}
use sqlite_mcp.Merge.Owner.{ExclusiveOutputOwner, remove_if_owned, capture}
use sqlite_mcp.Merge.Outcome.{Prepared, finish_import, removed_or_uncertain, remove_output, started}
use sqlite_mcp.Merge.Split.{MergeError, cleanup_uncertain, input_invalid}
use sqlite_mcp.Merge.Replay.{Importing, replay, write_output, replay_statements, check_database}
use sqlite_mcp.Merge.Baseline.{Encodings}
use sqlite_mcp.Core.Query.Statement.{Statements}
use sqlite_mcp.Policy.Cursor.{Unicode}
use sqlite_mcp.Sql.{Formats}
use sqlite_mcp.Sqlite.{Engine}
use sqlite_mcp.Disk.{FileSystem, bind}
use sqlite_mcp.Merge.Import.{
  failed, failure, ImportSqlite, Imported, ImportError, removed, uncertain,
}
use sqlite_mcp.Prelude.{
  ℕ, ◌≡◌, refl, sym, ap, ◌∙◌, ◌⊎◌, inl, inr, Bool, Option, none, some, List, [], ◌∷◌, Result, ok,
  err,
}

module _ (fs : FileSystem) (e : Engine) (f : Formats) (u : Unicode) (q : Statements e f)
    (x : Encodings) (sqlite : ImportSqlite e fs) where
  abbrev pub Replaying : Type 0
  Replaying = Importing e f fs u q x sqlite

  abbrev pub Answer : Type 0
  Answer = Imported fs × fs.World

  -- The output is reported as removed: it was removed by its owner, or nothing was done.
  abbrev pub IsRemoval : MergeError → Replaying → ImportError fs → fs.World → Type 0
  IsRemoval error s y w =
      (y.state ≡ removed)
      × (y.error ≡ error)
      × (y.cleanup_errors ≡ [])
      × (((s.output_owner ≡ none) × (w ≡ s.world))
          ⊎ ((o : ExclusiveOutputOwner fs) × (s.output_owner ≡ some o) × IsRemoved fs o s.world w))

  -- Its removal by the owner failed, and the report says so.
  abbrev pub IsUncertain : MergeError → Replaying → ImportError fs → fs.World → Type 0
  IsUncertain error s y w =
      (y.state ≡ uncertain)
      × (y.error.class ≡ cleanup_uncertain)
      × (y.root_class ≡ some error.class)
      × ((o : ExclusiveOutputOwner fs) × (message : Text) × (s.output_owner ≡ some o)
          × (y.cleanup_errors ≡ message ∷ [])
          × (remove_if_owned fs o s.world ≡ (err message, w)))

  failure_eq :
      (y y' : ImportError fs) (w w' : fs.World)
      → ◌≡◌ {A = Answer} (failure y', w') (failure y, w)
      → (y' ≡ y) × (w' ≡ w)
  failure_eq y y' w w' h = (cc (ap (λ v. v.0) h), ap (λ v. v.1) h)

  -- The report of the cleanup by an owner.
  owned_cleanup :
      (p : Prepared fs) (error : MergeError) (s : Replaying) (o : ExclusiveOutputOwner fs)
      (r : Result (Unit {0}) Text × fs.World) (y : ImportError fs) (w : fs.World)
      → s.output_owner ≡ some o
      → remove_if_owned fs o s.world ≡ r
      → ◌≡◌ {A = Answer}
          (removed_or_uncertain fs e f u q x sqlite p error s.statement_count r)
          (failure y, w)
      → (y.statements ≡ s.statement_count) × (IsRemoval error s y w ⊎ IsUncertain error s y w)
  owned_cleanup p error s o (ok _, v) y w owner ran h =
      let (report, last) = failure_eq y _ w v h in
      (
        ap (λ z. z.statements) (sym report),
        inl (
          ap (λ z. z.state) (sym report),
          ap (λ z. z.error) (sym report),
          ap (λ z. z.cleanup_errors) (sym report),
          inr (
            o,
            owner,
            remove_if_owned-IsRemoved fs o s.world w (ran ∙ ap (λ t. (ok tt, t)) last),
          ),
        ),
      )
  owned_cleanup p error s o (err message, v) y w owner ran h =
      let (report, last) = failure_eq y _ w v h in
      (
        ap (λ z. z.statements) (sym report),
        inr (
          ap (λ z. z.state) (sym report),
          ap (λ z. z.error.class) (sym report),
          ap (λ z. z.root_class) (sym report),
          (
            o,
            message,
            owner,
            ap (λ z. z.cleanup_errors) (sym report),
            ran ∙ ap (λ t. (err message, t)) last,
          ),
        ),
      )

  cleanup_of :
      (p : Prepared fs) (error : MergeError) (s : Replaying)
      (owner : Option (ExclusiveOutputOwner fs)) (y : ImportError fs) (w : fs.World)
      → s.output_owner ≡ owner
      → ◌≡◌ {A = Answer}
          (removed_or_uncertain fs e f u q x sqlite p error s.statement_count
            (remove_output fs e f u q x sqlite owner s.world))
          (failure y, w)
      → (y.statements ≡ s.statement_count) × (IsRemoval error s y w ⊎ IsUncertain error s y w)
  cleanup_of p error s none y w owner h =
      let (report, last) = failure_eq y _ w s.world h in
      (
        ap (λ z. z.statements) (sym report),
        inl (
          ap (λ z. z.state) (sym report),
          ap (λ z. z.error) (sym report),
          ap (λ z. z.cleanup_errors) (sym report),
          inl (owner, sym last),
        ),
      )
  cleanup_of p error s (some o) y w owner h = owned_cleanup p error s o _ y w owner refl h

  -- An import whose replay has stopped with an error reports the number of statements that were
  -- executed. Either it reports the output as removed, with that error: then its owner has removed the
  -- file, which was still its own, and the path is gone, or there was no owner and nothing was done.
  -- Or it reports the output as uncertain, with the class of the error as the root class: then the
  -- removal by the owner has failed with the message that is reported.
  pub finish_import-failure :
      (p : Prepared fs) (error : MergeError) (s : Replaying) (y : ImportError fs) (w : fs.World)
      → finish_import fs e f u q x sqlite p (err (failed error), s) ≡ (failure y, w)
      → (y.statements ≡ s.statement_count) × (IsRemoval error s y w ⊎ IsUncertain error s y w)
  unfolding finish_import
  finish_import-failure p error s y w h = cleanup_of p error s s.output_owner y w refl h

  -- Where the new output cannot be taken into ownership, the import reports it as removed, and the
  -- state of the file system is the one in which the file has just been created.
  pub capture_error_removed :
      (p : Prepared fs) (cancelled : ℕ → Bool) (image_limit : ℕ) (s : Session e) (w : fs.World)
      (s1 s2 : Replaying) (image : List ℕ) (file : fs.File) (w1 w2 : fs.World) (message : Text)
      → replay_statements e f fs u q x sqlite p.text p.baseline cancelled 0 p.statements
          (started fs e f u q x sqlite s w)
        ≡ (ok tt, s1)
      → check_database e f fs u q x sqlite image_limit s1 ≡ (ok image, s2)
      → s2.output_owner ≡ none
      → fs.create_new p.output s2.world ≡ (ok file, w1)
      → capture fs p.output file w1 ≡ (err message, w2)
      → (y : ImportError fs) × (finish_import fs e f u q x sqlite p (
            replay e f fs u q x sqlite p.text p.baseline cancelled p.statements image_limit p.output
              p.bytes
              (started fs e f u q x sqlite s w))
          ≡ (failure y, w2))
        × (y.state ≡ removed)
        × (y.error.message ≡ message)
  unfolding finish_import replay write_output bind
  capture_error_removed p cancelled image_limit s w s1 s2 image file w1 w2 message ran checked
        nobody created lost =
      (
        record {
          error = record { class = input_invalid; message = message };
          output = some p.output;
          state = removed;
          statements = s2.statement_count;
          bytes = p.bytes;
          cleanup_errors = [];
          root_class = none;
        },
        rw (ran, checked, created, lost, nobody),
        refl,
        refl,
      )

-- ===== src/Merge/Success.antt =====
-- merge.rs: the answers of `import`.
use sqlite_mcp.Prelude.Text.{Text}
use sqlite_mcp.Merge.Split.{MergeError, validate_header, split_statements}
use sqlite_mcp.Merge.Check.{open_replay_database, check_merge_text, is_unbalanced}
use sqlite_mcp.Worker.State.{Session}
use sqlite_mcp.Merge.Outcome.{
  import, import_prepared, replay_in, prepare_import, removed_or_uncertain, finish_import, Prepared,
}
use sqlite_mcp.Merge.Replay.{Importing}
use sqlite_mcp.Merge.Import.{
  ImportSqlite, Imported, ImportError, ImportResult, failure, Stop, success,
}
use sqlite_mcp.Merge.Baseline.{Encodings, Baseline, parse_baseline}
use sqlite_mcp.Core.Query.Statement.{Statements}
use sqlite_mcp.Policy.Cursor.{Unicode}
use sqlite_mcp.Sql.{Formats}
use sqlite_mcp.Sqlite.{Engine}
use sqlite_mcp.Disk.{FileSystem, bind-then, pure-eq-ok, lift-eq-ok, map_err-eq-ok}
use sqlite_mcp.Prelude.{subst, then-ok, fail_if-ok}
use sqlite_mcp.Merge.Import.{crashed, failed}
use sqlite_mcp.Merge.Imported.{IsReplayed, replay-IsReplayed}
use sqlite_mcp.Prelude.{
  ℕ, ◌≤◌, ◌≡◌, refl, ap, Bool, false, List, arith, ltb, Result, ok, err, fail_if, length,
}

module _ (fs : FileSystem) (e : Engine) (f : Formats) (u : Unicode) (q : Statements e f)
    (x : Encodings) (sqlite : ImportSqlite e fs) where
  abbrev pub Replaying : Type 0
  Replaying = Importing e f fs u q x sqlite

  abbrev pub Answer : Type 0
  Answer = Imported fs × fs.World

  not_success :
      (y : ImportError fs) (w : fs.World) {result : ImportResult} {w' : fs.World}
      → ◌≡◌ {A = Answer} (failure y, w) (success result, w')
      → ⊥
  not_success y w h = cc (ap (λ p. p.0) h)

  removed_success :
      (p : Prepared fs) (y : MergeError) (n : ℕ) (r : Result (Unit {0}) Text × fs.World)
      (result : ImportResult) (w : fs.World)
      → removed_or_uncertain fs e f u q x sqlite p y n r ≡ (success result, w)
      → ⊥
  removed_success p y n (ok _, v) result w h = not_success _ v h
  removed_success p y n (err _, v) result w h = not_success _ v h

  finish_success :
      (p : Prepared fs) (r : Result ImportResult Stop × Replaying) (result : ImportResult)
      (w : fs.World)
      → finish_import fs e f u q x sqlite p r ≡ (success result, w)
      → r ≡ (ok result, r.1) × (r.1.world ≡ w)
  unfolding finish_import
  finish_success p (ok result', s) result w h =
      let first = ap (λ v. v.0) h in let second = ap (λ v. v.1) h in (ground (arith, first), second)
  finish_success p (err crashed, s) result w h = absurd (cc (ap (λ v. v.0) h))
  finish_success p (err (failed y), s) result w h = absurd (removed_success p y _ _ result w h)

  replay_in-success :
      (p : Prepared fs) (cancelled : ℕ → Bool) (image_limit : ℕ) (w w' : fs.World)
      (r : Result (Session e) MergeError) (result : ImportResult)
      → replay_in fs e f u q x sqlite p cancelled image_limit w r ≡ (success result, w')
      → (s : Session e) × (r ≡ ok s) × IsReplayed e f fs u q x sqlite p image_limit result s w w'
  replay_in-success p cancelled image_limit w w' (err y) result h = absurd (not_success _ w h)
  replay_in-success p cancelled image_limit w w' (ok s) result h =
      let (ends, last) = finish_success p _ result w' h in
      (
        s,
        refl,
        subst (IsReplayed e f fs u q x sqlite p image_limit result s w) last
            (replay-IsReplayed e f fs u q x sqlite p cancelled image_limit s w result _ ends),
      )

  import_prepared-success :
      (cancelled : ℕ → Bool) (image_limit : ℕ)
      (r : Result (Prepared fs) (ImportError fs) × fs.World) (result : ImportResult) (w' : fs.World)
      → import_prepared fs e f u q x sqlite cancelled image_limit r ≡ (success result, w')
      → (p : Prepared fs) × (w : fs.World) × (r ≡ (ok p, w))
        × ((s : Session e) × (open_replay_database e fs sqlite ≡ ok s)
            × IsReplayed e f fs u q x sqlite p image_limit result s w w')
  import_prepared-success cancelled image_limit (err y, w) result w' h = absurd (not_success y w h)
  import_prepared-success cancelled image_limit (ok p, w) result w' h =
      let (s, opened, replayed) = replay_in-success p cancelled image_limit w w' _ result h in
      (p, w, refl, (s, opened, replayed))

  within : (n limit : ℕ) → ltb limit n ≡ false → n ≤ limit
  within n limit h = ground arith

  check_merge_text_bound :
      (text : Text) (limit : ℕ) (baseline : Baseline) (statements : List (ℕ × ℕ))
      → check_merge_text u x text limit ≡ ok (baseline, statements)
      → length statements ≤ limit
  unfolding check_merge_text
  check_merge_text_bound text limit baseline statements h =
      then-ok (validate_header text) _ h λ offset e1 h1.
        then-ok (parse_baseline x text offset) _ h1 λ r e2 h2.
          then-ok (split_statements u text r.1) _ h2 λ ranges e3 h3.
            then-ok (fail_if (ltb limit (length ranges)) _) _ h3 λ _ e4 h4.
              then-ok (fail_if (is_unbalanced u x r.0 ranges) _) _ h4 λ _ e5 h5.
                let same : ◌≡◌ {A = Baseline × List (ℕ × ℕ)} (r.0, ranges) (baseline, statements) =
                  cc h5 in
                subst (λ l. length l ≤ limit) (ap (λ v. v.1) same) (within _ _ (fail_if-ok _ _ e4))

  prepare_import_bound :
      (sql_path output_path : Text) (text_limit limit : ℕ) (cancelled : Bool) (w w' : fs.World)
      (p : Prepared fs)
      → prepare_import fs u x sql_path output_path text_limit limit cancelled w ≡ (ok p, w')
      → (length p.statements ≤ limit)
        × (check_merge_text u x p.text limit ≡ ok (p.baseline, p.statements))
  unfolding prepare_import
  prepare_import_bound sql_path output_path text_limit limit cancelled w w' p h =
      bind-then _ _ h λ source w1 e1 h1. bind-then _ _ h1 λ output w2 e2 h2.
        bind-then _ _ h2 λ checked w3 e3 h3. bind-then _ _ h3 λ _ w4 e4 h4.
          let (made, _) = pure-eq-ok h4 in
          let (ready, _) = lift-eq-ok _ (map_err-eq-ok _ _ e3) in
          let texts : check_merge_text u x p.text limit ≡ ok (p.baseline, p.statements) =
            ground (arith, made, ready) in
          (check_merge_text_bound p.text limit p.baseline p.statements texts, texts)

  -- An import that succeeds has opened the database in memory, and SQLite has run in it, each statement
  -- on the session that the one before it has left, every statement of a text that passes the checks,
  -- each a CREATE or an INSERT that passes the guard against stored bodies and agrees with the baseline,
  -- at most as many as the limit allows; their number is reported. On the session that the last of them
  -- has left COMMIT has succeeded, SQLite has found no violated foreign key and the integrity to be ok,
  -- and the image of the database, which is not empty and fits its limit, has been written to a file
  -- that did not exist, whose path has kept its identity, and that SQLite has read back with the journal
  -- mode and the counts that are reported.
  pub import-success :
      (sql_path output_path : Text) (text_limit statement_limit image_limit : ℕ)
      (cancelled : ℕ → Bool) (w w' : fs.World) (result : ImportResult)
      → import fs e f u q x sqlite sql_path output_path text_limit statement_limit image_limit
          cancelled w
        ≡ (success result, w')
      → (p : Prepared fs) × (w1 : fs.World) × (check_merge_text u x p.text statement_limit
          ≡ ok (p.baseline, p.statements))
        × (length p.statements ≤ statement_limit)
        × ((s : Session e) × (open_replay_database e fs sqlite ≡ ok s)
            × IsReplayed e f fs u q x sqlite p image_limit result s w1 w')
  unfolding import
  import-success sql_path output_path text_limit statement_limit image_limit cancelled w w' result
        h =
      let (p, w1, prepared, replayed) = import_prepared-success _ image_limit _ result w' h in
      let (bounded, checked) =
        prepare_import_bound sql_path output_path text_limit statement_limit (cancelled 0) w w1 p
          prepared in
      (p, w1, checked, bounded, replayed)

-- ===== src/Merge/Steady.antt =====
-- merge.rs: what an extraction knows of a source that it has read.
use sqlite_mcp.Merge.Import.{Stop}
use sqlite_mcp.Policy.Cursor.{Unicode}
use sqlite_mcp.Merge.Extract.{TypedFormats}
use sqlite_mcp.Prelude.Text.{Text, codes, text_eq, text_eq-eq}
use sqlite_mcp.Sql.{Formats}
use sqlite_mcp.Merge.Baseline.{Encodings}
use sqlite_mcp.Disk.{FileSystem, bind-then, map_err-eq-ok, pure-eq-ok, stop-eq-ok}
use sqlite_mcp.Merge.Snapshot.{
  SourceLabel, Extracting, SnapshotSqlite, snapshot_source, read_source, unchanged, observed,
  label_text,
}
use sqlite_mcp.Merge.Snapshot.{same_sidecar, option_eq}
use sqlite_mcp.Merge.Owner.{same_identity}
use sqlite_mcp.Prelude.{==_iff}
use sqlite_mcp.Merge.Observe.{SidecarObservation, SourceObservation, source_observation}
use sqlite_mcp.Prelude.{
  ℕ, ◌≡◌, refl, ap, Bool, true, false, Option, none, some, ◌==◌, ◌&&◌, ◌||◌, [], ◌∷◌, ◌++◌, arith,
  Result, ok, true_of_not,
}

-- A source without sidecar files.
abbrev pub IsAlone : SourceObservation → Type 0
IsAlone o = (o.rollback_journal.present ≡ false) × (o.wal.present ≡ false) × (o.shm.present ≡ false)

none_of : (a b c : Bool) → (a || b || c) ≡ false → (a ≡ false) × (b ≡ false) × (c ≡ false)
none_of a b c h = ground arith

option_eq-eq :
    {A : Type 0} (same : A → A → Bool) (o o' : Option A)
    → ((a b : A) → same a b ≡ true → a ≡ b)
    → option_eq same o o' ≡ true
    → o ≡ o'
option_eq-eq same none none eq h = refl
option_eq-eq same none (some b) eq h = absurd (cc h)
option_eq-eq same (some a) none eq h = absurd (cc h)
option_eq-eq same (some a) (some b) eq h = ap some (eq a b h)

same_identity-eq : (a b : ℕ × ℕ) → same_identity a b ≡ true → a ≡ b
same_identity-eq (a, b) (c, d) h = ground (arith, h)

same_number-eq : (m n : ℕ) → (m == n) ≡ true → m ≡ n
same_number-eq m n h = ground (arith, h, ==_iff m n)

-- Two observations are of the same path and file, with the same size, time and digest.
abbrev pub IsSameFile : SidecarObservation → SidecarObservation → Type 0
IsSameFile a b =
    (a.path ≡ b.path)
    × (a.present ≡ b.present)
    × (a.device_inode ≡ b.device_inode)
    × (a.size_bytes ≡ b.size_bytes)
    × (a.mtime_ns ≡ b.mtime_ns)
    × (a.sha256_hex ≡ b.sha256_hex)

same_sidecar-IsSameFile : (a b : SidecarObservation) → same_sidecar a b ≡ true → IsSameFile a b
unfolding same_sidecar
same_sidecar-IsSameFile a b h =
    let path : text_eq a.path b.path ≡ true = ground (arith, h) in
    let inode : option_eq same_identity a.device_inode b.device_inode ≡ true = ground (arith, h) in
    let size : option_eq (λ m n. m == n) a.size_bytes b.size_bytes ≡ true = ground (arith, h) in
    let time : option_eq (λ m n. m == n) a.mtime_ns b.mtime_ns ≡ true = ground (arith, h) in
    let digest : option_eq text_eq a.sha256_hex b.sha256_hex ≡ true = ground (arith, h) in
    (
      text_eq-eq a.path b.path path,
      ground (arith, h),
      option_eq-eq same_identity a.device_inode b.device_inode same_identity-eq inode,
      option_eq-eq (λ m n. m == n) a.size_bytes b.size_bytes same_number-eq size,
      option_eq-eq (λ m n. m == n) a.mtime_ns b.mtime_ns same_number-eq time,
      option_eq-eq text_eq a.sha256_hex b.sha256_hex text_eq-eq digest,
    )

left_true : (b c : Bool) → (b && c) ≡ true → b ≡ true
left_true b c h = ground (arith, h)

unchanged-main : (a b : SourceObservation) → unchanged a b ≡ true → IsSameFile a.main b.main
unfolding unchanged
unchanged-main a b h =
    let main = same_sidecar a.main b.main in
    let journal = same_sidecar a.rollback_journal b.rollback_journal in
    let wal = same_sidecar a.wal b.wal in
    let all_but_last = left_true (main && journal && wal) (same_sidecar a.shm b.shm) h in
    same_sidecar-IsSameFile a.main b.main
      (left_true main journal (left_true (main && journal) wal all_but_last))

module _ (fs : FileSystem) (x : Encodings) where
  source_observation-IsAlone :
      (label phase : Text) (path : fs.FilePath) (cap : ℕ) (w w' : fs.World) (o : SourceObservation)
      → source_observation fs x label phase path cap w ≡ (ok o, w')
      → IsAlone o × (o.label ≡ label) × (o.phase ≡ phase)
  unfolding source_observation
  source_observation-IsAlone label phase path cap w w' o h = bind-then _ _ h λ main w1 e1 h1.
      bind-then _ _ h1 λ journal w2 e2 h2. bind-then _ _ h2 λ wal w3 e3 h3.
        bind-then _ _ h3 λ shm w4 e4 h4. bind-then _ _ h4 λ _ w5 e5 h5.
          let (a, b, c) = none_of journal.present wal.present shm.present (stop-eq-ok _ _ e5).0 in
          let (made, _) = pure-eq-ok h5 in
          (
            (ground (arith, a, made), ground (arith, b, made), ground (arith, c, made)),
            ground (arith, made),
            ground (arith, made),
          )

  module _ (f : Formats) (t : TypedFormats f) (u : Unicode) (sqlite : SnapshotSqlite fs f)
      (text_limit statement_limit observation_limit : ℕ) where
    abbrev pub Extraction : Type 0
    Extraction = Extracting fs x f t u sqlite

    at_world_ok :
        {A : Type 0} (r : Result A Stop × fs.World) (s : Extraction) {a : A} {s' : Extraction}
        → ◌≡◌ {A = Result A Stop × Extraction} (r.0, record s { world = r.1 }) (ok a, s')
        → (r ≡ (ok a, s'.world)) × (s'.observations ≡ s.observations)
    at_world_ok r s h =
        let first = ap (λ p. p.0) h in
        let last = ap (λ p. p.1) h in (ground (arith, first, last), ground (arith, last))

    observed_ok :
        (o : SourceObservation) (s : Extraction) {s' : Extraction}
        → observed fs x f t u sqlite o s ≡ (ok tt, s')
        → (s'.observations ≡ s.observations ++ (o ∷ [])) × (s'.world ≡ s.world)
    observed_ok o s h = let last = ap (λ p. p.1) h in (ground (arith, last), ground (arith, last))

    -- The observations before and after a source agree, and the source was there, without sidecars.
    abbrev pub IsSteady : SourceObservation → SourceObservation → Type 0
    IsSteady before after =
        IsSameFile before.main after.main
        × (before.main.present ≡ true)
        × IsAlone before
        × IsAlone after

    -- A source that an extraction has read was there, had no journal, WAL or shared memory beside it
    -- before and after, and is the same file with the same size, time and digest in both observations.
    -- The first of them was made before the reading and the second, on the file system that the
    -- reading left, behind it; they are the two that the extraction adds to its report. The token was
    -- not cancelled, and the text is the one that was read between the observations.
    pub snapshot_source-IsSteady :
        (label : SourceLabel) (path : fs.FilePath) (cancelled : Bool) (s s' : Extraction)
        (text : Text)
        → snapshot_source fs x f t u sqlite text_limit statement_limit observation_limit label path
            cancelled s
          ≡ (ok text, s')
        → (cancelled ≡ false)
          × ((before after : SourceObservation) × (w w' : fs.World) × (source_observation fs x
                  (label_text label)
                  (codes "before")
                  path
                  observation_limit
                  s.world
                ≡ (ok before, w))
              × (read_source fs x f t u sqlite text_limit statement_limit observation_limit label
                    path w
                  ≡ (ok text, w'))
              × (source_observation fs x
                    (label_text label)
                    (codes "after")
                    path
                    observation_limit
                    w'
                  ≡ (ok after, s'.world))
              × IsSteady before after
              × (s'.observations ≡ (s.observations ++ (before ∷ [])) ++ (after ∷ [])))
    unfolding snapshot_source
    snapshot_source-IsSteady label path cancelled s s' text h = bind-then _ _ h λ _ s1 e1 h1.
        bind-then _ _ h1 λ before s2 e2 h2. bind-then _ _ h2 λ _ s3 e3 h3.
          bind-then _ _ h3 λ _ s4 e4 h4. bind-then _ _ h4 λ read s5 e5 h5.
            bind-then _ _ h5 λ after s6 e6 h6. bind-then _ _ h6 λ _ s7 e7 h7.
              bind-then _ _ h7 λ _ s8 e8 h8.
                let (going, same1) = stop-eq-ok _ _ e1 in
                let (seen, kept2) = at_world_ok _ s1 e2 in
                let (there, same3) = stop-eq-ok _ _ e3 in
                let (added4, world4) = observed_ok before s3 e4 in
                let (texts, kept5) = at_world_ok _ s4 e5 in
                let (seen', kept6) = at_world_ok _ s5 e6 in
                let (agree, same7) = stop-eq-ok _ _ e7 in
                let (added8, world8) = observed_ok after s7 e8 in
                let (given, same9) = pure-eq-ok h8 in
                let (alone, _, _) =
                  source_observation-IsAlone (label_text label) (codes "before") path
                    observation_limit _ _ before (map_err-eq-ok _ _ seen) in
                let (alone', _, _) =
                  source_observation-IsAlone (label_text label) (codes "after") path
                    observation_limit _ _ after (map_err-eq-ok _ _ seen') in
                (
                  going,
                  (
                    before,
                    after,
                    s2.world,
                    s5.world,
                    ground (arith, map_err-eq-ok _ _ seen, same1),
                    ground (arith, texts, given, same3, world4),
                    ground (arith, map_err-eq-ok _ _ seen', same7, world8, same9),
                    (
                      unchanged-main before after (true_of_not _ agree),
                      true_of_not _ there,
                      alone,
                      alone',
                    ),
                    ground (arith, same1, kept2, same3, added4, kept5, kept6, same7, added8, same9),
                  ),
                )

-- ===== src/Merge/Ownership.antt =====
-- merge.rs: what the owner of an output knows when one of its steps succeeds.
use sqlite_mcp.Disk.{
  FileSystem, Metadata, bind-then, IoError, stop-eq-ok, pure-eq-ok, map_err-eq-ok,
}
use sqlite_mcp.Merge.Owner.{
  ExclusiveOutputOwner, Identity, capture, still_owned, remove_if_owned, identity, same_identity,
  owned_by,
}
use sqlite_mcp.Prelude.{◌≡◌, refl, ap, true, false, arith, Result, ok, err, same, true_of_not}

module _ (fs : FileSystem) where
  -- The descriptor and the path have the identity of the owner, asked one after the other.
  abbrev pub IsCaptured :
      fs.FilePath → fs.File → ExclusiveOutputOwner fs → fs.World → fs.World → Type 0
  IsCaptured path file owner w w' =
      (a b : Metadata) × (w1 : fs.World) × (fs.file_metadata file w ≡ (ok a, w1))
      × (fs.metadata path w1 ≡ (ok b, w'))
      × (identity a ≡ owner.owned)
      × (identity b ≡ owner.owned)
      × (owner.path ≡ path)

  same_identity_lem : (a b : Identity) → same_identity a b ≡ true → a ≡ b
  same_identity_lem a b h = ground arith

  pub capture-IsCaptured :
      (path : fs.FilePath) (file : fs.File) (owner : ExclusiveOutputOwner fs) (w w' : fs.World)
      → capture fs path file w ≡ (ok owner, w')
      → IsCaptured path file owner w w'
  unfolding capture
  capture-IsCaptured path file owner w w' h = bind-then _ _ h λ a w1 e1 h1.
      bind-then _ _ h1 λ b w2 e2 h2. bind-then _ _ h2 λ _ w3 e3 h3.
        let (matches, same) = stop-eq-ok _ _ e3 in
        let (made, same') = pure-eq-ok h3 in
        let agree = same_identity_lem (identity a) (identity b) (true_of_not _ matches) in
        (
          a,
          b,
          w1,
          map_err-eq-ok _ _ e1,
          ground (arith, map_err-eq-ok _ _ e2, same, same'),
          ground (arith, made),
          ground (arith, made, agree),
          ground (arith, made),
        )

  -- The path has the identity of the owner.
  abbrev pub IsOwned : ExclusiveOutputOwner fs → fs.World → fs.World → Type 0
  IsOwned owner w w' =
      (m : Metadata) × (fs.metadata owner.path w ≡ (ok m, w')) × (identity m ≡ owner.owned)

  owned_by-true :
      (owner : ExclusiveOutputOwner fs) (r : Result Metadata IoError)
      → owned_by fs owner r ≡ ok true
      → (m : Metadata) × (r ≡ ok m) × (identity m ≡ owner.owned)
  owned_by-true owner (ok m) h = (m, refl, same_identity_lem _ _ (cc h))
  owned_by-true owner (err y) h = absurd (ground (arith, h))

  pub still_owned-IsOwned :
      (owner : ExclusiveOutputOwner fs) (w w' : fs.World)
      → still_owned fs owner w ≡ (ok true, w')
      → IsOwned owner w w'
  unfolding still_owned
  still_owned-IsOwned owner w w' h =
      let (m, answer, same) = owned_by-true owner (fs.metadata owner.path w).0 (ap (λ p. p.0) h) in
      let last = ap (λ p. p.1) h in (m, ground (arith, answer, last), same)

  -- A removal that succeeds has removed what was owned, and the path is gone.
  abbrev pub IsRemoved : ExclusiveOutputOwner fs → fs.World → fs.World → Type 0
  IsRemoved owner w w' =
      (w1 w2 : fs.World) × IsOwned owner w w1
      × (fs.remove_file owner.path w1 ≡ (ok tt, w2))
      × (fs.exists owner.path w2 ≡ (false, w'))

  pub remove_if_owned-IsRemoved :
      (owner : ExclusiveOutputOwner fs) (w w' : fs.World)
      → remove_if_owned fs owner w ≡ (ok tt, w')
      → IsRemoved owner w w'
  unfolding remove_if_owned
  remove_if_owned-IsRemoved owner w w' h = bind-then _ _ h λ owned w1 e1 h1.
      bind-then _ _ h1 λ _ w2 e2 h2. bind-then _ _ h2 λ _ w3 e3 h3.
        bind-then _ _ h3 λ present w4 e4 h4.
          let (is_owned', same) = stop-eq-ok _ _ e2 in
          let (gone, same') = stop-eq-ok _ _ h4 in
          let (answer, same'') = pure-eq-ok e4 in
          let yes' = true_of_not owned is_owned' in
          (
            w1,
            w3,
            still_owned-IsOwned owner w w1 (ground (arith, e1, yes')),
            ground (arith, map_err-eq-ok _ _ e3, same),
            ground (arith, answer, same'', same', gone),
          )

-- ===== src/Paths/Literal.antt =====
-- paths.rs: which texts the checks of paths accept.
use sqlite_mcp.Prelude.Text.{Text, codes, starts_with}
use sqlite_mcp.Sql.{has_nul}
use sqlite_mcp.Disk.{FileSystem, bind-eq-ok, stop-eq-ok, map_err-eq-ok, ok_or-eq-ok, pure-eq-ok}
use sqlite_mcp.Paths.{validate_literal, existing, create_target}
use sqlite_mcp.Prelude.{◌≡◌, ◌∙◌, true, false, some, arith, ok, true_of_not}

module _ (fs : FileSystem) where
  -- An absolute path without NUL that is no URI.
  abbrev pub IsLiteral : Text → Type 0
  IsLiteral path =
      (has_nul path ≡ false)
      × (starts_with path (codes "file:") ≡ false)
      × (fs.is_absolute (fs.path_from path) ≡ true)

  pub validate_literal-IsLiteral :
      (path : Text) (w : fs.World) {w' : fs.World}
      → validate_literal fs path w ≡ (ok tt, w')
      → IsLiteral path × (w ≡ w')
  unfolding validate_literal
  validate_literal-IsLiteral path w h =
      let (_, w1, e1, h1) = bind-eq-ok _ _ h in
      let (_, w2, e2, h2) = bind-eq-ok _ _ h1 in
      let (a, p) = stop-eq-ok _ _ e1 in
      let (b, q) = stop-eq-ok _ _ e2 in
      let (c, r) = stop-eq-ok _ _ h2 in ((a, b, true_of_not _ c), p ∙ q ∙ r)

  -- The target lies in the directory that the path names.
  pub create_target-IsLiteral :
      (path : Text) (w : fs.World) {w' : fs.World} {target directory : fs.FilePath}
      → create_target fs path w ≡ (ok (target, directory), w')
      → IsLiteral path
        × ((name : fs.FilePath) × (fs.file_name (fs.path_from path) ≡ some name)
            × (target ≡ fs.join directory name))
  unfolding create_target
  create_target-IsLiteral path w h =
      let (_, w1, e1, h1) = bind-eq-ok _ _ h in
      let (_, w2, e2, h2) = bind-eq-ok _ _ h1 in
      let (parent, w3, e3, h3) = bind-eq-ok _ _ h2 in
      let (name, w4, e4, h4) = bind-eq-ok _ _ h3 in
      (
        (validate_literal-IsLiteral path _ e1).0,
        (name, (ok_or-eq-ok _ _ e4).0, ground (arith, pure-eq-ok h4, e3)),
      )

  -- A file that is accepted exists as a regular file.
  pub existing-IsLiteral :
      (path : Text) (w : fs.World) {w' : fs.World} {p : fs.FilePath}
      → existing fs path w ≡ (ok p, w')
      → IsLiteral path
        × ((w1 w2 : fs.World) × (fs.canonicalize (fs.path_from path) w1 ≡ (ok p, w2))
            × (fs.is_file p w2 ≡ (true, w')))
  unfolding existing
  existing-IsLiteral path w h =
      let (_, w1, e1, h1) = bind-eq-ok _ _ h in
      let (p, w2, e2, h2) = bind-eq-ok _ _ h1 in
      let (file, w3, e3, h3) = bind-eq-ok _ _ h2 in
      let (_, w4, e4, h4) = bind-eq-ok _ _ h3 in
      (
        (validate_literal-IsLiteral path _ e1).0,
        (
          w1,
          w2,
          ground (arith, map_err-eq-ok _ _ e2, pure-eq-ok h4),
          ground (arith, pure-eq-ok e3, pure-eq-ok h4, stop-eq-ok _ _ e4),
        ),
      )

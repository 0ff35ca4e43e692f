-- ===== src/Worker/Installed.antt =====
-- worker/limits.rs: what the connection reports once the limits are installed.
use sqlite_mcp.Worker.Limits.{
  WorkerLimits, EffectiveLimits, LimitCalls, Limit, length_limit, expr_depth, compound_select,
  variable_number, check_effective, install_one, install_limits,
}
use sqlite_mcp.Prelude.Text.{Text, codes}
use sqlite_mcp.Prelude.Words.{i32_max}
use sqlite_mcp.Prelude.Int.{ℤ, pos}
use sqlite_mcp.Sqlite.{Engine, SqliteError}
use sqlite_mcp.Prelude.{
  ℕ, ◌≤◌, ◌≡◌, refl, ◌∙◌, inl, inr, Bool, true, false, arith, Result-cases, Result, ok, err,
}

-- Whether two limits are the same one.
unfoldable pub is_same : Limit → Limit → Bool
is_same length_limit length_limit = true
is_same expr_depth expr_depth = true
is_same compound_select compound_select = true
is_same variable_number variable_number = true
is_same _ _ = false

module _ {e : Engine} (calls : LimitCalls e) where
  -- `sqlite3_limit` changes only the limit that it is asked to change.
  abbrev pub AreSeparate : Type 0
  AreSeparate =
      (l l' : Limit) (v : ℤ) (c : e.Conn)
      → is_same l l' ≡ false
      → calls.limit l (calls.set_limit l' v c).1 ≡ calls.limit l c

  -- A limit that is installed is the requested one, fits, and is what the connection reports.
  abbrev pub IsInstalled : Limit → ℕ → ℤ → e.Conn → Type 0
  IsInstalled l requested v c =
      (v ≡ pos requested) × (requested ≤ i32_max) × (calls.limit l c ≡ ok (pos requested))

  check_effective_ok :
      (field : Text) (requested : ℕ) (r : Result ℤ SqliteError) (v : ℤ)
      → check_effective calls field requested r ≡ ok v
      → (v ≡ pos requested) × (r ≡ ok (pos requested))
  unfolding check_effective
  check_effective_ok field requested (err x) v h = absurd (cc h)
  check_effective_ok field requested (ok w) v h = ground (arith, h)

  install_one_ok :
      (field : Text) (l : Limit) (requested : ℕ) (c : e.Conn) (v : ℤ)
      → (install_one calls field l requested c).0 ≡ ok v
      → IsInstalled l requested v (install_one calls field l requested c).1
  unfolding install_one
  install_one_ok field l requested c v h = ground (
    arith,
    h,
    check_effective_ok field requested (calls.limit l (calls.set_limit l (pos requested) c).1) v,
  )

  -- The installation of a limit leaves what the connection reports for another one.
  install_one_keeps :
      (field : Text) (l l' : Limit) (requested : ℕ) (c : e.Conn)
      → AreSeparate
      → is_same l l' ≡ false
      → calls.limit l (install_one calls field l' requested c).1 ≡ calls.limit l c
  unfolding install_one
  install_one_keeps field l l' requested c separate other =
      ground (arith, separate l l' (pos requested) c other)

  -- An installation that succeeds has made its four steps, each on the connection of the one before.
  install_limits_steps :
      (limits : WorkerLimits) (c : e.Conn) (effective : EffectiveLimits)
      → (install_limits calls limits c).0 ≡ ok effective
      → let (cell, c1) =
          install_one calls (codes "cell_byte_limit") length_limit limits.cell_byte_limit c in
        let (depth, c2) =
          install_one calls (codes "expression_depth") expr_depth limits.expression_depth c1 in
        let (terms, c3) =
          install_one calls (codes "compound_terms") compound_select limits.compound_terms c2 in
        let (parameters, c4) =
          install_one calls (codes "parameter_limit") variable_number limits.parameter_limit c3 in
        (cell ≡ ok effective.cell_byte_limit)
        × (depth ≡ ok effective.expression_depth)
        × (terms ≡ ok effective.compound_terms)
        × (parameters ≡ ok effective.parameter_limit)
        × ((install_limits calls limits c).1 ≡ c4)
  unfolding install_limits
  install_limits_steps limits c effective h =
      let (cell, c1) =
        install_one calls (codes "cell_byte_limit") length_limit limits.cell_byte_limit c in
      let (depth, c2) =
        install_one calls (codes "expression_depth") expr_depth limits.expression_depth c1 in
      let (terms, c3) =
        install_one calls (codes "compound_terms") compound_select limits.compound_terms c2 in
      let (parameters, c4) =
        install_one calls (codes "parameter_limit") variable_number limits.parameter_limit c3 in
      elim (Result-cases cell) [
        | inr (x, p) ↦ ground (arith, h, p)
        | inl (cell', p) ↦ elim (Result-cases depth) [
          | inr (x, p1) ↦ ground (arith, h, p, p1)
          | inl (depth', p1) ↦ elim (Result-cases terms) [
            | inr (x, p2) ↦ ground (arith, h, p, p1, p2)
            | inl (terms', p2) ↦ elim (Result-cases parameters) [
              | inr (x, p3) ↦ ground (arith, h, p, p1, p2, p3)
              | inl (parameters', p3) ↦ ground (arith, h, p, p1, p2, p3)
            ]
          ]
        ]
      ]

  -- If the limits are installed, and SQLite changes only the limit that it is asked to change, then
  -- the connection behind the installation reports for each of the four limits the configured value,
  -- which is also the one that is answered, and which fits the 32 bits of the engine's type.
  pub install_limits_ok :
      (limits : WorkerLimits) (c : e.Conn) (effective : EffectiveLimits)
      → AreSeparate
      → (install_limits calls limits c).0 ≡ ok effective
      → let c' = (install_limits calls limits c).1 in
        IsInstalled length_limit limits.cell_byte_limit effective.cell_byte_limit c'
        × IsInstalled expr_depth limits.expression_depth effective.expression_depth c'
        × IsInstalled compound_select limits.compound_terms effective.compound_terms c'
        × IsInstalled variable_number limits.parameter_limit effective.parameter_limit c'
  unfolding is_same
  install_limits_ok limits c effective separate h =
      let (cell, c1) =
        install_one calls (codes "cell_byte_limit") length_limit limits.cell_byte_limit c in
      let (depth, c2) =
        install_one calls (codes "expression_depth") expr_depth limits.expression_depth c1 in
      let (terms, c3) =
        install_one calls (codes "compound_terms") compound_select limits.compound_terms c2 in
      let (parameters, c4) =
        install_one calls (codes "parameter_limit") variable_number limits.parameter_limit c3 in
      let (p, p1, p2, p3, last) = install_limits_steps limits c effective h in
      let (cell_is, cell_fits, cell_there) = install_one_ok _ length_limit _ c _ p in
      let (depth_is, depth_fits, depth_there) = install_one_ok _ expr_depth _ c1 _ p1 in
      let (terms_is, terms_fits, terms_there) = install_one_ok _ compound_select _ c2 _ p2 in
      let (parameters_is, parameters_fits, parameters_there) =
        install_one_ok _ variable_number _ c3 _ p3 in
      let keeps_depth : (l : Limit)
          → is_same l expr_depth ≡ false
          → calls.limit l c2 ≡ calls.limit l c1 =
        λ l other. install_one_keeps _ l expr_depth _ c1 separate other in
      let keeps_terms : (l : Limit)
          → is_same l compound_select ≡ false
          → calls.limit l c3 ≡ calls.limit l c2 =
        λ l other. install_one_keeps _ l compound_select _ c2 separate other in
      let keeps_parameters : (l : Limit)
          → is_same l variable_number ≡ false
          → calls.limit l c4 ≡ calls.limit l c3 =
        λ l other. install_one_keeps _ l variable_number _ c3 separate other in
      rw last (
        (
          cell_is,
          cell_fits,
          keeps_parameters length_limit refl
              ∙ keeps_terms length_limit refl
              ∙ keeps_depth length_limit refl
              ∙ cell_there,
        ),
        (
          depth_is,
          depth_fits,
          keeps_parameters expr_depth refl ∙ keeps_terms expr_depth refl ∙ depth_there,
        ),
        (terms_is, terms_fits, keeps_parameters compound_select refl ∙ terms_there),
        (parameters_is, parameters_fits, parameters_there),
      )

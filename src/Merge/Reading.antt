-- ===== src/Merge/Reading.antt =====
-- merge.rs: `read_text`, how much it reads.
use sqlite_mcp.Sql.{has_nul}
use sqlite_mcp.Prelude.Text.{Text}
use sqlite_mcp.Merge.Baseline.{Encodings}
use sqlite_mcp.Merge.Split.{MergeError}
use sqlite_mcp.Disk.{FileSystem, bind-then, pure-eq-ok, ok_or-eq-ok, stop-eq-ok}
use sqlite_mcp.Merge.Paths.{read_all, read_text, source_path_text, is_not_literal}
use sqlite_mcp.Prelude.{
  ℕ, zero, suc, ◌+◌, ◌≤◌, ◌<◌, ◌≡◌, ap, inl, inr, false, some, List, [], ◌∷◌, ◌++◌, arith,
  Result-cases, Result, ok, length, length-append,
}

module _ (fs : FileSystem) where
  abbrev Answer : Type 0
  Answer = Result (List ℕ) MergeError × fs.World

  -- Fuel beyond what is left to the limit changes nothing.
  pub read_all_fuel :
      (n m : ℕ) (file : fs.File) (bytes : List ℕ) (limit : ℕ) (w : fs.World)
      → length bytes ≤ limit
      → limit < length bytes + n
      → limit < length bytes + m
      → read_all fs n file bytes limit w ≡ read_all fs m file bytes limit w
  unfolding read_all
  read_all_fuel zero m file bytes limit w b h k = absurd (omega (arith, b, h))
  read_all_fuel (suc n) zero file bytes limit w b h k = absurd (omega (arith, b, k))
  read_all_fuel (suc n) (suc m) file bytes limit w b h k = elim (Result-cases (fs.read file w).0) [
    | inr (e, failed') ↦ ground (arith, failed')
    | inl ([], last) ↦ ground (arith, last)
    | inl (c ∷ buffer, more) ↦ ground (
      arith,
      more,
      length-append bytes (c ∷ buffer),
      read_all_fuel n m file (bytes ++ (c ∷ buffer)) limit (fs.read file w).1,
    )
  ]

  -- What is read fits the limit.
  pub read_all_bound :
      (n : ℕ) (file : fs.File) (bytes : List ℕ) (limit : ℕ) (w w' : fs.World) (out : List ℕ)
      → length bytes ≤ limit
      → read_all fs n file bytes limit w ≡ (ok out, w')
      → length out ≤ limit
  unfolding read_all
  read_all_bound zero file bytes limit w w' out b h = absurd (cc (ap (λ p. p.0) h))
  read_all_bound (suc n) file bytes limit w w' out b h = elim (Result-cases (fs.read file w).0) [
    | inr (e, failed') ↦ ground (arith, failed', h)
    | inl ([], last) ↦ ground (arith, last, h)
    | inl (c ∷ buffer, more) ↦ ground (
      arith,
      more,
      h,
      length-append bytes (c ∷ buffer),
      read_all_bound n file (bytes ++ (c ∷ buffer)) limit (fs.read file w).1 w' out,
    )
  ]

  module _ (x : Encodings) where
    -- What an import reads fits the limit on texts and has no NUL, and its path is absolute, has no
    -- NUL and is no URI.
    pub read_text_bound :
        (path : Text) (limit : ℕ) (w w' : fs.World) (source : fs.FilePath) (text : Text) (count : ℕ)
        → read_text fs x path limit w ≡ (ok (source, text, count), w')
        → (bytes : List ℕ) × (x.from_utf8 bytes ≡ some text)
          × (count ≡ length bytes)
          × (length bytes ≤ limit)
          × (has_nul bytes ≡ false)
          × (is_not_literal fs path ≡ false)
    unfolding read_text source_path_text
    read_text_bound path limit w w' source text count h = bind-then _ _ h λ source' w1 e1 h1.
        bind-then _ _ h1 λ file w2 e2 h2. bind-then _ _ h2 λ bytes w3 e3 h3.
          bind-then _ _ h3 λ _ w4 e4 h4. bind-then _ _ h4 λ text' w5 e5 h5.
            bind-then _ _ e1 λ _ w6 e6 h6.
              let (made, _) = pure-eq-ok h5 in
              let (decoded, _) = ok_or-eq-ok _ _ e5 in
              let (clean, _) = stop-eq-ok _ _ e4 in
              let (literal, _) = stop-eq-ok _ _ e6 in
              (
                bytes,
                ground (arith, decoded, made),
                ground (arith, made),
                read_all_bound (suc limit) file [] limit w2 w3 bytes (omega arith) e3,
                clean,
                literal,
              )

-- ===== src/Merge/Manifest.antt =====
-- merge.rs: `manifest_json`, and the loop of an extraction that finds the size of its manifest.
use sqlite_mcp.Merge.Paths.{error_of}
use sqlite_mcp.Merge.Observe.{input_error}
use sqlite_mcp.Prelude.Text.{Text, codes}
use sqlite_mcp.Merge.Split.{MergeError, limit_exceeded}
use sqlite_mcp.Prelude.{
  ℕ, zero, suc, ◌+◌, not, List, [], ◌∷◌, ◌++◌, ltb, ◌==◌, if◌then◌else◌, Result, ok, err, ◌>>=◌,
  ◌>>◌, fail_if, length,
}

abbrev pub manifest_byte_limit : ℕ
manifest_byte_limit = 1048576

abbrev pub input_result : Result (List ℕ) Text → Result (List ℕ) MergeError
input_result (ok bytes) = ok bytes
input_result (err message) = err (input_error message)

-- The bytes of a manifest, from its JSON text with a newline.
unfoldable pub manifest_json : Result (List ℕ) Text → Result (List ℕ) MergeError
manifest_json value = do
  bytes ← input_result value
  fail_if (ltb manifest_byte_limit (length bytes + 1))
      (error_of limit_exceeded (codes "manifest exceeds fixed limit"))
  ok (bytes ++ (b'\n' ∷ []))

-- The rounds of the loop: `make` gives the manifest that states its own size as the number that it is
-- given. The manifest of the last round, and the size that is kept.
unfoldable pub settle_rounds :
    ℕ → (ℕ → Result (List ℕ) MergeError) → ℕ → List ℕ → Result (List ℕ × ℕ) MergeError
settle_rounds zero make count manifest = ok (manifest, count)
settle_rounds (suc rounds) make count manifest = do
  next ← make count
  if count == length next then ok (next, count) else settle_rounds rounds make (length next) next

-- Four rounds, and the check behind them.
unfoldable pub settle_manifest : (ℕ → Result (List ℕ) MergeError) → ℕ → Result (List ℕ) MergeError
unfolding settle_rounds
settle_manifest make count = do
  (manifest, kept) ← settle_rounds 4 make count []
  fail_if (not (kept == length manifest))
      (input_error (codes "manifest byte count did not stabilize"))
  ok manifest

-- ===== src/Merge/Lines.antt =====
-- merge.rs: the pieces of a baseline are read back from where they are written.
use sqlite_mcp.Sql.Decimal.{IsDigits}
use sqlite_mcp.Sql.{is_digit}
use sqlite_mcp.Policy.Stored.{drop}
use sqlite_mcp.Prelude.Text.{Text}
use sqlite_mcp.Merge.Baseline.{split_line, strip_prefix, split_spaces, split_once}
use sqlite_mcp.Prelude.{
  ℕ, ◌≡◌, refl, true, false, not, some, [], ◌∷◌, ◌++◌, arith, ◌==◌, ==_iff, length, All, all,
}

-- A text without a character.
abbrev pub Lacks : ℕ → Text → Type 0
Lacks k s = All (λ c. (c == k) ≡ false) s

pub Lacks-test : (k : ℕ) (s : Text) → all (λ c. not (c == k)) s ≡ true → Lacks k s
Lacks-test k [] h = tt
Lacks-test k (c ∷ s) h = (ground (arith, h), Lacks-test k s (ground (arith, h)))

pub Lacks-append : (k : ℕ) (s t : Text) → Lacks k s → Lacks k t → Lacks k (s ++ t)
Lacks-append k [] t h g = g
Lacks-append k (c ∷ s) t h g = (h.0, Lacks-append k s t h.1 g)

-- A text behind one that is written out.
pub Lacks-behind :
    (k : ℕ) (p s : Text) → all (λ c. not (c == k)) p ≡ true → Lacks k s → Lacks k (p ++ s)
Lacks-behind k p s h g = Lacks-append k p s (Lacks-test k p h) g

pub split_line-append : (s t : Text) → Lacks b'\n' s → split_line (s ++ (b'\n' ∷ t)) ≡ some (s, t)
unfolding split_line
split_line-append [] t h = refl
split_line-append (c ∷ s) t h = rw (h.0) (rw (split_line-append s t h.1) refl)

pub strip_prefix-append : (p s : Text) → strip_prefix p (p ++ s) ≡ some s
unfolding strip_prefix
strip_prefix-append [] s = refl
strip_prefix-append (c ∷ p) s = rw ((==_iff c c).1 refl) (strip_prefix-append p s)

pub split_spaces-append :
    (s t : Text) → Lacks b' ' s → split_spaces (s ++ (b' ' ∷ t)) ≡ s ∷ split_spaces t
unfolding split_spaces
split_spaces-append [] t h = refl
split_spaces-append (c ∷ s) t h = rw (h.0) (rw (split_spaces-append s t h.1) refl)

pub split_spaces_whole : (s : Text) → Lacks b' ' s → split_spaces s ≡ s ∷ []
unfolding split_spaces
split_spaces_whole [] h = refl
split_spaces_whole (c ∷ s) h = rw (h.0) (rw (split_spaces_whole s h.1) refl)

pub split_once-append : (s t : Text) → Lacks b'=' s → split_once (s ++ (b'=' ∷ t)) ≡ some (s, t)
unfolding split_once
split_once-append [] t h = refl
split_once-append (c ∷ s) t h = rw (h.0) (rw (split_once-append s t h.1) refl)

pub drop-append : (s t : Text) → drop (length s) (s ++ t) ≡ t
unfolding drop
drop-append [] t = refl
drop-append (c ∷ s) t = drop-append s t

pub IsDigits-Lacks : (s : Text) (k : ℕ) → is_digit k ≡ false → IsDigits s → Lacks k s
IsDigits-Lacks [] k h g = tt
IsDigits-Lacks (c ∷ s) k h g = (ground (arith, g.0), IsDigits-Lacks s k h g.1)

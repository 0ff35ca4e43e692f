-- ===== src/Disk.antt =====
-- The file system, which the standard library gives: a parameter of the model. Every call takes the
-- state of the system and gives the state after it, in which other processes may have acted as well,
-- so two calls with the same arguments may answer differently.
pub mod Sample
use sqlite_mcp.Prelude.{
  ℕ, ◌≡◌, refl, ap, ◌⊎◌, inl, inr, Bool, true, false, Option, List, Result, ok, err, fail_if, arith,
  ok_or, some, none,
}
use sqlite_mcp.Prelude.Text.{Text}

-- `std::io::Error`: whether its kind is NotFound or AlreadyExists, and the text that it displays as.
pub record IoError : Type 0 where
  pub is_not_found : Bool
  pub is_already_exists : Bool
  pub text : Text

-- `std::fs::Metadata`: the type of the file, device and inode, size, time and permissions.
pub record Metadata : Type 0 where
  pub is_file : Bool
  pub dev : ℕ
  pub ino : ℕ
  pub len : ℕ
  pub mtime_ns : Option ℕ
  pub mode : ℕ

-- A call that may fail, on a state `W`.
abbrev pub Io : Type 0 → Type 0 → Type 0 → Type 0
Io W E A = W → Result A E × W

module _ {W E : Type 0} where
  unfoldable pub bind : {A B : Type 0} → Result A E × W → (A → Io W E B) → Result B E × W
  bind (ok a, w) f = f a w
  bind (err e, w) f = (err e, w)

  abbrev pub pure : {A : Type 0} → A → Io W E A
  pure a w = (ok a, w)

  abbrev pub fail : {A : Type 0} → E → Io W E A
  fail e w = (err e, w)

  -- Inversion of the calls that always give the same.
  pub lift-eq-ok :
      {A : Type 0} (r : Result A E) {w w' : W} {a : A}
      → ◌≡◌ {A = Result A E × W} (r, w) (ok a, w')
      → (r ≡ ok a) × (w ≡ w')
  lift-eq-ok r h = (ap (λ p. p.0) h, ap (λ p. p.1) h)

  pub pure-eq-ok :
      {A : Type 0} {a b : A} {w w' : W}
      → ◌≡◌ {A = Result A E × W} (ok a, w) (ok b, w')
      → (a ≡ b) × (w ≡ w')
  pure-eq-ok h = (cc (ap (λ p. p.0) h), ap (λ p. p.1) h)

  pub ok_or-eq-ok :
      {A : Type 0} (o : Option A) (e : E) {w w' : W} {a : A}
      → ◌≡◌ {A = Result A E × W} (ok_or o e, w) (ok a, w')
      → (o ≡ some a) × (w ≡ w')
  ok_or-eq-ok none e h = absurd (cc (ap (λ p. p.0) h))
  ok_or-eq-ok (some a) e h = (cc (ap (λ p. p.0) h), ap (λ p. p.1) h)

  pub stop-eq-ok :
      (test : Bool) (e : E) {w w' : W} {a : Unit {0}}
      → ◌≡◌ {A = Result (Unit {0}) E × W} (fail_if test e, w) (ok a, w')
      → (test ≡ false) × (w ≡ w')
  stop-eq-ok true e h = absurd (cc (ap (λ p. p.0) h))
  stop-eq-ok false e h = (refl, ap (λ p. p.1) h)

  -- A result that depends on no state.
  abbrev pub lift : {A : Type 0} → Result A E → Io W E A
  lift r w = (r, w)

  -- `if test { return Err(e) }`.
  abbrev pub stop_if : Bool → E → Io W E (Unit {0})
  stop_if test e w = (fail_if test e, w)

  -- A call that succeeds gave its answer to one that succeeds.
  pub bind-eq-ok :
      {A B : Type 0} (r : Result A E × W) (f : A → Io W E B) {b : B} {w' : W}
      → bind r f ≡ (ok b, w')
      → (a : A) × (w : W) × (r ≡ (ok a, w)) × (f a w ≡ (ok b, w'))
  unfolding bind
  bind-eq-ok (ok a, w) f h = (a, w, refl, h)
  bind-eq-ok (err e, w) f h = absurd (cc (ap (λ p. p.0) h))

  pub bind-then :
      {A B P : Type 0} (r : Result A E × W) (f : A → Io W E B) {b : B} {w' : W}
      → bind r f ≡ (ok b, w')
      → ((a : A) (w : W) → r ≡ (ok a, w) → f a w ≡ (ok b, w') → P)
      → P
  bind-then r f h k = let (a, w, e, rest) = bind-eq-ok r f h in k a w e rest

infixl 5 ◌>>=◌ ◌>>◌
abbrev pub ◌>>=◌ : {W E A B : Type 0} → Io W E A → (A → Io W E B) → Io W E B
◌>>=◌ m f w = bind (m w) f

abbrev pub ◌>>◌ : {W E A B : Type 0} → Io W E A → Io W E B → Io W E B
◌>>◌ m k w = bind (m w) (λ _. k)

abbrev pub err_of : {A E F : Type 0} → (E → F) → Result A E → Result A F
err_of f (ok a) = ok a
err_of f (err e) = err (f e)

-- `map_err` on the answer of a call.
abbrev pub map_err : {W A E F : Type 0} → (E → F) → Io W E A → Io W F A
map_err f m w = (err_of f (m w).0, (m w).1)

pub map_err-eq-ok :
    {W A E F : Type 0} (f : E → F) (r : Result A E × W) {a : A} {w' : W}
    → ◌≡◌ {A = Result A F × W} (err_of f r.0, r.1) (ok a, w')
    → r ≡ (ok a, w')
map_err-eq-ok f (ok a, w) h = ground arith
map_err-eq-ok f (err e, w) h = absurd (cc (ap (λ p. p.0) h))

pub record FileSystem : Type 1 where
  pub World : Type 0
  pub File : Type 0
  -- `Path` and `OsStr`.
  pub FilePath : Type 0
  pub path_from : Text → FilePath
  pub path_eq : FilePath → FilePath → Bool
  pub to_str : FilePath → Option Text
  -- `to_string_lossy` and `display`.
  pub lossy : FilePath → Text
  pub is_absolute : FilePath → Bool
  pub parent : FilePath → Option FilePath
  pub file_name : FilePath → Option FilePath
  pub join : FilePath → FilePath → FilePath
  pub with_file_name : FilePath → FilePath → FilePath
  pub exists : FilePath → World → Bool × World
  pub is_dir : FilePath → World → Bool × World
  pub is_file : FilePath → World → Bool × World
  pub canonicalize : FilePath → Io World IoError FilePath
  pub metadata : FilePath → Io World IoError Metadata
  pub file_metadata : File → Io World IoError Metadata
  -- `File::open`, and `OpenOptions` with `create_new`: it fails if the path exists.
  pub open_read : FilePath → Io World IoError File
  pub create_new : FilePath → Io World IoError File
  pub write_all : File → Text → Io World IoError (Unit {0})
  pub sync_all : File → Io World IoError (Unit {0})
  -- One `read` into a buffer; nothing at the end.
  pub read : File → Io World IoError (List ℕ)
  -- `fs::read` of a whole file.
  pub read_file : FilePath → Io World IoError (List ℕ)
  -- `read_exact` of so many bytes.
  pub read_exact : ℕ → File → Io World IoError (List ℕ)
  pub remove_file : FilePath → Io World IoError (Unit {0})
  -- `DirBuilder` with a mode, not recursive.
  pub create_dir : ℕ → FilePath → Io World IoError (Unit {0})
  pub remove_dir : FilePath → Io World IoError (Unit {0})
  pub remove_dir_all : FilePath → Io World IoError (Unit {0})

-- A question that has an answer.
abbrev pub ask : {W E A : Type 0} → (W → A × W) → Io W E A
ask m w = (ok (m w).0, (m w).1)

-- ===== src/Service/Files.antt =====
-- service/backend.go: the state behind the interface `files`, and its actions. A file system is a function from clean absolute paths to what stands there, with
-- the effective user, the mask on the mode of new directories, and one entry for each coming call
-- that says whether the system refuses it. `survives` says what a refused removal leaves.
pub mod Rules
use compage_go.Base.{
  ℕ, Bool, true, false, Option, none, some, List, [], ◌∷◌, nat_comparable, list_comparable, Bytes,
}
use compage_go.Service.Errors.{IoError, Failure, io, wrapped, Result, ok, err}

pub data FileType : Type 0 where
  directory regular : FileType
  symlink : Bytes → FileType

-- `mode` is the permission bits.
pub record Entry : Type 0 where
  pub type : FileType
  pub mode : ℕ
  pub uid : ℕ
  pub gid : ℕ
  pub content : Bytes

pub record Fs : Type 0 where
  pub node : Bytes → Option Entry
  pub refusals : List (Option IoError)
  pub euid : ℕ
  pub egid : ℕ
  pub masked : ℕ → ℕ
  pub survives : Bytes → Bool

-- What was done before an error stays done.
abbrev pub M : Type 0 → Type 0
M A = Fs → Result A × Fs

module _ {A B : Type 0} where
  abbrev pub continue : Result A × Fs → (A → M B) → Result B × Fs
  continue (ok a, fs) f = f a fs
  continue (err e, fs) f = (err e, fs)

  infixl 5 ◌>>=◌ ◌>>◌
  abbrev pub ◌>>=◌ : M A → (A → M B) → M B
  ◌>>=◌ m f fs = continue (m fs) f

  abbrev pub ◌>>◌ : M A → M B → M B
  m >> k = m >>= λ _. k

module _ {A : Type 0} where
  abbrev pub pure : A → M A
  pure a fs = (ok a, fs)

  abbrev pub raise : Failure → M A
  raise e fs = (err e, fs)

  abbrev pub wrap_result : Bytes → Result A × Fs → Result A × Fs
  wrap_result message (ok a, fs) = (ok a, fs)
  wrap_result message (err e, fs) = (err (wrapped message e), fs)

  -- `if err := m; err != nil { return errx.New(message, errx.WithCause(err)) }`
  abbrev pub wrap : Bytes → M A → M A
  wrap message m fs = wrap_result message (m fs)

  -- The error as a value, for the code to look at.
  abbrev pub attempt : M A → M (Result A)
  attempt m fs = let (r, fs') = m fs in (ok r, fs')

  -- A computed result.
  abbrev pub lift : Result A → M A
  lift r fs = (r, fs)

-- A call that the system may refuse for reasons of its own, and then does nothing.
module _ {A : Type 0} where
  unfoldable pub pass : List (Option IoError) → M A → M A
  pass [] m fs = m fs
  pass (none ∷ rest) m fs = m (record fs { refusals = rest })
  pass (some e ∷ rest) m fs = (err (io e), record fs { refusals = rest })

  unfoldable pub refusable : M A → M A
  unfolding pass
  refusable m fs = pass fs.refusals m fs

  pass_rule :
      (P : Result A × Fs → Type 0) (m : M A) (fs : Fs) (rs : List (Option IoError))
      → ((rest : List (Option IoError)) → P (m (record fs { refusals = rest })))
      → ((e : IoError) (rest : List (Option IoError))
          → P (err (io e), record fs { refusals = rest }))
      → P (pass rs m fs)
  unfolding pass
  pass_rule P m fs [] runs stops = runs fs.refusals
  pass_rule P m fs (none ∷ rest) runs stops = runs rest
  pass_rule P m fs (some e ∷ rest) runs stops = stops e rest

  -- What holds of the call on the same files, and of each refusal, holds of a refusable call.
  pub refusable_rule :
      (P : Result A × Fs → Type 0) (m : M A) (fs : Fs)
      → ((rest : List (Option IoError)) → P (m (record fs { refusals = rest })))
      → ((e : IoError) (rest : List (Option IoError))
          → P (err (io e), record fs { refusals = rest }))
      → P (refusable m fs)
  unfolding refusable
  refusable_rule P m fs runs stops = pass_rule P m fs fs.refusals runs stops

-- What `lstat` and `stat` report; Unix systems fill in the owner.
pub record Info : Type 0 where
  pub type : FileType
  pub perm : ℕ
  pub stat : Option (ℕ × ℕ)

abbrev pub info_of : Entry → Info
info_of e = record { type = e.type; perm = e.mode; stat = some (e.uid, e.gid) }

abbrev pub is_dir : FileType → Bool
is_dir directory = true
is_dir _ = false

abbrev pub is_regular : FileType → Bool
is_regular regular = true
is_regular _ = false

abbrev pub is_symlink : FileType → Bool
is_symlink (symlink _) = true
is_symlink _ = false

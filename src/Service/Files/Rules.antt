-- ===== src/Service/Files/Rules.antt =====
-- Rules for actions: what holds of an action's result and state, from its parts.
use compage_go.Base.{◌≡◌, refl, Bool, true, false, if◌then◌else◌, Bytes}
use compage_go.Service.Errors.{Failure, wrapped, Result, ok, err}
use compage_go.Service.Files.{Fs, M, continue, ◌>>=◌, wrap, wrap_result}

module _ {A B : Type 0} where
  pub bind_rule :
      (P : Result B × Fs → Type 0) (m : M A) (f : A → M B) (fs : Fs)
      → ((a : A) → (m fs).0 ≡ ok a → P (f a (m fs).1))
      → ((e : Failure) → (m fs).0 ≡ err e → P (err e, (m fs).1))
      → P ((m >>= f) fs)
  bind_rule P m f fs goes stops = go (m fs) goes stops
    where
      go :
          (r : Result A × Fs)
          → ((a : A) → r.0 ≡ ok a → P (f a r.1))
          → ((e : Failure) → r.0 ≡ err e → P (err e, r.1))
          → P (continue r f)
      go (ok a, s) goes stops = goes a refl
      go (err e, s) goes stops = stops e refl

  -- The same where the code wraps the error of the first action.
  pub wrap_bind_rule :
      (P : Result B × Fs → Type 0) (message : Bytes) (m : M A) (f : A → M B) (fs : Fs)
      → ((a : A) → (m fs).0 ≡ ok a → P (f a (m fs).1))
      → ((e : Failure) → (m fs).0 ≡ err e → P (err (wrapped message e), (m fs).1))
      → P ((wrap message m >>= f) fs)
  wrap_bind_rule P message m f fs goes stops = go (m fs) goes stops
    where
      go :
          (r : Result A × Fs)
          → ((a : A) → r.0 ≡ ok a → P (f a r.1))
          → ((e : Failure) → r.0 ≡ err e → P (err (wrapped message e), r.1))
          → P (continue (wrap_result message r) f)
      go (ok a, s) goes stops = goes a refl
      go (err e, s) goes stops = stops e refl

module _ {A : Type 0} where
  pub wrap_rule :
      (P : Result A × Fs → Type 0) (message : Bytes) (m : M A) (fs : Fs)
      → ((a : A) → (m fs).0 ≡ ok a → P (ok a, (m fs).1))
      → ((e : Failure) → (m fs).0 ≡ err e → P (err (wrapped message e), (m fs).1))
      → P (wrap message m fs)
  wrap_rule P message m fs goes stops = go (m fs) goes stops
    where
      go :
          (r : Result A × Fs)
          → ((a : A) → r.0 ≡ ok a → P (ok a, r.1))
          → ((e : Failure) → r.0 ≡ err e → P (err (wrapped message e), r.1))
          → P (wrap_result message r)
      go (ok a, s) goes stops = goes a refl
      go (err e, s) goes stops = stops e refl

  pub if_rule :
      (P : Result A × Fs → Type 0) (b : Bool) (yes_ no_ : M A) (fs : Fs)
      → (b ≡ true → P (yes_ fs))
      → (b ≡ false → P (no_ fs))
      → P ((if b then yes_ else no_) fs)
  if_rule P true y n fs t f = t refl
  if_rule P false y n fs t f = f refl

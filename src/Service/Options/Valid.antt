-- ===== src/Service/Options/Valid.antt =====
-- What holds of every specification that the options make.
use compage_go.Base.{
  ◌≡◌, ◌⊎◌, inl, inr, refl, Bool, true, false, ◌&&◌, ◌||◌, Option, none, some, List, [], ◌∷◌, ◌==◌,
  list_comparable, list_same_iff, subst, nat_comparable, Bytes, arith, Bool-cases, if◌then◌else◌,
}
use compage_go.Service.Errors.{Failure, Result, ok, err, Result-cases}
use compage_go.Service.Spec.{Specification, given, valid_relative_directory, valid_log_filename}
use compage_go.Service.Options.{
  ServiceOption, set_directory, log_name, log_option, then_set, apply, apply_all,
  default_specification, with_name, with_description, with_binary, with_revision, with_args,
  with_environment, with_scope, with_restart_policy, with_account, with_runtime_dir,
  with_config_dir, with_config_dir_write, with_state_dir, with_log_dir, with_stdout_log,
  with_stderr_log, nil_option,
}

-- Not declared, declared without a name, or a name that passes the test.
abbrev pub NameOk : (Bytes → Bool) → Option Bytes → Type 0
NameOk test none = Unit
NameOk test (some v) = (v ≡ []) ⊎ (test v ≡ true)

-- The directories and log files that are declared.
pub record Declared (runtime_dir config_dir state_dir log_dir stdout_log stderr_log : Option Bytes)
    (writable read : Bool) : Type 0 where
  pub runtime : NameOk valid_relative_directory runtime_dir
  pub config : NameOk valid_relative_directory config_dir
  pub state : NameOk valid_relative_directory state_dir
  pub logs : NameOk valid_relative_directory log_dir
  pub stdout : NameOk valid_log_filename stdout_log
  pub stderr : NameOk valid_log_filename stderr_log
  -- the configuration directory is not both read-only and writable
  pub exclusive : (writable && read) ≡ false
  -- it is declared where it is one of both
  pub some_config : (writable || read) ≡ true → given config_dir ≡ true

abbrev pub IsDeclared : Specification → Type 0
IsDeclared s =
    Declared s.runtime_dir s.config_dir s.state_dir s.log_dir s.stdout_log s.stderr_log
      s.config_writable s.config_read_declared

set_directory-NameOk :
    (label : Bytes) (vs : List Bytes) (v : Bytes)
    → set_directory label vs ≡ ok v
    → (v ≡ []) ⊎ (valid_relative_directory v ≡ true)
unfolding set_directory
set_directory-NameOk label [] v h = ground arith
set_directory-NameOk label (x ∷ []) v h = ground arith
set_directory-NameOk label (x ∷ y ∷ vs) v h = cc

log_name-NameOk :
    (label x v : Bytes) → log_name label x ≡ ok v → (v ≡ []) ⊎ (valid_log_filename v ≡ true)
unfolding log_name
log_name-NameOk label x v h = elim (Bool-cases (x == [])) [
  | inl e ↦ inl (ground (arith, (list_same_iff x []).0 e))
  | inr e ↦ ground arith
]

log_option-NameOk :
    (label : Bytes) (vs : List Bytes) (v : Bytes)
    → log_option label vs ≡ ok v
    → (v ≡ []) ⊎ (valid_log_filename v ≡ true)
unfolding log_option
log_option-NameOk label [] v h = log_name-NameOk label [] v h
log_option-NameOk label (x ∷ []) v h = log_name-NameOk label x v h
log_option-NameOk label (x ∷ y ∷ vs) v h = cc

module _ {A : Type 0} where
  pub then_set-eq-ok :
      {B : Type 0} (r : Result A) (set : A → B) (b : B)
      → then_set r set ≡ ok b
      → (a : A) × (r ≡ ok a) × (set a ≡ b)
  then_set-eq-ok (ok a) set b h = (a, refl, ground arith)
  then_set-eq-ok (err e) set b h = cc

pub ok_eq : {A : Type 0} (a b : A) → ok a ≡ ok b → a ≡ b
ok_eq a b h = ground arith

pub if-eq-ok :
    {A : Type 0} (b : Bool) (e : Failure) (r : Result A) (a : A)
    → (if b then err e else r) ≡ ok a
    → (b ≡ false) × (r ≡ ok a)
if-eq-ok true e r a h = cc
if-eq-ok false e r a h = (refl, h)

module _ (s : Specification) (d : IsDeclared s) where
  -- the specification `x` that an option makes is the one that it returns
  made : (x t : Specification) → IsDeclared x → ok x ≡ ok t → IsDeclared t
  made x t e h = subst (λ y. IsDeclared y) (ok_eq x t h) e

  -- the same where the option checks a name first
  set :
      (test : Bytes → Bool) (r : Result Bytes) (f : Bytes → Specification) (t : Specification)
      → ((v : Bytes) → r ≡ ok v → (v ≡ []) ⊎ (test v ≡ true))
      → ((v : Bytes) → (v ≡ []) ⊎ (test v ≡ true) → IsDeclared (f v))
      → then_set r f ≡ ok t
      → IsDeclared t
  set test r f t passes declared h =
      let (v, e, k) = then_set-eq-ok r f t h in
      subst (λ y. IsDeclared y) k (declared v (passes v e))

  apply-IsDeclared : (o : ServiceOption) (t : Specification) → apply o s ≡ ok t → IsDeclared t
  unfolding apply
  apply-IsDeclared (with_name v) t = made _ t d
  apply-IsDeclared (with_description v) t = made _ t d
  apply-IsDeclared (with_binary v) t = made _ t d
  apply-IsDeclared (with_revision v) t = made _ t d
  apply-IsDeclared (with_args v) t = made _ t d
  apply-IsDeclared (with_environment v) t = made _ t d
  apply-IsDeclared (with_scope v) t = made _ t d
  apply-IsDeclared (with_restart_policy v) t = made _ t d
  apply-IsDeclared (with_account v) t = made _ t d
  apply-IsDeclared (with_runtime_dir vs) t =
      set valid_relative_directory _ _ t (set_directory-NameOk _ vs) λ v p. record {
        runtime = p;
        config = d.config;
        state = d.state;
        logs = d.logs;
        stdout = d.stdout;
        stderr = d.stderr;
        exclusive = d.exclusive;
        some_config = d.some_config;
      }
  apply-IsDeclared (with_config_dir vs) t = λ h.
      let (off, k) = if-eq-ok s.config_writable _ _ t h in
      set valid_relative_directory _ _ t (set_directory-NameOk _ vs)
        (λ v p. record {
          runtime = d.runtime;
          config = p;
          state = d.state;
          logs = d.logs;
          stdout = d.stdout;
          stderr = d.stderr;
          exclusive = ground arith;
          some_config = λ _. refl;
        })
        k
  apply-IsDeclared (with_config_dir_write vs) t = λ h.
      let (off, k) = if-eq-ok s.config_read_declared _ _ t h in
      set valid_relative_directory _ _ t (set_directory-NameOk _ vs)
        (λ v p. record {
          runtime = d.runtime;
          config = p;
          state = d.state;
          logs = d.logs;
          stdout = d.stdout;
          stderr = d.stderr;
          exclusive = ground arith;
          some_config = λ _. refl;
        })
        k
  apply-IsDeclared (with_state_dir vs) t =
      set valid_relative_directory _ _ t (set_directory-NameOk _ vs) λ v p. record {
        runtime = d.runtime;
        config = d.config;
        state = p;
        logs = d.logs;
        stdout = d.stdout;
        stderr = d.stderr;
        exclusive = d.exclusive;
        some_config = d.some_config;
      }
  apply-IsDeclared (with_log_dir vs) t =
      set valid_relative_directory _ _ t (set_directory-NameOk _ vs) λ v p. record {
        runtime = d.runtime;
        config = d.config;
        state = d.state;
        logs = p;
        stdout = d.stdout;
        stderr = d.stderr;
        exclusive = d.exclusive;
        some_config = d.some_config;
      }
  apply-IsDeclared (with_stdout_log vs) t =
      set valid_log_filename _ _ t (log_option-NameOk _ vs) λ v p. record {
        runtime = d.runtime;
        config = d.config;
        state = d.state;
        logs = d.logs;
        stdout = p;
        stderr = d.stderr;
        exclusive = d.exclusive;
        some_config = d.some_config;
      }
  apply-IsDeclared (with_stderr_log vs) t =
      set valid_log_filename _ _ t (log_option-NameOk _ vs) λ v p. record {
        runtime = d.runtime;
        config = d.config;
        state = d.state;
        logs = d.logs;
        stdout = d.stdout;
        stderr = p;
        exclusive = d.exclusive;
        some_config = d.some_config;
      }
  apply-IsDeclared nil_option t = λ h. cc

-- Whatever the options are, a specification that they make declares no directory and no log file
-- under an invalid name, and does not declare its configuration directory read-only and writable,
-- if that holds of the one that they start from.
pub apply_all-IsDeclared :
    (os : List ServiceOption) (s t : Specification)
    → IsDeclared s
    → apply_all os s ≡ ok t
    → IsDeclared t
unfolding apply_all
apply_all-IsDeclared [] s t d h = made s d s t d h
apply_all-IsDeclared (o ∷ os) s t d h = elim (Result-cases (apply o s)) [
  | inr (f, e) ↦ ground arith
  | inl (u, e) ↦ apply_all-IsDeclared os u t (apply-IsDeclared s d o u e) (ground arith)
]

-- the same from what `New` starts from
pub default_declared : IsDeclared default_specification
default_declared = record {
  runtime = tt;
  config = tt;
  state = tt;
  logs = tt;
  stdout = tt;
  stderr = tt;
  exclusive = refl;
  some_config = λ h. cc;
}

-- ===== src/Service/Options.antt =====
-- service/service.go: the options, and the specification that they make.
pub mod Valid
use compage_go.Base.{
  ℕ, Bool, true, false, not, ◌&&◌, Option, none, some, List, [], ◌∷◌, ◌++◌, ◌==◌, list_comparable,
  nat_comparable, if◌then◌else◌, Bytes, lit,
}
use compage_go.Service.Errors.{validation, Result, ok, err}
use compage_go.Service.Spec.{
  Specification, user, restart_on_failure, valid_relative_directory, valid_log_filename,
}
use compage_go.Account.Spec as account

-- An `Option`, with the arguments that it closes over.
pub data ServiceOption : Type 0 where
  with_name with_description with_binary with_revision : Bytes → ServiceOption
  with_args : List Bytes → ServiceOption
  with_environment : List (Bytes × Bytes) → ServiceOption
  with_scope with_restart_policy : ℕ → ServiceOption
  with_account : account.Spec → ServiceOption
  with_runtime_dir with_config_dir with_config_dir_write with_state_dir with_log_dir :
      List Bytes → ServiceOption
  with_stdout_log with_stderr_log : List Bytes → ServiceOption
  nil_option : ServiceOption

-- `setDirectory`: the value that is set.
unfoldable pub set_directory : Bytes → List Bytes → Result Bytes
set_directory label [] = ok []
set_directory label (v ∷ []) =
    if not (valid_relative_directory v) then err (validation (lit "invalid " ++ label)) else ok v
set_directory label (_ ∷ _ ∷ _) = err (validation (label ++ lit " accepts at most one name"))

-- The name in `logOption`
unfoldable pub log_name : Bytes → Bytes → Result Bytes
log_name label v =
    if not (v == []) && not (valid_log_filename v)
    then err (validation (lit "invalid " ++ label))
    else ok v

-- `logOption`: the value that is set.
unfoldable pub log_option : Bytes → List Bytes → Result Bytes
unfolding log_name
log_option label [] = log_name label []
log_option label (v ∷ []) = log_name label v
log_option label (_ ∷ _ ∷ _) = err (validation (label ++ lit " accepts at most one filename"))

-- `if err := …; err != nil { return err }`, and what the value sets.
abbrev pub then_set : {A B : Type 0} → Result A → (A → B) → Result B
then_set (ok a) set = ok (set a)
then_set (err e) set = err e

abbrev pub both_declared : Bytes
both_declared = lit "config directory and config directory write cannot both be declared"

-- What an option does to the specification.
unfoldable pub apply : ServiceOption → Specification → Result Specification
unfolding set_directory log_option
apply (with_name v) s = ok (record s { name = v })
apply (with_description v) s = ok (record s { description = v })
apply (with_binary v) s = ok (record s { binary = v })
apply (with_revision v) s = ok (record s { revision = v })
apply (with_args v) s = ok (record s { args = v })
apply (with_environment v) s = ok (record s { env = v })
apply (with_scope v) s = ok (record s { scope = v })
apply (with_restart_policy v) s = ok (record s { restart = v })
apply (with_account v) s = ok (record s { account = some v })
apply (with_runtime_dir v) s =
    then_set (set_directory (lit "runtime directory") v) λ p. record s { runtime_dir = some p }
apply (with_config_dir v) s =
    if s.config_writable
    then err (validation both_declared)
    else then_set (set_directory (lit "config directory") v)
        λ p. record s { config_dir = some p; config_read_declared = true }
apply (with_config_dir_write v) s =
    if s.config_read_declared
    then err (validation both_declared)
    else then_set (set_directory (lit "config directory") v)
        λ p. record s { config_dir = some p; config_writable = true }
apply (with_state_dir v) s =
    then_set (set_directory (lit "state directory") v) λ p. record s { state_dir = some p }
apply (with_log_dir v) s =
    then_set (set_directory (lit "log directory") v) λ p. record s { log_dir = some p }
apply (with_stdout_log v) s =
    then_set (log_option (lit "stdout log") v) λ p. record s { stdout_log = some p }
apply (with_stderr_log v) s =
    then_set (log_option (lit "stderr log") v) λ p. record s { stderr_log = some p }
apply nil_option s = err (validation (lit "nil option"))

abbrev pub then_apply :
    Result Specification → (Specification → Result Specification) → Result Specification
then_apply (ok s) next = next s
then_apply (err e) next = err e

-- The loop over the options in `New` and `Directories`
unfoldable pub apply_all : List ServiceOption → Specification → Result Specification
unfolding apply
apply_all [] s = ok s
apply_all (o ∷ os) s = then_apply (apply o s) (apply_all os)

-- The zero value of `specification`
abbrev pub zero_specification : Specification
zero_specification = record {
  name = [];
  description = [];
  binary = [];
  stdout = [];
  stderr = [];
  revision = [];
  args = [];
  env = [];
  scope = user;
  restart = 0;
  account = none;
  runtime_dir = none;
  config_dir = none;
  state_dir = none;
  log_dir = none;
  config_writable = false;
  config_read_declared = false;
  stdout_log = none;
  stderr_log = none;
}

-- What `New` starts from
abbrev pub default_specification : Specification
default_specification = record zero_specification { restart = restart_on_failure }

-- ===== src/Service/Resolve.antt =====
-- service/directories.go and the backends: where the managed directories are.
pub mod Below
use compage_go.Base.{
  ℕ, Bool, false, not, ◌&&◌, ◌||◌, Option, none, some, [], ◌∷◌, ◌==◌, nat_comparable,
  list_comparable, if◌then◌else◌, Bytes, lit,
}
use compage_go.Go.Strings.{has_suffix, has_substring}
use compage_go.Go.Path.{is_abs, clean, join_two}
use compage_go.Service.Errors.{validation, unsupported, Result, ok, err}
use compage_go.Service.Spec.{Specification, user, system, given}
use compage_go.Account.Backend.{Os, linux, darwin, windows, unnamed, os_name}

-- `AppDirectories`
pub record AppDirectories : Type 0 where
  pub runtime : Bytes
  pub config : Bytes
  pub state : Bytes
  pub logs : Bytes

abbrev pub no_directories : AppDirectories
no_directories = record { runtime = []; config = []; state = []; logs = [] }

-- `managedDirectories`
pub record ManagedDirectories : Type 0 where
  pub paths : AppDirectories
  pub has_runtime : Bool
  pub has_config : Bool
  pub has_state : Bool
  pub has_logs : Bool
  pub config_writable : Bool

-- `userDirectoryBases`
unfoldable pub user_directory_bases : Bytes → Result AppDirectories
user_directory_bases home =
    if home == [] || not (is_abs home) || not (clean home == home)
    then err (validation (lit "invalid user home directory"))
    else ok (record { runtime = home; config = home; state = home; logs = home })

-- The two implementations of `backend`
pub data Platform : Type 0 where
  systemd launchd : Platform

-- `platformBackend`
unfoldable pub platform_backend : Os → Result Platform
platform_backend linux = ok systemd
platform_backend darwin = ok launchd
platform_backend windows = err (unsupported (os_name windows))
platform_backend (unnamed name) = err (unsupported (os_name (unnamed name)))

abbrev pub system_bases : Platform → AppDirectories
system_bases systemd = record {
  runtime = lit "/run";
  config = lit "/etc";
  state = lit "/var/lib";
  logs = lit "/var/log";
}
system_bases launchd = record {
  runtime = lit "/private/var/run";
  config = lit "/Library/Application Support";
  state = lit "/Library/Application Support";
  logs = lit "/Library/Logs";
}

-- `directoryBases`
unfoldable pub directory_bases : Platform → ℕ → Bytes → Result AppDirectories
unfolding user_directory_bases
directory_bases platform scope home =
    if scope == user
    then user_directory_bases home
    else if not (scope == system)
    then err (validation (lit "unknown scope"))
    else ok (system_bases platform)

-- `validate` of the backends: the message of the `ValidationError`, or none.
unfoldable pub validate_for : Platform → Specification → Option Bytes
validate_for systemd s =
    if has_suffix s.name (lit ".service")
    then some (lit "name must not include .service suffix")
    else none
validate_for launchd s =
    if not (has_substring s.name (lit "."))
    then some (lit "launchd label must contain a namespace dot")
    else none

-- `value`
abbrev pub value : Option Bytes → Bytes
value none = []
value (some v) = v

-- `directoryPath`
unfoldable pub directory_path : Specification → Bytes → Bytes → Bytes
directory_path s base [] = join_two base s.name
directory_path s base (c ∷ name) = join_two base (c ∷ name)

-- `userChild`
abbrev pub user_child : Bytes → Bytes → Bytes
user_child [] fallback = fallback
user_child (c ∷ name) fallback = c ∷ name

abbrev pub given_name : Option Bytes → Bool
given_name v = not (value v == [])

-- Is a log directory or a log file declared?
abbrev pub wants_logs : Specification → Bool
wants_logs s = given s.log_dir || given s.stdout_log || given s.stderr_log

-- `any` of `resolveDirectories`
abbrev pub wants_any : Specification → Bool
wants_any s = given s.runtime_dir || given s.config_dir || given s.state_dir || wants_logs s

-- The name of the configuration directory, by the two tests of `resolveDirectories`.
abbrev pub config_name : Specification → Bytes
config_name s =
    if s.scope == system && not (given s.config_dir)
    then s.name
    else if given_name s.config_dir
    then value s.config_dir
    else b'.' ∷ s.name

abbrev pub wants_config : Specification → Bool
wants_config s = s.scope == user || given s.config_dir

abbrev pub config_path : Specification → AppDirectories → Bytes
config_path s bases = if wants_config s then join_two bases.config (config_name s) else []

-- A directory that is declared: below the configuration directory for a user's service.
unfoldable pub place : Specification → AppDirectories → Bool → Option Bytes → Bytes → Bytes → Bytes
unfolding directory_path
place s bases wanted name base fallback =
    if not wanted
    then []
    else if s.scope == user
    then join_two (config_path s bases) (user_child (value name) fallback)
    else directory_path s base (value name)

unfoldable pub resolve_from : Specification → AppDirectories → ManagedDirectories
unfolding place
resolve_from s bases = record {
  paths = record {
    runtime = place s bases (given s.runtime_dir) s.runtime_dir bases.runtime (lit "run");
    config = config_path s bases;
    state = place s bases (given s.state_dir) s.state_dir bases.state (lit "lib");
    logs = place s bases (wants_logs s) s.log_dir bases.logs (lit "log");
  };
  has_runtime = given s.runtime_dir;
  has_config = wants_config s;
  has_state = given s.state_dir;
  has_logs = wants_logs s;
  config_writable = s.config_writable;
}

abbrev pub with_bases : Specification → Result AppDirectories → Result ManagedDirectories
with_bases s (ok bases) = ok (resolve_from s bases)
with_bases s (err e) = err e

abbrev pub nothing_managed : Specification → ManagedDirectories
nothing_managed s = record {
  paths = no_directories;
  has_runtime = false;
  has_config = false;
  has_state = false;
  has_logs = false;
  config_writable = s.config_writable;
}

-- `resolveDirectories`
unfoldable pub resolve_directories : Platform → Specification → Bytes → Result ManagedDirectories
unfolding directory_bases resolve_from
resolve_directories platform s home =
    if not (wants_any s)
    then ok (nothing_managed s)
    else with_bases s (directory_bases platform s.scope home)
